-- ===== src/Guards/RateLimit/Buckets.antt =====
-- tool_runner.py: the executions of a tool, and its bucket as their recent part.
use mathlib.Core.List.{reverse, reverse-cons, reverse-append, append_assoc}
use multi_bot_agentic.Prelude.{
  ℕ, zero, suc, ◌+◌, ◌-◌, ◌≤◌, ◌<◌, ◌≡◌, refl, ap, ◌∙◌, String, List, [], ◌∷◌, ◌++◌, All,
  All-append, length, length-append, drop, ltb, arith, string_eq, ◌==◌, if◌then◌else◌, if-split,
}
use multi_bot_agentic.Guards.RateLimit.{Execution, prune}

-- Of calls with the newest first: each is more than the window after the `m`-th call before it.
abbrev pub Spaced : ℕ → ℕ → List ℕ → Type 0
Spaced m window [] = Unit
Spaced m window (t ∷ older) = All (λ s. s + window < t) (drop (m - 1) older) × Spaced m window older

-- When the tool was executed, the newest first.
abbrev pub times : String → List Execution → List ℕ
times name [] = []
times name (e ∷ es) = let rest = times name es in if e.tool_name == name then e.at ∷ rest else rest

pub All-mono {ℓ κ} :
    {A : Type ℓ} (P Q : A → Type κ) (xs : List A) → ((x : A) → P x → Q x) → All P xs → All Q xs
All-mono P Q [] f h = tt
All-mono P Q (x ∷ xs) f h = (f x h.0, All-mono P Q xs f h.1)

pub All-reverse {ℓ κ} : {A : Type ℓ} (P : A → Type κ) (xs : List A) → All P xs → All P (reverse xs)
All-reverse P [] h = tt
All-reverse P (x ∷ xs) h =
    rw (reverse-cons x xs) (All-append P (reverse xs) (x ∷ []) (All-reverse P xs h.1) (h.0, tt))

pub All-drop {ℓ κ} :
    {A : Type ℓ} (P : A → Type κ) (k : ℕ) (xs ys : List A)
    → length xs ≤ k
    → All P ys
    → All P (drop k (xs ++ ys))
All-drop P zero [] ys h p = p
All-drop P zero (x ∷ xs) ys h p = absurd (omega arith)
All-drop P (suc k) [] [] h p = tt
All-drop P (suc k) [] (y ∷ ys) h p = All-drop P k [] ys (omega arith) p.1
All-drop P (suc k) (x ∷ xs) ys h p = All-drop P k xs ys (omega arith) p

pub length-reverse {ℓ} : {A : Type ℓ} (xs : List A) → length (reverse xs) ≡ length xs
length-reverse [] = refl
length-reverse (x ∷ xs) =
    rw (reverse-cons x xs) (length-append (reverse xs) (x ∷ []) ∙ omega (arith, length-reverse xs))

-- The bucket holds the newest calls, and what is not in it is out of the window.
pub record Kept (m window now : ℕ) (bucket calls : List ℕ) : Type 0 where
  pub old : List ℕ
  pub split : calls ≡ reverse bucket ++ old
  pub outside : All (λ t. t + window < now) old
  pub spaced : Spaced m window calls

pub Kept-empty : (m window now : ℕ) → Kept m window now [] []
Kept-empty m window now = record { old = []; split = refl; outside = tt; spaced = tt }

pub Kept-later :
    (m window now later : ℕ) (b calls : List ℕ)
    → now ≤ later
    → Kept m window now b calls
    → Kept m window later b calls
Kept-later m window now later b calls h k = record {
  old = k.old;
  split = k.split;
  outside =
      All-mono (λ t. t + window < now) (λ t. t + window < later) k.old (λ t p. omega arith)
        k.outside;
  spaced = k.spaced;
}

pub Kept-push :
    (m window now : ℕ) (b calls : List ℕ)
    → length b < m
    → Kept m window now b calls
    → Kept m window now (b ++ now ∷ []) (now ∷ calls)
Kept-push m window now b calls h k = record {
  old = k.old;
  split = rw (reverse-append b (now ∷ [])) (ap (λ l. now ∷ l) k.split);
  outside = k.outside;
  spaced = (
    rw k.split (
        All-drop (λ s. s + window < now) (m - 1) (reverse b) k.old
          (omega (arith, length-reverse {0} b)) k.outside),
    k.spaced,
  );
}

pub Kept-prune :
    (m window now : ℕ) (b calls : List ℕ)
    → Kept m window now b calls
    → Kept m window now (prune window now b) calls
unfolding prune
Kept-prune m window now [] calls k = k
Kept-prune m window now (t ∷ b) calls k =
    if-split (λ l. Kept m window now l calls) (ltb (t + window) now) (prune window now b) (t ∷ b)
      (λ past. Kept-prune m window now b calls (record {
        old = t ∷ k.old;
        split = k.split ∙ (rw (reverse-cons t b) (append_assoc (reverse b) (t ∷ []) k.old));
        outside = (ground arith, k.outside);
        spaced = k.spaced;
      }))
      (λ recent. k)
