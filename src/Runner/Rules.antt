-- ===== src/Runner/Rules.antt =====
-- Rules for proofs about the methods of `AgentRunner`: what holds after a method that returns, and
-- after one that raises.
use multi_bot_agentic.Prelude.{Bool, true, false, if◌then◌else◌}
use multi_bot_agentic.Exn.{Exn, Result, ok, err}
use multi_bot_agentic.Runner.State.{World, Exec, pure, raise, lift, gets, continue, ◌>>=◌}

-- `Q` of the value and the world after a return, `E` of the world after a raise.
abbrev pub Ends :
    {A : Type 0} → (A → World → Type 0) → (Exn → World → Type 0) → Result A × World → Type 0
Ends Q E (ok x, w) = Q x w
Ends Q E (err e, w) = E e w

pub Ends-continue :
    {A B : Type 0} (Q : A → World → Type 0) (R : B → World → Type 0) (E : Exn → World → Type 0)
    (r : Result A) (w : World) (f : A → Exec B)
    → Ends Q E (r, w)
    → ((x : A) (v : World) → Q x v → Ends R E (f x v))
    → Ends R E (continue r f w)
Ends-continue Q R E (ok x) w f h k = k x w h
Ends-continue Q R E (err e) w f h k = h

pub Ends-bind :
    {A B : Type 0} (Q : A → World → Type 0) (R : B → World → Type 0) (E : Exn → World → Type 0)
    (m : Exec A) (f : A → Exec B) (w : World)
    → Ends Q E (m w)
    → ((x : A) (v : World) → Q x v → Ends R E (f x v))
    → Ends R E ((m >>= f) w)
unfolding ◌>>=◌
Ends-bind Q R E m f w h k = let (r, w') = m w in Ends-continue Q R E r w' f h k

-- From `P`, the method returns into `Q`, or raises and `P` still holds.
pub record Runs {A : Type 0} (P : World → Type 0) (m : Exec A) (Q : A → World → Type 0)
    : Type 0 where
  pub at : (w : World) → P w → Ends Q (λ _ v. P v) (m w)

-- `P` holds after the method, however it ends.
pub record Keeps {A : Type 0} (P : World → Type 0) (m : Exec A) : Type 0 where
  pub at : (w : World) → P w → P (m w).1

pub Ends-Keeps :
    {A : Type 0} (P : World → Type 0) (r : Result A) (w : World)
    → P w
    → Ends (λ _ v. P v) (λ _ v. P v) (r, w)
Ends-Keeps P (ok x) w h = h
Ends-Keeps P (err e) w h = h

module _ {A B : Type 0} {P : World → Type 0} {Q : A → World → Type 0} {R : B → World → Type 0} where
  pub Runs-bind :
      (m : Exec A) (f : A → Exec B)
      → Runs P m Q
      → ((x : A) (v : World) → Q x v → Ends R (λ _ u. P u) (f x v))
      → Runs P (m >>= f) R
  unfolding ◌>>=◌
  Runs-bind m f h k = record {
    at = λ w p. let (r, w') = m w in Ends-continue Q R (λ _ u. P u) r w' f (h.at w p) k;
  }

module _ {A B : Type 0} {P : World → Type 0} where
  pub Keeps-Runs-bind :
      {R : B → World → Type 0} (m : Exec A) (f : A → Exec B)
      → Keeps P m
      → ((x : A) → Runs P (f x) R)
      → Runs P (m >>= f) R
  unfolding ◌>>=◌
  Keeps-Runs-bind {R} m f h k = record {
    at = λ w p.
        let (r, w') = m w in
        Ends-continue (λ _ v. P v) R (λ _ u. P u) r w' f (Ends-Keeps P r w' (h.at w p))
          (λ x v q. (k x).at v q);
  }

  Keeps-continue :
      (r : Result A) (w : World) (f : A → Exec B)
      → P w
      → ((x : A) → Keeps P (f x))
      → P (continue r f w).1
  Keeps-continue (ok x) w f p k = (k x).at w p
  Keeps-continue (err e) w f p k = p

  pub Keeps-bind :
      (m : Exec A) (f : A → Exec B) → Keeps P m → ((x : A) → Keeps P (f x)) → Keeps P (m >>= f)
  unfolding ◌>>=◌
  Keeps-bind m f h k = record {
    at = λ w p. let (r, w') = m w in Keeps-continue r w' f (h.at w p) k;
  }

module _ {A : Type 0} {P : World → Type 0} where
  pub Keeps-pure : (x : A) → Keeps P (pure x)
  unfolding pure
  Keeps-pure x = record { at = λ w p. p }

  pub Keeps-raise : (e : Exn) → Keeps P (raise {A = A} e)
  unfolding raise
  Keeps-raise e = record { at = λ w p. p }

  pub Keeps-lift : (r : Result A) → Keeps P (lift r)
  unfolding lift
  Keeps-lift r = record { at = λ w p. p }

  pub Keeps-gets : (f : World → A) → Keeps P (gets f)
  unfolding gets
  Keeps-gets f = record { at = λ w p. p }

  pub Keeps-if : (b : Bool) (m n : Exec A) → Keeps P m → Keeps P n → Keeps P (if b then m else n)
  Keeps-if true m n hm hn = hm
  Keeps-if false m n hm hn = hn

  pub Runs-if :
      {Q : A → World → Type 0} (b : Bool) (m n : Exec A)
      → Runs P m Q
      → Runs P n Q
      → Runs P (if b then m else n) Q
  Runs-if true m n hm hn = hm
  Runs-if false m n hm hn = hn

pub ruleset keeps_rules = (Keeps-pure, Keeps-raise, Keeps-lift, Keeps-gets, Keeps-if, Keeps-bind)
