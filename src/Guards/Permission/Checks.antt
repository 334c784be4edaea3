-- ===== src/Guards/Permission/Checks.antt =====
-- tool_permission.py: what `check` allows after any calls of the allowlist.
use multi_bot_agentic.Prelude.{
  ◌≡◌, ◌↔◌, ◌⊎◌, ◌∙◌, refl, sym, ap, subst, String, Bool, true, false, Option, none, some, List, [],
  ◌∷◌, contains, ◌==◌, eq_refl, string_eq, if◌then◌else◌, arith, Bool-cases, Option-cases, inl, inr,
}
use multi_bot_agentic.Prelude.Dict.{lookup, lookup-insert}
use multi_bot_agentic.Prelude.Sets.{add_member, remove_member}
use multi_bot_agentic.Exn.{Result, ok, err}
use multi_bot_agentic.Guards.{require_id, with_id}
use multi_bot_agentic.Guards.Permission.{
  ToolPermissionAllowlist, ToolPermissionResult, allowed, init, with_ids, add_grant, grant,
  set_grants, revoke_from, revoke, decide, check,
}
use multi_bot_agentic.Guards.Permission.Granted.{
  Call, grants, revokes, checks, call, calls, has_grant, tools_of, recorded, lookup-set_grants,
  set_grants-mode, checked, check-same, tools-has_grant,
}

-- What the calls keep: the mode, and that no set is empty.
unfoldable pub Kept : Bool → ToolPermissionAllowlist → Type 0
Kept deny g = (g.default_deny ≡ deny) × ((bot : String) → (lookup bot g.grants ≡ some []) → ⊥)

full :
    (here : Bool) (t : String) (tools : List String) (o : Option (List String))
    → ((o ≡ some []) → ⊥)
    → ((if here then some (add_member t tools) else o) ≡ some [])
    → ⊥
unfolding add_member
full false t tools o k h = k h
full true t [] o k h = cc h
full true t (x ∷ xs) o k h = elim (Bool-cases (contains t (x ∷ xs))) [
  | inl there ↦ cc (rw there at h)
  | inr new ↦ cc (rw new at h)
]

tidy :
    (here : Bool) (l : List String) (o : Option (List String))
    → ((o ≡ some []) → ⊥)
    → ((if here then recorded l else o) ≡ some [])
    → ⊥
tidy false l o k h = k h
tidy true [] o k h = cc h
tidy true (x ∷ xs) o k h = cc h

set_grants-Kept :
    (deny : Bool) (g : ToolPermissionAllowlist) (b : String) (l : List String)
    → Kept deny g
    → Kept deny (set_grants g b l)
unfolding Kept
set_grants-Kept deny g b l k = (
  set_grants-mode g b l ∙ k.0,
  λ bot h.
      tidy (b == bot) l (lookup bot g.grants) (k.1 bot) (sym (lookup-set_grants g b bot l) ∙ h),
)

revoke_from-Kept :
    (deny : Bool) (g : ToolPermissionAllowlist) (b t : String)
    → Kept deny g
    → Kept deny (revoke_from g b t).1
unfolding revoke_from
revoke_from-Kept deny g b t k = elim (Option-cases (lookup b g.grants)) [
  | inl none_yet ↦ rw (none_yet, revoke_from) k
  | inr (tools, found) ↦ elim (Bool-cases (contains t tools)) [
    | inl there ↦
        rw (found, there, revoke_from) (set_grants-Kept deny g b (remove_member t tools) k)
    | inr absent ↦ rw (found, absent, revoke_from) k
  ]
]

grant-Kept :
    (r s : Result String) (deny : Bool) (g : ToolPermissionAllowlist)
    → Kept deny g
    → Kept deny (with_ids g r s λ b t. (ok tt, add_grant g b t)).1
unfolding with_ids with_id Kept add_grant
grant-Kept (err e) s deny g k = k
grant-Kept (ok b) (err e) deny g k = k
grant-Kept (ok b) (ok t) deny g k = (
  k.0,
  λ bot h.
      full (b == bot) t (tools_of g b) (lookup bot g.grants) (k.1 bot)
        (sym (lookup-insert b bot (add_member t (tools_of g b)) g.grants) ∙ h),
)

revoke-Kept :
    (r s : Result String) (deny : Bool) (g : ToolPermissionAllowlist)
    → Kept deny g
    → Kept deny (with_ids g r s (revoke_from g)).1
unfolding with_ids with_id
revoke-Kept (err e) s deny g k = k
revoke-Kept (ok b) (err e) deny g k = k
revoke-Kept (ok b) (ok t) deny g k = revoke_from-Kept deny g b t k

pub calls-Kept : (cs : List Call) (deny : Bool) → Kept deny (calls cs (init deny))
unfolding calls call grant revoke check init Kept lookup
calls-Kept [] deny = (refl, λ bot h. cc h)
calls-Kept (grants b t ∷ before) deny =
    grant-Kept (require_id b "bot_id") (require_id t "tool_name") deny (calls before (init deny))
      (calls-Kept before deny)
calls-Kept (revokes b t ∷ before) deny =
    revoke-Kept (require_id b "bot_id") (require_id t "tool_name") deny (calls before (init deny))
      (calls-Kept before deny)
calls-Kept (checks b t ∷ before) deny =
    subst (λ g. Kept deny g)
      (sym (
        check-same (checked (calls before (init deny))) (require_id b "bot_id")
          (require_id t "tool_name") (calls before (init deny))))
      (calls-Kept before deny)

-- The members of a set that may be missing.
abbrev members : Option (List String) → List String
members none = []
members (some tools) = tools

tools_of-members :
    (g : ToolPermissionAllowlist) (bot : String) → tools_of g bot ≡ members (lookup bot g.grants)
tools_of-members g bot = ground arith

first : (y : String) (ys : List String) → contains y (y ∷ ys) ≡ true
first y ys = ground (arith, eq_refl y)

decide-allowed :
    (deny : Bool) (bot tool : String) (o : Option (List String)) (has : String → Bool)
    → ((o ≡ some []) → ⊥)
    → ((x : String) → contains x (members o) ≡ has x)
    → ((decide deny bot tool o).decision ≡ allowed)
      ↔ ((has tool ≡ true) ⊎ ((deny ≡ false) × ((x : String) → has x ≡ false)))
unfolding decide
decide-allowed true bot tool none has ne same =
    ((λ h. cc h), λ s. elim s [ inl h ↦ cc (same tool, h) | inr (d, _) ↦ cc d ])
decide-allowed false bot tool none has ne same = ((λ _. inr (refl, λ x. sym (same x))), λ _. refl)
decide-allowed deny bot tool (some []) has ne same = absurd (ne refl)
decide-allowed deny bot tool (some (y ∷ ys)) has ne same =
    elim (Bool-cases (contains tool (y ∷ ys))) [
      | inl there ↦ rw there ((λ _. inl (sym (same tool) ∙ there)), λ _. refl)
      | inr absent ↦ rw absent (
        (λ h. cc h),
        λ s. elim s [
          | inl h ↦ cc (same tool, absent, h)
          | inr (_, nothing) ↦ cc (same y, nothing y, first y ys)
        ],
      )
    ]

returned_by : (a b : ToolPermissionResult) → ok a ≡ ok b → a ≡ b
returned_by a b h = cc h

-- After any calls on a new allowlist, calls that raise included, a `check` that returns allows the
-- tool to the bot exactly when the tool has been granted to it and not revoked since, or when the
-- default is not to deny and no tool that has been granted to the bot has been left unrevoked.
pub check-allowed :
    (cs : List Call) (deny : Bool) (bot_id tool_name bot tool : String) (r : ToolPermissionResult)
    → require_id bot_id "bot_id" ≡ ok bot
    → require_id tool_name "tool_name" ≡ ok tool
    → (check (calls cs (init deny)) bot_id tool_name).0 ≡ ok r
    → (r.decision ≡ allowed) ↔ (
        (has_grant bot tool cs ≡ true)
        ⊎ ((deny ≡ false) × ((x : String) → has_grant bot x cs ≡ false)))
unfolding check with_ids with_id Kept
check-allowed cs deny bot_id tool_name bot tool r named called returned =
    let g = calls cs (init deny) in
    let kept = calls-Kept cs deny in
    subst
      (λ x. (x.decision ≡ allowed) ↔ (
        (has_grant bot tool cs ≡ true)
        ⊎ ((deny ≡ false) × ((x : String) → has_grant bot x cs ≡ false))))
      (returned_by (decide g.default_deny bot tool (lookup bot g.grants)) r
        (rw (named, called) at returned))
      (rw kept.0 (
        decide-allowed deny bot tool (lookup bot g.grants) (λ x. has_grant bot x cs) (kept.1 bot)
          (λ x. ap (contains x) (sym (tools_of-members g bot)) ∙ tools-has_grant cs deny bot x)))
