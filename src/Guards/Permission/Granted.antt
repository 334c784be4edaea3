-- ===== src/Guards/Permission/Granted.antt =====
-- tool_permission.py: the sets of the allowlist after any calls.
use multi_bot_agentic.Prelude.{
  ◌≡◌, ◌∙◌, refl, ap, String, Bool, false, ◌&&◌, ◌||◌, not, Option, none, some, List, [], ◌∷◌,
  contains, ◌==◌, eq_iff, string_eq, if◌then◌else◌, arith, Bool-cases, Option-cases, inl, inr,
}
use multi_bot_agentic.Prelude.Dict.{lookup, get_or, get_or-insert, lookup-insert, lookup-erase}
use multi_bot_agentic.Prelude.Sets.{
  add_member, remove_member, contains-add_member, contains-remove_member,
}
use multi_bot_agentic.Exn.{Result, ok, err}
use multi_bot_agentic.Guards.{require_id, with_id}
use multi_bot_agentic.Guards.Permission.{
  ToolPermissionAllowlist, ToolPermissionResult, init, with_ids, add_grant, grant, set_grants,
  revoke_from, revoke, decide, check,
}

pub data Call : Type 0 where
  grants revokes checks : String → String → Call

-- A call that raises is caught.
unfoldable pub call : Call → ToolPermissionAllowlist → ToolPermissionAllowlist
unfolding grant revoke check
call (grants bot_id tool_name) g = (grant g bot_id tool_name).1
call (revokes bot_id tool_name) g = (revoke g bot_id tool_name).1
call (checks bot_id tool_name) g = (check g bot_id tool_name).1

-- The calls, the last one first.
unfoldable pub calls : List Call → ToolPermissionAllowlist → ToolPermissionAllowlist
unfolding call
calls [] g = g
calls (c ∷ before) g = call c (calls before g)

-- The two texts name the bot and the tool, once they are stripped and not empty.
abbrev pub names : Result String → Result String → String → String → Bool
names (ok b) (ok t) bot tool = b == bot && t == tool
names _ _ bot tool = false

-- The tool was granted to the bot, and has not been revoked since.
unfoldable pub has_grant : String → String → List Call → Bool
has_grant bot tool [] = false
has_grant bot tool (grants b t ∷ before) =
    names (require_id b "bot_id") (require_id t "tool_name") bot tool || has_grant bot tool before
has_grant bot tool (revokes b t ∷ before) =
    not (names (require_id b "bot_id") (require_id t "tool_name") bot tool)
    && has_grant bot tool before
has_grant bot tool (checks b t ∷ before) = has_grant bot tool before

abbrev pub tools_of : ToolPermissionAllowlist → String → List String
tools_of g bot = get_or bot [] g.grants

-- A set that is recorded, if it is not empty.
abbrev pub recorded : List String → Option (List String)
recorded [] = none
recorded (x ∷ xs) = some (x ∷ xs)

pub lookup-set_grants :
    (g : ToolPermissionAllowlist) (b bot : String) (l : List String)
    → lookup bot (set_grants g b l).grants ≡ (if b == bot then recorded l else lookup bot g.grants)
unfolding set_grants
lookup-set_grants g b bot [] = lookup-erase b bot g.grants
lookup-set_grants g b bot (x ∷ xs) = lookup-insert b bot (x ∷ xs) g.grants

pub set_grants-mode :
    (g : ToolPermissionAllowlist) (b : String) (l : List String)
    → (set_grants g b l).default_deny ≡ g.default_deny
unfolding set_grants
set_grants-mode g b [] = refl
set_grants-mode g b (x ∷ xs) = refl

tools-set_grants :
    (g : ToolPermissionAllowlist) (b bot : String) (l : List String)
    → tools_of (set_grants g b l) bot ≡ (if b == bot then l else tools_of g bot)
unfolding set_grants
tools-set_grants g b bot [] = ground (arith, lookup-erase b bot g.grants)
tools-set_grants g b bot (x ∷ xs) = get_or-insert b bot (x ∷ xs) [] g.grants

granted :
    (g : ToolPermissionAllowlist) (b t bot tool : String)
    → contains tool (tools_of (add_grant g b t) bot)
      ≡ ((b == bot && t == tool) || contains tool (tools_of g bot))
unfolding add_grant
granted g b t bot tool =
    ap (contains tool) (get_or-insert b bot (add_member t (tools_of g b)) [] g.grants)
    ∙ elim (Bool-cases (b == bot)) [
      | inl same ↦ rw same (
          contains-add_member tool t (tools_of g b)
          ∙ ap (λ y. t == tool || contains tool (tools_of g y)) ((eq_iff b bot).0 same))
      | inr other ↦ rw other refl
    ]

revoked :
    (g : ToolPermissionAllowlist) (b t bot tool : String)
    → contains tool (tools_of (revoke_from g b t).1 bot)
      ≡ (not (b == bot && t == tool) && contains tool (tools_of g bot))
unfolding revoke_from
revoked g b t bot tool = elim (Option-cases (lookup b g.grants)) [
  | inl none_yet ↦ rw (none_yet, revoke_from) (ground (arith, none_yet, eq_iff b bot))
  | inr (tools, found) ↦ elim (Bool-cases (contains t tools)) [
    | inl there ↦
        rw (found, there, revoke_from)
          (ap (contains tool) (tools-set_grants g b bot (remove_member t tools))
            ∙ ground (arith, found, eq_iff b bot, contains-remove_member tool t tools))
    | inr absent ↦
        rw (found, absent, revoke_from) (ground (arith, found, absent, eq_iff b bot, eq_iff t tool))
  ]
]

-- The calls, with the checks of their identifiers.
grant-granted :
    (r s : Result String) (g : ToolPermissionAllowlist) (bot tool : String)
    → contains tool (tools_of (with_ids g r s λ b t. (ok tt, add_grant g b t)).1 bot)
      ≡ (names r s bot tool || contains tool (tools_of g bot))
unfolding with_ids with_id
grant-granted (err e) s g bot tool = refl
grant-granted (ok b) (err e) g bot tool = refl
grant-granted (ok b) (ok t) g bot tool = granted g b t bot tool

pub check-same :
    (f : String → String → Result ToolPermissionResult) (r s : Result String)
    (g : ToolPermissionAllowlist)
    → (with_ids g r s λ b t. (f b t, g)).1 ≡ g
unfolding with_ids with_id
check-same f (err e) s g = refl
check-same f (ok b) (err e) g = refl
check-same f (ok b) (ok t) g = refl

revoke-revoked :
    (r s : Result String) (g : ToolPermissionAllowlist) (bot tool : String)
    → contains tool (tools_of (with_ids g r s (revoke_from g)).1 bot)
      ≡ (not (names r s bot tool) && contains tool (tools_of g bot))
unfolding with_ids with_id
revoke-revoked (err e) s g bot tool = refl
revoke-revoked (ok b) (err e) g bot tool = refl
revoke-revoked (ok b) (ok t) g bot tool = revoked g b t bot tool

-- The result of a check of identifiers that are given.
abbrev pub checked : ToolPermissionAllowlist → String → String → Result ToolPermissionResult
unfolding decide
checked g bid tool = ok (decide g.default_deny bid tool (lookup bid g.grants))

-- A bot's set holds what has been granted.
pub tools-has_grant :
    (cs : List Call) (deny : Bool) (bot tool : String)
    → contains tool (tools_of (calls cs (init deny)) bot) ≡ has_grant bot tool cs
unfolding calls call has_grant grant revoke check init lookup
tools-has_grant [] deny bot tool = refl
tools-has_grant (grants b t ∷ before) deny bot tool =
    grant-granted (require_id b "bot_id") (require_id t "tool_name") (calls before (init deny)) bot
      tool
    ∙ ap (λ y. names (require_id b "bot_id") (require_id t "tool_name") bot tool || y)
        (tools-has_grant before deny bot tool)
tools-has_grant (revokes b t ∷ before) deny bot tool =
    revoke-revoked (require_id b "bot_id") (require_id t "tool_name") (calls before (init deny)) bot
      tool
    ∙ ap (λ y. not (names (require_id b "bot_id") (require_id t "tool_name") bot tool) && y)
        (tools-has_grant before deny bot tool)
tools-has_grant (checks b t ∷ before) deny bot tool =
    ap (λ g. contains tool (tools_of g bot))
      (check-same (checked (calls before (init deny))) (require_id b "bot_id")
        (require_id t "tool_name") (calls before (init deny)))
    ∙ tools-has_grant before deny bot tool
