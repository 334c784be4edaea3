-- ===== src/Guards/Approval/Files.antt =====
-- approval.py: the files of a directory that only gates write, and what is read back from them.
use multi_bot_agentic.Prelude.{
  String, ◌≡◌, ◌≢◌, refl, sym, ap, ◌∙◌, subst, none, some, ◌==◌, eq_iff, eq_refl, string_eq, arith,
  Bool-cases, Option-cases, inl, inr, ◌⊎◌,
}
use multi_bot_agentic.Prelude.Text.{strip}
use multi_bot_agentic.Prelude.Dict.{lookup, insert, lookup-insert}
use multi_bot_agentic.Exn.{Exn, Result, Result-cases, ok, err, ◌>>◌}
use multi_bot_agentic.Json.{Conversions, to_str, to_fields, fields_of}
use multi_bot_agentic.Checkpoint.{at_key}
use multi_bot_agentic.Guards.Approval.{
  pending, approved, rejected, ApprovalRequest, Contents, document, HitlApprovalGate, path_for,
  request_json, write, decision_of, request_of, parsed, read,
}

module _ (py : Conversions) where
  -- What is written is read back.
  pub parsed-request_json : (r : ApprovalRequest) → parsed py (document (request_json r)) ≡ ok r
  unfolding parsed request_of request_json to_fields fields_of at_key lookup to_str decision_of
  parsed-request_json r =
      elim r.status
        as (λ d.
          parsed py (document (request_json (record r { status = d })))
          ≡ ok (record r { status = d })) [ pending ↦ refl | approved ↦ refl | rejected ↦ refl ]

  -- The file of this stem was written by a gate, for the request that it is named after.
  abbrev pub Says : String → Contents → Type 0
  Says stem c =
      (r : ApprovalRequest) × (c ≡ document (request_json r)) × (strip r.request_id ≡ stem)

  -- Every file of the directory is one that a gate has written.
  pub record IsNamed (g : HitlApprovalGate) : Type 0 where
    pub named : (stem : String) (c : Contents) → lookup stem g.files ≡ some c → Says stem c

  path_for-strip : (id stem : String) → path_for id ≡ ok stem → stem ≡ strip id
  unfolding path_for
  path_for-strip id stem h = ground arith

  path_for_cases :
      (id : String) → ((e : Exn) × (path_for id ≡ err e)) ⊎ (path_for id ≡ ok (strip id))
  path_for_cases id = elim (Result-cases (path_for id)) [
    | inl e ↦ inl e
    | inr (stem, e) ↦ inr (subst (λ s. path_for id ≡ ok s) (path_for-strip id stem e) e)
  ]

  -- A write changes the file of the request that is written, and no other.
  write_cases :
      (r : ApprovalRequest) (g : HitlApprovalGate)
      → (((e : Exn) × (write r g ≡ (err e, g)))
          ⊎ ((path_for r.request_id ≡ ok (strip r.request_id))
              × (write r g ≡ (
                ok tt,
                record g {
                  files = insert (strip r.request_id) (document (request_json r)) g.files;
                },
              ))))
  unfolding write
  write_cases r g = elim (path_for_cases r.request_id) [
    | inl (e, h) ↦ inl (e, rw (h, write))
    | inr h ↦ inr (h, rw (h, write))
  ]

  pub write-lookup :
      (r : ApprovalRequest) (g : HitlApprovalGate) (key : String)
      → strip r.request_id ≢ key
      → lookup key (write r g).1.files ≡ lookup key g.files
  write-lookup r g key h = elim (write_cases r g) [
    | inl (e, w) ↦ rw w
    | inr (_, w) ↦ rw (w, lookup-insert) (ground (arith, eq_iff (strip r.request_id) key))
  ]

  pub write-IsNamed :
      (r : ApprovalRequest) (g : HitlApprovalGate) → IsNamed g → IsNamed (write r g).1
  write-IsNamed r g n = elim (write_cases r g) [
    | inl (e, w) ↦ rw w n
    | inr (_, w) ↦ rw w (record { named = inserted })
  ]
    where
      inserted :
          (stem : String) (c : Contents)
          → lookup stem (insert (strip r.request_id) (document (request_json r)) g.files) ≡ some c
          → Says stem c
      inserted stem c h = elim (Bool-cases (strip r.request_id == stem)) [
        | inl same ↦ (
          r,
          ground (
            arith,
            h,
            lookup-insert (strip r.request_id) stem (document (request_json r)) g.files,
            same,
          ),
          (eq_iff (strip r.request_id) stem).0 same,
        )
        | inr other ↦ n.named stem c (
            ground (
              arith,
              h,
              lookup-insert (strip r.request_id) stem (document (request_json r)) g.files,
              other,
            ))
      ]

  read_bad :
      (g : HitlApprovalGate) (id : String) (e : Exn) → path_for id ≡ err e → read py g id ≡ err e
  unfolding read
  read_bad g id e p = rw (p, read)

  read_missing :
      (g : HitlApprovalGate) (id : String) (r : ApprovalRequest)
      → path_for id ≡ ok (strip id)
      → lookup (strip id) g.files ≡ none
      → read py g id ≢ ok r
  unfolding read
  read_missing g id r p m h = ground (arith, p, m, h)

  pub read_file :
      (g : HitlApprovalGate) (id : String) (c : Contents)
      → path_for id ≡ ok (strip id)
      → lookup (strip id) g.files ≡ some c
      → read py g id ≡ parsed py c
  unfolding read
  read_file g id c p f = ground (arith, p, f)

  -- A request that is read stands in the file of its stem.
  pub read-found :
      (g : HitlApprovalGate) (id : String) (r : ApprovalRequest)
      → read py g id ≡ ok r
      → (c : Contents) × (path_for id ≡ ok (strip id))
        × (lookup (strip id) g.files ≡ some c)
        × (parsed py c ≡ ok r)
  read-found g id r h = elim (path_for_cases id) [
    | inl (e, p) ↦ cc (h, read_bad g id e p)
    | inr p ↦ elim (Option-cases (lookup (strip id) g.files)) [
      | inl m ↦ absurd (read_missing g id r p m h)
      | inr (c, f) ↦ (c, p, f, sym (read_file g id c p f) ∙ h)
    ]
  ]

  -- In a directory of a gate, that file was written for this very request.
  pub read-named :
      (g : HitlApprovalGate) (id : String) (r : ApprovalRequest)
      → IsNamed g
      → read py g id ≡ ok r
      → (path_for id ≡ ok (strip id))
        × (lookup (strip id) g.files ≡ some (document (request_json r)))
        × (strip r.request_id ≡ strip id)
  read-named g id r n h =
      let (c, p, f, q) = read-found g id r h in
      let (s, written, stem) = n.named (strip id) c f in
      let same : s ≡ r = cc (q, written, parsed-request_json s) in
      (p, cc (f, written, same), cc (stem, same))

  -- What a write that raised nothing has left in the request's file.
  pub written-read :
      (r : ApprovalRequest) (g : HitlApprovalGate) (id : String) (q : ApprovalRequest)
      → path_for id ≡ ok (strip id)
      → strip r.request_id ≡ strip id
      → ((write r g).0 >> ok r) ≡ ok q
      → (q ≡ r) × (read py (write r g).1 id ≡ ok r)
  written-read r g id q p same h = elim (write_cases r g) [
    | inl (e, w) ↦ cc (h, ap (λ (x : Result (Unit {0}) × HitlApprovalGate). x.0 >> ok r) w)
    | inr (_, w) ↦ (
      cc (h, ap (λ (x : Result (Unit {0}) × HitlApprovalGate). x.0 >> ok r) w),
      read_file (write r g).1 id (document (request_json r)) p (
            ap (λ (x : Result (Unit {0}) × HitlApprovalGate). lookup (strip id) x.1.files) w
            ∙ rw (same, lookup-insert, eq_refl (strip id)) refl)
          ∙ parsed-request_json r,
    )
  ]
