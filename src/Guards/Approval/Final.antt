-- ===== src/Guards/Approval/Final.antt =====
-- approval.py: what a gate says of a request, over any calls.
use multi_bot_agentic.Prelude.{
  String, ◌≡◌, ◌≢◌, refl, sym, ap, ◌∙◌, subst, List, [], string_eq, arith, All, inl, inr,
}
use multi_bot_agentic.Exn.{Exn, Result, Result-cases, ok, err, OnOk-ok, ◌>>◌}
use multi_bot_agentic.Json.{Conversions}
use multi_bot_agentic.Guards.Approval.{
  ApprovalDecision, pending, approved, rejected, ApprovalRequest, HitlApprovalGate, init, write,
  read, settle, resolve,
}
use multi_bot_agentic.Guards.Approval.Files.{IsNamed, read-named, written-read}
use multi_bot_agentic.Guards.Approval.Steps.{
  Call, pending_or_not, calls, settle_pending, IsFresh, calls-read, calls-IsNamed, init-IsNamed,
}

module _ (py : Conversions) where
  -- In a gate over an empty directory, after any calls py: a request that reads as decided reads the
  -- same, its decision included, after any further calls py, if no identifier that they draw has this
  -- request's file.
  pub decided-read :
      (tools : List String) (start : HitlApprovalGate) (before after : List Call) (id : String)
      (r : ApprovalRequest)
      → init [] tools ≡ ok start
      → read py (calls py before start) id ≡ ok r
      → r.status ≢ pending
      → All (IsFresh py id) after
      → read py (calls py after (calls py before start)) id ≡ ok r
  decided-read tools start before after id r made h done fresh =
      calls-read py after (calls py before start) id r
        (calls-IsNamed py before start (OnOk-ok (IsNamed py) _ start (init-IsNamed py tools) made))
        fresh h done

  settle_value :
      (current : ApprovalRequest) (decision : ApprovalDecision) (g : HitlApprovalGate)
      → current.status ≡ pending
      → (settle py current decision g).0 ≡ (
          (write (record current { status = decision }) g).0
          >> ok (record current { status = decision }))
  unfolding settle
  settle_value current decision g h = ground (arith, h)

  settle_refuses :
      (current r : ApprovalRequest) (decision : ApprovalDecision) (g : HitlApprovalGate)
      → current.status ≢ pending
      → (settle py current decision g).0 ≢ ok r
  unfolding settle
  settle_refuses current r decision g h s = ground (arith, h, s)

  settle-read :
      (g : HitlApprovalGate) (id : String) (current r : ApprovalRequest)
      (decision : ApprovalDecision)
      → IsNamed py g
      → read py g id ≡ ok current
      → (settle py current decision g).0 ≡ ok r
      → (current.status ≡ pending)
        × (r ≡ record current { status = decision })
        × (read py (settle py current decision g).1 id ≡ ok r)
  settle-read g id current r decision n h s = elim (pending_or_not current.status) [
    | inr ne ↦ absurd (settle_refuses current r decision g ne s)
    | inl e ↦
        let (p, _, stem) = read-named py g id current n h in
        let (same, reads) =
          written-read py (record current { status = decision }) g id r p stem
            (sym (settle_value current decision g e) ∙ s) in
        (e, same, rw (settle_pending py current decision g e, same) reads)
  ]

  resolve-settle :
      (g : HitlApprovalGate) (id : String) (current : ApprovalRequest) (decision : ApprovalDecision)
      → decision ≢ pending
      → read py g id ≡ ok current
      → resolve py id decision g ≡ settle py current decision g
  unfolding resolve
  resolve-settle g id current pending d h = absurd (d refl)
  resolve-settle g id current approved d h = rw (h, resolve)
  resolve-settle g id current rejected d h = rw (h, resolve)

  resolve_refuses :
      (g : HitlApprovalGate) (id : String) (decision : ApprovalDecision) (e : Exn)
      (r : ApprovalRequest)
      → read py g id ≡ err e
      → (resolve py id decision g).0 ≢ ok r
  unfolding resolve
  resolve_refuses g id pending e r h s = cc s
  resolve_refuses g id approved e r h s = cc (rw (h, resolve) at s)
  resolve_refuses g id rejected e r h s = cc (rw (h, resolve) at s)

  resolve-pending :
      (g : HitlApprovalGate) (id : String) (r : ApprovalRequest)
      → (resolve py id pending g).0 ≢ ok r
  unfolding resolve
  resolve-pending g id r s = cc s

  -- In a gate over an empty directory, after any calls py: a resolution that returns a request was asked
  -- for a decision other than pending, of a request that read as pending; the request returned is that
  -- one with the decision, and it reads so afterwards.
  pub resolve-read :
      (tools : List String) (start : HitlApprovalGate) (before : List Call) (id : String)
      (decision : ApprovalDecision) (r : ApprovalRequest)
      → init [] tools ≡ ok start
      → (resolve py id decision (calls py before start)).0 ≡ ok r
      → (decision ≢ pending)
        × (r.status ≡ decision)
        × (read py (calls py before start) id ≡ ok (record r { status = pending }))
        × (read py (resolve py id decision (calls py before start)).1 id ≡ ok r)
  resolve-read tools start before id decision r made h =
      let g = calls py before start in
      let n =
        calls-IsNamed py before start (OnOk-ok (IsNamed py) _ start (init-IsNamed py tools) made) in
      elim (pending_or_not decision) [
        | inl e ↦ absurd (resolve-pending g id r (subst (λ d. (resolve py id d g).0 ≡ ok r) e h))
        | inr d ↦ elim (Result-cases (read py g id)) [
          | inl (e, found) ↦ absurd (resolve_refuses g id decision e r found h)
          | inr (current, found) ↦
              let same = resolve-settle g id current decision d found in
              let (e, q, reads) =
                settle-read g id current r decision n found
                  (subst (λ (x : Result ApprovalRequest × HitlApprovalGate). x.0 ≡ ok r) same h) in
              (
                d,
                ap (λ (x : ApprovalRequest). x.status) q,
                found ∙ ap ok (ground (arith, q, e)),
                subst (λ (x : Result ApprovalRequest × HitlApprovalGate). read py x.1 id ≡ ok r)
                    (sym same) reads,
              )
        ]
      ]
