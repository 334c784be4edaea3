-- ===== src/Guards/Approval/Steps.antt =====
-- approval.py: calls of the gate, and what each leaves of the requests.
use multi_bot_agentic.Prelude.{
  String, ◌≡◌, ◌≢◌, refl, sym, ap, ◌∙◌, subst, List, [], ◌∷◌, string_eq, arith, All, if-split, inl,
  inr, ◌⊎◌,
}
use multi_bot_agentic.Prelude.Text.{strip, is_empty}
use multi_bot_agentic.Prelude.Dict.{lookup}
use multi_bot_agentic.Exn.{Result, Result-cases, ok, OnOk}
use multi_bot_agentic.Json.{Conversions}
use multi_bot_agentic.Guards.Approval.{
  ApprovalDecision, pending, approved, rejected, ApprovalRequest, HitlApprovalGate, init, write,
  read, request, requires_approval, settle, resolve,
}
use multi_bot_agentic.Guards.Approval.Files.{
  IsNamed, parsed-request_json, write-lookup, write-IsNamed, read_file, read-found, read-named,
}

pub pending_or_not : (d : ApprovalDecision) → (d ≡ pending) ⊎ (d ≢ pending)
pending_or_not pending = inl refl
pending_or_not approved = inr (λ e. cc e)
pending_or_not rejected = inr (λ e. cc e)

-- A call of the gate. `requests` carries the identifier that `uuid4` gives it.
pub data Call : Type 0 where
  requests : String → String → String → String → Call
  resolves : String → ApprovalDecision → Call
  polls : String → Call

module _ (py : Conversions) where
  unfoldable pub call : Call → HitlApprovalGate → HitlApprovalGate
  call (requests uuid run_id tool_name payload) g = (request py uuid run_id tool_name payload g).1
  call (resolves id decision) g = (resolve py id decision g).1
  call (polls id) g = g

  unfoldable pub calls : List Call → HitlApprovalGate → HitlApprovalGate
  unfolding call
  calls [] g = g
  calls (c ∷ cs) g = calls cs (call c g)

  -- A method has changed nothing, or has written one request.
  record Changed (g : HitlApprovalGate) (P : ApprovalRequest → Type 0)
      (x : Result ApprovalRequest × HitlApprovalGate) : Type 0 where
    how : (x.1 ≡ g) ⊎ ((r : ApprovalRequest) × P r × (x.1 ≡ (write r g).1))

  request-Changed :
      (uuid run_id tool_name payload : String) (g : HitlApprovalGate)
      → Changed g (λ r. r.request_id ≡ uuid) (request py uuid run_id tool_name payload g)
  unfolding request
  request-Changed uuid run_id tool_name payload g =
      let Same = Changed g (λ r. r.request_id ≡ uuid) in
      let made : ApprovalRequest = record {
        request_id = uuid;
        run_id = strip run_id;
        tool_name = strip tool_name;
        payload = payload;
        status = pending;
      } in
      if-split Same (is_empty (strip run_id)) _ _ (λ _. record { how = inl refl })
        λ _.
          if-split Same (is_empty (strip tool_name)) _ _ (λ _. record { how = inl refl })
            λ _.
              if-split Same (requires_approval g tool_name) _ _
                (λ _. record { how = inr (made, refl, refl) }) (λ _. record { how = inl refl })

  -- What `resolve` writes stands for a pending request that it has read.
  abbrev Settles : HitlApprovalGate → String → ApprovalRequest → Type 0
  Settles g id r =
      (current : ApprovalRequest) × (read py g id ≡ ok current)
      × (current.status ≡ pending)
      × (r.request_id ≡ current.request_id)

  pub settle_pending :
      (current : ApprovalRequest) (decision : ApprovalDecision) (g : HitlApprovalGate)
      → current.status ≡ pending
      → (settle py current decision g).1 ≡ (write (record current { status = decision }) g).1
  unfolding settle
  settle_pending current decision g h = ground (arith, h)

  settle_done :
      (current : ApprovalRequest) (decision : ApprovalDecision) (g : HitlApprovalGate)
      → current.status ≢ pending
      → (settle py current decision g).1 ≡ g
  unfolding settle
  settle_done current decision g h = ground (arith, h)

  settle-Changed :
      (id : String) (current : ApprovalRequest) (decision : ApprovalDecision) (g : HitlApprovalGate)
      → read py g id ≡ ok current
      → Changed g (Settles g id) (settle py current decision g)
  settle-Changed id current decision g h = elim (pending_or_not current.status) [
    | inl e ↦ record {
      how = inr (
        record current { status = decision },
        (current, h, e, refl),
        settle_pending current decision g e,
      );
    }
    | inr ne ↦ record { how = inl (settle_done current decision g ne) }
  ]

  resolve-Changed :
      (id : String) (decision : ApprovalDecision) (g : HitlApprovalGate)
      → Changed g (Settles g id) (resolve py id decision g)
  unfolding resolve
  resolve-Changed id pending g = record { how = inl refl }
  resolve-Changed id approved g = elim (Result-cases (read py g id)) [
    | inl (e, h) ↦ rw (h, resolve) (record { how = inl refl })
    | inr (r, h) ↦ rw (h, resolve) (settle-Changed id r approved g h)
  ]
  resolve-Changed id rejected g = elim (Result-cases (read py g id)) [
    | inl (e, h) ↦ rw (h, resolve) (record { how = inl refl })
    | inr (r, h) ↦ rw (h, resolve) (settle-Changed id r rejected g h)
  ]

  Changed-IsNamed :
      (g : HitlApprovalGate) (P : ApprovalRequest → Type 0)
      (x : Result ApprovalRequest × HitlApprovalGate)
      → Changed g P x
      → IsNamed py g
      → IsNamed py x.1
  Changed-IsNamed g P x c n = elim c.how [
    | inl same ↦ subst (IsNamed py) (sym same) n
    | inr (r, _, written) ↦ subst (IsNamed py) (sym written) (write-IsNamed py r g n)
  ]

  call-IsNamed : (c : Call) (g : HitlApprovalGate) → IsNamed py g → IsNamed py (call c g)
  unfolding call
  call-IsNamed (requests uuid run_id tool_name payload) g n =
      Changed-IsNamed g _ _ (request-Changed uuid run_id tool_name payload g) n
  call-IsNamed (resolves id decision) g n = Changed-IsNamed g _ _ (resolve-Changed id decision g) n
  call-IsNamed (polls id) g n = n

  -- A request that a call makes gets another file.
  abbrev pub IsFresh : String → Call → Type 0
  IsFresh id (requests uuid _ _ _) = strip uuid ≢ strip id
  IsFresh id (resolves _ _) = Unit
  IsFresh id (polls _) = Unit

  -- The file of a request that is decided stays as it is.
  call-lookup :
      (c : Call) (g : HitlApprovalGate) (id : String) (r : ApprovalRequest)
      → IsNamed py g
      → IsFresh id c
      → read py g id ≡ ok r
      → r.status ≢ pending
      → lookup (strip id) (call c g).files ≡ lookup (strip id) g.files
  unfolding call
  call-lookup (requests uuid run_id tool_name payload) g id r n fresh h done =
      elim (request-Changed uuid run_id tool_name payload g).how [
        | inl same ↦ ap (λ (v : HitlApprovalGate). lookup (strip id) v.files) same
        | inr (made, named, written) ↦
            ap (λ (v : HitlApprovalGate). lookup (strip id) v.files) written
            ∙ write-lookup py made g (strip id) (rw named fresh)
      ]
  call-lookup (resolves other decision) g id r n fresh h done =
      elim (resolve-Changed other decision g).how [
        | inl same ↦ ap (λ (v : HitlApprovalGate). lookup (strip id) v.files) same
        | inr (made, (current, found, open_, named), written) ↦
            ap (λ (v : HitlApprovalGate). lookup (strip id) v.files) written
            ∙ write-lookup py made g (strip id) (λ e.
              let (_, there, stem) = read-named py g other current n found in
              let (_, here, _) = read-named py g id r n h in
              let same : current ≡ r = cc (
                there,
                here,
                stem,
                named,
                e,
                parsed-request_json py current,
                parsed-request_json py r,
              ) in
              done (ap (λ (q : ApprovalRequest). q.status) (sym same) ∙ open_))
      ]
  call-lookup (polls other) g id r n fresh h done = refl

  call-read :
      (c : Call) (g : HitlApprovalGate) (id : String) (r : ApprovalRequest)
      → IsNamed py g
      → IsFresh id c
      → read py g id ≡ ok r
      → r.status ≢ pending
      → read py (call c g) id ≡ ok r
  call-read c g id r n fresh h done =
      let (file, p, f, q) = read-found py g id r h in
      read_file py (call c g) id file p (call-lookup c g id r n fresh h done ∙ f) ∙ q

  pub calls-read :
      (cs : List Call) (g : HitlApprovalGate) (id : String) (r : ApprovalRequest)
      → IsNamed py g
      → All (IsFresh id) cs
      → read py g id ≡ ok r
      → r.status ≢ pending
      → read py (calls cs g) id ≡ ok r
  unfolding calls
  calls-read [] g id r n fresh h done = h
  calls-read (c ∷ cs) g id r n fresh h done =
      calls-read cs (call c g) id r (call-IsNamed c g n) fresh.1
        (call-read c g id r n fresh.0 h done) done

  pub calls-IsNamed :
      (cs : List Call) (g : HitlApprovalGate) → IsNamed py g → IsNamed py (calls cs g)
  unfolding calls
  calls-IsNamed [] g n = n
  calls-IsNamed (c ∷ cs) g n = calls-IsNamed cs (call c g) (call-IsNamed c g n)

  pub init-IsNamed : (tools : List String) → OnOk (IsNamed py) (init [] tools)
  unfolding init lookup
  init-IsNamed [] = tt
  init-IsNamed (t ∷ tools) = record { named = λ stem c h. cc h }
