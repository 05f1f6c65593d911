-- ===== src/Verifier/Risk/Calls.antt =====
-- risk_authorization.py: what the calls of the service keep, in any order.
use dev_skills.Base.{
  ℕ, Option, none, some, String, List, ◌==◌, ◌≡◌, ◌≢◌, is_empty, lookup, lookup-insert, eq_iff,
  arith, ◌⊎◌, inl, inr, Bool-cases, Option-cases,
}
use dev_skills.Verifier.Errors.{
  Result, ok, err, Fallible-cases, risk_authorization_required, risk_authorization_not_required,
}
use dev_skills.Verifier.Risk.{
  Binding, Approval, RiskReceipt, Marker, Store, preview, check_approval, new_approval,
  settle_approval, risk_receipt_of, issue, approve, check_risk_receipt, spend, consume,
}
use dev_skills.Verifier.Risk.Linked.{IsLinked, preview-IsLinked, approve-IsLinked}

module _ (uuid : String → Option String) (fingerprint_of : Binding → ℕ → ℕ → String → String)
    (note_digest_of : List ℕ → String) where
  -- a call of the service, with an unused id for a preview and a canonical one for a receipt
  pub data Step : Store → Store → Type 0 where
    previewing :
        (store : Store) (binding : Binding) (fresh : String) (now : ℕ)
        → lookup fresh store.previews ≡ none
        → Step store (preview uuid fingerprint_of note_digest_of store binding fresh now).0
    approving :
        (store : Store) (preview_id fingerprint note fresh : String) (now : ℕ)
        → uuid fresh ≡ some fresh
        → Step store
            (approve uuid fingerprint_of note_digest_of store preview_id fingerprint note fresh
              now).0
    consuming :
        (store : Store) (receipt_id : Option String) (expected : Binding) (now : ℕ)
        → Step store (consume uuid fingerprint_of note_digest_of store receipt_id expected now).0

  pub data Steps : Store → Store → Type 0 where
    done : (store : Store) → Steps store store
    then_step :
        (store middle after : Store) → Step store middle → Steps middle after → Steps store after

  -- What a call leaves as it is: every receipt and every marker that is there.
  pub record Keeps (before after : Store) : Type 0 where
    pub receipts :
        (id : String) (receipt : RiskReceipt)
        → lookup id before.receipts ≡ some receipt
        → lookup id after.receipts ≡ some receipt
    pub consumed :
        (id : String) (marker : Marker)
        → lookup id before.consumed ≡ some marker
        → lookup id after.consumed ≡ some marker

  Keeps-refl : (store : Store) → Keeps store store
  Keeps-refl store = record { receipts = λ id receipt h. h; consumed = λ id marker h. h }

  settle-Keeps :
      (store : Store) (normalized : String) (approval : Approval)
      → Keeps store (settle_approval uuid fingerprint_of note_digest_of store normalized approval).0
  unfolding settle_approval
  settle-Keeps store normalized approval = elim (Option-cases (lookup normalized store.approvals)) [
    | inr (held, e) ↦ rw (e, settle_approval) (Keeps-refl store)
    | inl e ↦
        rw (e, settle_approval)
          (record { receipts = λ id receipt h. h; consumed = λ id marker h. h })
  ]

  issue-Keeps :
      (store : Store) (made : RiskReceipt)
      → Keeps store (issue uuid fingerprint_of note_digest_of store made).0
  unfolding issue
  issue-Keeps store made = elim (Option-cases (lookup made.receipt_id store.receipts)) [
    | inr (existing, e) ↦ rw (e, issue) (Keeps-refl store)
    | inl e ↦
        rw (e, issue)
          (record {
            receipts = λ id receipt h. ground (
              arith,
              lookup-insert id made.receipt_id made store.receipts,
              eq_iff made.receipt_id id,
            );
            consumed = λ id marker h. h;
          })
  ]

  Keeps-trans : (a b c : Store) → Keeps a b → Keeps b c → Keeps a c
  Keeps-trans a b c k l = record {
    receipts = λ id receipt h. l.receipts id receipt (k.receipts id receipt h);
    consumed = λ id marker h. l.consumed id marker (k.consumed id marker h);
  }

  approve-Keeps :
      (store : Store) (preview_id fingerprint note fresh : String) (now : ℕ)
      → Keeps store
          (approve uuid fingerprint_of note_digest_of store preview_id fingerprint note fresh now).0
  unfolding approve
  approve-Keeps store preview_id fingerprint note fresh now =
      elim (Fallible-cases
        (check_approval uuid fingerprint_of note_digest_of store preview_id fingerprint note now)) [
          | inr (error, e) ↦ rw (e, approve) (Keeps-refl store)
          | inl ((found, normalized, note_digest), e) ↦
              let made : Approval =
                new_approval uuid fingerprint_of note_digest_of normalized fingerprint note_digest
                  fresh now in
              let settled =
                settle_approval uuid fingerprint_of note_digest_of store normalized made in
              elim (Fallible-cases settled.1) [
                | inr (error, f) ↦ rw (e, approve) (rw f (settle-Keeps store normalized made))
                | inl ((approval, receipt_id), f) ↦
                    rw (e, approve)
                      (rw f (
                        Keeps-trans store settled.0 _ (settle-Keeps store normalized made) (
                          issue-Keeps settled.0 (
                            risk_receipt_of uuid fingerprint_of note_digest_of found normalized
                              approval receipt_id note_digest))))
              ]
        ]

  spend-Keeps :
      (store : Store) (normalized : String) (now : ℕ)
      → Keeps store (spend uuid fingerprint_of note_digest_of store normalized now).0
  unfolding spend
  spend-Keeps store normalized now = elim (Option-cases (lookup normalized store.consumed)) [
    | inr (marker, e) ↦ rw (e, spend) (Keeps-refl store)
    | inl e ↦
        rw (e, spend)
          (record {
            receipts = λ id receipt h. h;
            consumed = λ id marker h. ground (
              arith,
              lookup-insert id normalized (record { receipt_id = normalized; consumed_at = now })
                  store.consumed,
              eq_iff normalized id,
            );
          })
  ]

  -- `consume` leaves the store, or spends one receipt
  pub consume_cases :
      (store : Store) (receipt_id : Option String) (expected : Binding) (now : ℕ)
      → ((result : Result (Option String)) × (consume uuid fingerprint_of note_digest_of store
              receipt_id expected now
            ≡ (store, result))
          × ((id : String) → result ≢ ok (some id)))
        ⊎ ((id normalized : String) × (receipt : RiskReceipt) × (check_risk_receipt uuid
                fingerprint_of note_digest_of store id expected now
              ≡ ok (normalized, receipt))
            × (consume uuid fingerprint_of note_digest_of store receipt_id expected now
                ≡ spend uuid fingerprint_of note_digest_of store normalized now))
  unfolding consume
  consume_cases store none expected now = elim (Bool-cases (is_empty expected.risks)) [
    | inl e ↦ inl (ok none, ground arith, λ id h. cc)
    | inr e ↦ inl (err risk_authorization_required, ground arith, λ id h. cc)
  ]
  consume_cases store (some id) expected now = elim (Bool-cases (is_empty expected.risks)) [
    | inl e ↦ elim (Bool-cases (id == "")) [
      | inl f ↦ inl (ok none, ground arith, λ id h. cc)
      | inr f ↦ inl (err risk_authorization_not_required, ground arith, λ id h. cc)
    ]
    | inr e ↦ elim (Bool-cases (id == "")) [
      | inl f ↦ inl (err risk_authorization_required, ground arith, λ id h. cc)
      | inr f ↦
          elim (Fallible-cases
            (check_risk_receipt uuid fingerprint_of note_digest_of store id expected now)) [
              | inr (error, g) ↦ inl (err error, ground arith, λ id h. cc)
              | inl ((normalized, receipt), g) ↦ inr (id, normalized, receipt, g, ground arith)
            ]
    ]
  ]

  Step-Keeps : (store after : Store) → Step store after → Keeps store after
  unfolding preview
  Step-Keeps store after (previewing _ binding fresh now free) =
      elim (Bool-cases (is_empty binding.risks)) [
        | inl e ↦ rw (e, preview) (Keeps-refl store)
        | inr e ↦
            rw (e, preview) (record { receipts = λ id receipt h. h; consumed = λ id marker h. h })
      ]
  Step-Keeps store after (approving _ preview_id fingerprint note fresh now valid) =
      approve-Keeps store preview_id fingerprint note fresh now
  Step-Keeps store after (consuming _ receipt_id expected now) =
      elim (consume_cases store receipt_id expected now) [
        | inl (result, e, f) ↦ rw e (Keeps-refl store)
        | inr (id, normalized, receipt, c, e) ↦ rw e (spend-Keeps store normalized now)
      ]

  pub Steps-Keeps : (store after : Store) → Steps store after → Keeps store after
  Steps-Keeps store after (done _) = Keeps-refl store
  Steps-Keeps store after (then_step _ middle _ one rest) =
      Keeps-trans store middle after (Step-Keeps store middle one) (Steps-Keeps middle after rest)

  spend-IsLinked :
      (store : Store) (normalized : String) (now : ℕ)
      → IsLinked uuid store
      → IsLinked uuid (spend uuid fingerprint_of note_digest_of store normalized now).0
  unfolding spend
  spend-IsLinked store normalized now s = elim (Option-cases (lookup normalized store.consumed)) [
    | inr (marker, e) ↦ rw (e, spend) s
    | inl e ↦ rw (e, spend) (record { approved = s.approved; issued = s.issued })
  ]

  pub Step-IsLinked :
      (store after : Store) → Step store after → IsLinked uuid store → IsLinked uuid after
  Step-IsLinked store after (previewing _ binding fresh now free) s =
      preview-IsLinked uuid fingerprint_of note_digest_of store binding fresh now s free
  Step-IsLinked store after (approving _ preview_id fingerprint note fresh now valid) s =
      approve-IsLinked uuid fingerprint_of note_digest_of store preview_id fingerprint note fresh
        now s valid
  Step-IsLinked store after (consuming _ receipt_id expected now) s =
      elim (consume_cases store receipt_id expected now) [
        | inl (result, e, f) ↦ rw e s
        | inr (id, normalized, receipt, c, e) ↦ rw e (spend-IsLinked store normalized now s)
      ]

  pub Steps-IsLinked :
      (store after : Store) → Steps store after → IsLinked uuid store → IsLinked uuid after
  Steps-IsLinked store after (done _) s = s
  Steps-IsLinked store after (then_step _ middle _ one rest) s =
      Steps-IsLinked middle after rest (Step-IsLinked store middle one s)
