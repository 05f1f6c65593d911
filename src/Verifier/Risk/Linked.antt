-- ===== src/Verifier/Risk/Linked.antt =====
-- risk_authorization.py: a receipt belongs to an approval, and an approval to a preview.
use dev_skills.Base.{
  ℕ, Option, none, some, String, List, ◌==◌, ◌≡◌, refl, is_empty, Dict, lookup, insert,
  lookup-insert, eq_iff, eq_refl, eq→≡, arith, inl, inr, subst, ap, ◌∙◌, Bool-cases, Option-cases,
}
use dev_skills.Verifier.Errors.{ok, Fallible-cases}
use dev_skills.Verifier.Risk.{
  Binding, Preview, Approval, RiskReceipt, Store, new_preview, preview, check_approval,
  new_approval, settle_approval, risk_receipt_of, issue, approve,
}

-- The records belong together: an approval to its preview, and a receipt to its approval.
pub record IsLinked (uuid : String → Option String) (store : Store) : Type 0 where
  pub approved :
      (id : String) (approval : Approval)
      → lookup id store.approvals ≡ some approval
      → (found : Preview) × (lookup id store.previews ≡ some found)
        × (found.fingerprint ≡ approval.fingerprint)
        × (uuid approval.receipt_id ≡ some approval.receipt_id)
  pub issued :
      (id : String) (receipt : RiskReceipt)
      → lookup id store.receipts ≡ some receipt
      → (approval : Approval) × (found : Preview) × (lookup receipt.preview_id store.approvals
          ≡ some approval)
        × (approval.receipt_id ≡ id)
        × (lookup receipt.preview_id store.previews ≡ some found)
        × (found.binding ≡ receipt.binding)
        × (found.expire_at ≡ receipt.expire_at)

module _ (uuid : String → Option String) (fingerprint_of : Binding → ℕ → ℕ → String → String)
    (note_digest_of : List ℕ → String) where
  pub preview-IsLinked :
      (store : Store) (binding : Binding) (fresh : String) (now : ℕ)
      → IsLinked uuid store
      → lookup fresh store.previews ≡ none
      → IsLinked uuid (preview uuid fingerprint_of note_digest_of store binding fresh now).0
  unfolding preview
  preview-IsLinked store binding fresh now s free = elim (Bool-cases (is_empty binding.risks)) [
    | inl e ↦ rw (e, preview) s
    | inr e ↦
        let made : Preview = new_preview uuid fingerprint_of note_digest_of binding fresh now in
        let kept : (id : String) (found : Preview)
            → lookup id store.previews ≡ some found
            → lookup id (insert fresh made store.previews) ≡ some found =
          λ id found h.
            ground (arith, lookup-insert id fresh made store.previews, eq_iff fresh id) in
        rw (e, preview)
          (record {
            approved = λ id approval h.
                let (found, at, same, valid) = s.approved id approval h in
                (found, kept id found at, same, valid);
            issued = λ id receipt h.
                let (approval, found, a, r, at, b, x) = s.issued id receipt h in
                (approval, found, a, r, kept receipt.preview_id found at, b, x);
          })
  ]

  -- what an approval that was settled has left
  settle-IsLinked :
      (store : Store) (normalized fingerprint note_digest fresh : String) (now : ℕ)
      (found : Preview)
      → IsLinked uuid store
      → lookup normalized store.previews ≡ some found
      → found.fingerprint ≡ fingerprint
      → uuid fresh ≡ some fresh
      → IsLinked uuid
          (settle_approval uuid fingerprint_of note_digest_of store normalized (
            new_approval uuid fingerprint_of note_digest_of normalized fingerprint note_digest fresh
              now)).0
  unfolding settle_approval
  settle-IsLinked store normalized fingerprint note_digest fresh now found s at same valid =
      elim (Option-cases (lookup normalized store.approvals)) [
        | inr (held, e) ↦ rw (e, settle_approval) s
        | inl e ↦
            let made : Approval =
              new_approval uuid fingerprint_of note_digest_of normalized fingerprint note_digest
                fresh now in
            rw (e, settle_approval)
              (record {
                approved = λ id approval h. elim (Bool-cases (normalized == id)) [
                  | inr q ↦
                      s.approved id approval
                        (ground (arith, lookup-insert id normalized made store.approvals))
                  | inl q ↦
                      let is_made : made ≡ approval =
                        ground (arith, lookup-insert id normalized made store.approvals) in
                      subst
                        (λ (a : Approval).
                          (v : Preview) × (lookup id store.previews ≡ some v)
                          × (v.fingerprint ≡ a.fingerprint)
                          × (uuid a.receipt_id ≡ some a.receipt_id))
                        is_made (found, ground (arith, eq→≡ normalized id q), same, valid)
                ];
                issued = λ id receipt h.
                    let (approval, v, a, r, b, c, d) = s.issued id receipt h in
                    (
                      approval,
                      v,
                      ground (
                        arith,
                        lookup-insert receipt.preview_id normalized made store.approvals,
                        eq_iff normalized receipt.preview_id,
                      ),
                      r,
                      b,
                      c,
                      d,
                    );
              })
      ]

  -- what the settled approval is, for a receipt that is issued next
  settle_parts :
      (store : Store) (normalized fingerprint note_digest fresh receipt_id : String) (now : ℕ)
      (approval : Approval)
      → IsLinked uuid store
      → (settle_approval uuid fingerprint_of note_digest_of store normalized (
          new_approval uuid fingerprint_of note_digest_of normalized fingerprint note_digest fresh
            now)).1
        ≡ ok (approval, receipt_id)
      → (lookup normalized
            (settle_approval uuid fingerprint_of note_digest_of store normalized (
              new_approval uuid fingerprint_of note_digest_of normalized fingerprint note_digest
                fresh now)).0.approvals
          ≡ some approval)
        × (approval.receipt_id ≡ receipt_id)
  unfolding settle_approval
  settle_parts store normalized fingerprint note_digest fresh receipt_id now approval s h =
      elim (Option-cases (lookup normalized store.approvals)) [
        | inl e ↦
            let made : Approval =
              new_approval uuid fingerprint_of note_digest_of normalized fingerprint note_digest
                fresh now in
            ground
              (arith, lookup-insert normalized normalized made store.approvals, eq_refl normalized)
        | inr (held, e) ↦ ground (arith, (s.approved normalized held e).3)
      ]

  -- A receipt of a settled approval is linked, also after it is issued.
  issue-IsLinked :
      (store : Store) (found : Preview) (normalized receipt_id note_digest : String)
      (approval : Approval)
      → IsLinked uuid store
      → lookup normalized store.previews ≡ some found
      → lookup normalized store.approvals ≡ some approval
      → approval.receipt_id ≡ receipt_id
      → IsLinked uuid
          (issue uuid fingerprint_of note_digest_of store (
            risk_receipt_of uuid fingerprint_of note_digest_of found normalized approval receipt_id
              note_digest)).0
  unfolding issue
  issue-IsLinked store found normalized receipt_id note_digest approval s at held same =
      let made : RiskReceipt =
        risk_receipt_of uuid fingerprint_of note_digest_of found normalized approval receipt_id
          note_digest in
      elim (Option-cases (lookup receipt_id store.receipts)) [
        | inr (existing, e) ↦ rw (e, issue) s
        | inl e ↦
            rw (e, issue)
              (record {
                approved = s.approved;
                issued = λ id receipt h. elim (Bool-cases (receipt_id == id)) [
                  | inr q ↦
                      s.issued id receipt
                        (ground (arith, lookup-insert id receipt_id made store.receipts))
                  | inl q ↦
                      let is_made : made ≡ receipt =
                        ground (arith, lookup-insert id receipt_id made store.receipts) in
                      subst
                        (λ (r : RiskReceipt).
                          (a : Approval) × (v : Preview) × (lookup r.preview_id store.approvals
                            ≡ some a)
                          × (a.receipt_id ≡ id)
                          × (lookup r.preview_id store.previews ≡ some v)
                          × (v.binding ≡ r.binding)
                          × (v.expire_at ≡ r.expire_at))
                        is_made (approval, found, held, same ∙ eq→≡ receipt_id id q, at, refl, refl)
                ];
              })
      ]

  settle_previews :
      (store : Store) (normalized : String) (approval : Approval)
      → (settle_approval uuid fingerprint_of note_digest_of store normalized approval).0.previews
        ≡ store.previews
  unfolding settle_approval
  settle_previews store normalized approval =
      elim (Option-cases (lookup normalized store.approvals)) [
        | inl e ↦ ground arith
        | inr (held, e) ↦ ground arith
      ]

  check_parts :
      (store : Store) (preview_id fingerprint note : String) (now : ℕ) (found : Preview)
      (normalized note_digest : String)
      → check_approval uuid fingerprint_of note_digest_of store preview_id fingerprint note now
        ≡ ok (found, normalized, note_digest)
      → (lookup normalized store.previews ≡ some found) × (found.fingerprint ≡ fingerprint)
  unfolding check_approval
  check_parts store preview_id fingerprint note now found normalized note_digest h =
      ground (arith, eq_iff found.fingerprint fingerprint)

  pub approve-IsLinked :
      (store : Store) (preview_id fingerprint note fresh : String) (now : ℕ)
      → IsLinked uuid store
      → uuid fresh ≡ some fresh
      → IsLinked uuid
          (approve uuid fingerprint_of note_digest_of store preview_id fingerprint note fresh now).0
  unfolding approve
  approve-IsLinked store preview_id fingerprint note fresh now s valid =
      elim (Fallible-cases
        (check_approval uuid fingerprint_of note_digest_of store preview_id fingerprint note now)) [
          | inr (error, e) ↦ rw (e, approve) s
          | inl ((found, normalized, note_digest), e) ↦
              let (at, same) =
                check_parts store preview_id fingerprint note now found normalized note_digest e in
              let settled = settle_approval uuid fingerprint_of note_digest_of store normalized (
                new_approval uuid fingerprint_of note_digest_of normalized fingerprint note_digest
                  fresh now) in
              let linked : IsLinked uuid settled.0 =
                settle-IsLinked store normalized fingerprint note_digest fresh now found s at same
                  valid in
              elim (Fallible-cases settled.1) [
                | inr (error, f) ↦ rw (e, approve) (rw f linked)
                | inl ((approval, receipt_id), f) ↦
                    let (held, r) =
                      settle_parts store normalized fingerprint note_digest fresh receipt_id now
                        approval s f in
                    rw (e, approve)
                      (rw f (
                        issue-IsLinked settled.0 found normalized receipt_id note_digest approval
                          linked
                          (ap (λ (d : Dict Preview). lookup normalized d)
                              (settle_previews store normalized (
                                new_approval uuid fingerprint_of note_digest_of normalized
                                  fingerprint note_digest fresh now))
                            ∙ at)
                          held r))
              ]
        ]
