-- ===== src/Verifier/Risk/Once.antt =====
-- risk_authorization.py: a preview authorizes one action.
use dev_skills.Base.{
  ℕ, ◌<◌, true, false, Option, none, some, String, List, ◌≡◌, ◌≢◌, refl, sym, is_empty, Dict,
  lookup, insert, lookup-insert, eq_refl, arith, inl, inr, subst, ap, ◌∙◌, Option-cases,
}
use dev_skills.Verifier.Errors.{Result, ok, Fallible-cases}
use dev_skills.Verifier.Risk.{
  Binding, is_binding, Preview, Approval, RiskReceipt, Marker, Store, check_risk_receipt, spend,
  consume,
}
use dev_skills.Verifier.Risk.Linked.{IsLinked}
use dev_skills.Verifier.Risk.Calls.{
  Steps, consuming, done, then_step, Steps-Keeps, Steps-IsLinked, consume_cases,
}

module _ (uuid : String → Option String) (fingerprint_of : Binding → ℕ → ℕ → String → String)
    (note_digest_of : List ℕ → String) where
  check_risk_receipt_parts :
      (store : Store) (id normalized : String) (receipt : RiskReceipt) (expected : Binding)
      (now : ℕ)
      → check_risk_receipt uuid fingerprint_of note_digest_of store id expected now
        ≡ ok (normalized, receipt)
      → (lookup normalized store.receipts ≡ some receipt)
        × (is_binding receipt.binding expected ≡ true)
        × (now < receipt.expire_at)
  unfolding check_risk_receipt
  check_risk_receipt_parts store id normalized receipt expected now h = ground arith

  -- what a receipt that was spent was
  consume_parts :
      (store after : Store) (receipt_id : Option String) (expected : Binding) (now : ℕ)
      (spent : String)
      → consume uuid fingerprint_of note_digest_of store receipt_id expected now
        ≡ (after, ok (some spent))
      → (receipt : RiskReceipt) × (lookup spent store.receipts ≡ some receipt)
        × (is_binding receipt.binding expected ≡ true)
        × (now < receipt.expire_at)
        × (lookup spent store.consumed ≡ none)
        × ((marker : Marker) × (lookup spent after.consumed ≡ some marker))
  unfolding spend
  consume_parts store after receipt_id expected now spent h =
      elim (consume_cases uuid fingerprint_of note_digest_of store receipt_id expected now) [
        | inl (result, e, f) ↦ absurd (ground (arith, f spent))
        | inr (id, normalized, receipt, c, e) ↦
            let (held, bound, live) =
              check_risk_receipt_parts store id normalized receipt expected now c in
            elim (Option-cases (lookup normalized store.consumed)) [
              | inr (marker, f) ↦ absurd (ground arith)
              | inl f ↦
                  let marker : Marker = record { receipt_id = normalized; consumed_at = now } in
                  let same : normalized ≡ spent = ground arith in
                  let left : insert normalized marker store.consumed ≡ after.consumed =
                    ground arith in
                  (
                    receipt,
                    ground arith,
                    bound,
                    live,
                    ground arith,
                    (
                      marker,
                      subst (λ (d : Dict Marker). lookup spent d ≡ some marker) left
                          (ground (
                            arith,
                            lookup-insert spent normalized marker store.consumed,
                            eq_refl spent,
                          )),
                    ),
                  )
            ]
      ]

  -- an action with a risk spends a receipt
  risky_spends :
      (store after : Store) (receipt_id : Option String) (expected : Binding) (now : ℕ)
      → is_empty expected.risks ≡ false
      → ¬ (
          consume uuid fingerprint_of note_digest_of store receipt_id expected now
          ≡ (after, ok none))
  unfolding consume spend
  risky_spends store after none expected now risky h = ground arith
  risky_spends store after (some id) expected now risky h =
      elim (Fallible-cases
        (check_risk_receipt uuid fingerprint_of note_digest_of store id expected now)) [
          | inr (error, g) ↦ ground arith
          | inl ((normalized, receipt), g) ↦ ground arith
        ]

  -- With records that belong together, an action with a risk is let through only for an approved
  -- preview of its run, its digest, its target and its risks that has not expired; the receipt of
  -- the approval was not spent before, and is spent after.
  pub consume_approved :
      (store after : Store) (receipt_id : Option String) (expected : Binding) (now : ℕ)
      (result : Option String)
      → IsLinked uuid store
      → is_empty expected.risks ≡ false
      → consume uuid fingerprint_of note_digest_of store receipt_id expected now
        ≡ (after, ok result)
      → (spent : String) × (receipt : RiskReceipt) × (approval : Approval) × (found : Preview)
        × (result ≡ some spent)
        × (lookup receipt.preview_id store.previews ≡ some found)
        × (lookup receipt.preview_id store.approvals ≡ some approval)
        × (approval.receipt_id ≡ spent)
        × (is_binding found.binding expected ≡ true)
        × (now < found.expire_at)
        × (lookup spent store.consumed ≡ none)
        × ((marker : Marker) × (lookup spent after.consumed ≡ some marker))
  consume_approved store after receipt_id expected now none s risky h =
      absurd (risky_spends store after receipt_id expected now risky h)
  consume_approved store after receipt_id expected now (some spent) s risky h =
      let (receipt, held, bound, live, unspent, marked) =
        consume_parts store after receipt_id expected now spent h in
      let (approval, found, a, r, at, b, x) = s.issued spent receipt held in
      (
        spent,
        receipt,
        approval,
        found,
        refl,
        at,
        a,
        r,
        subst (λ (y : Binding). is_binding y expected ≡ true) (sym b) bound,
        subst (λ (n : ℕ). now < n) (sym x) live,
        unspent,
        marked,
      )

  -- A preview authorizes one action: with records that belong together, two receipts that are spent
  -- one after the other, whatever calls come between, come from different previews.
  pub preview_authorizes_once :
      (store middle later last : Store) (first_id second_id : Option String)
      (first_expected second_expected : Binding) (first_now second_now : ℕ)
      (first_spent second_spent : String)
      → IsLinked uuid store
      → consume uuid fingerprint_of note_digest_of store first_id first_expected first_now
        ≡ (middle, ok (some first_spent))
      → Steps uuid fingerprint_of note_digest_of middle later
      → consume uuid fingerprint_of note_digest_of later second_id second_expected second_now
        ≡ (last, ok (some second_spent))
      → (first second : RiskReceipt) × (lookup first_spent store.receipts ≡ some first)
        × (lookup second_spent later.receipts ≡ some second)
        × (first.preview_id ≢ second.preview_id)
  preview_authorizes_once store middle later last first_id second_id e1 e2 now1 now2 r1 r2 s h steps
        k =
      let (first, held, bound, live, unspent, (marker, marked)) =
        consume_parts store middle first_id e1 now1 r1 h in
      let (second, held2, bound2, live2, unspent2, marked2) =
        consume_parts later last second_id e2 now2 r2 k in
      let one : Steps uuid fingerprint_of note_digest_of store middle =
        subst
          (λ (x : Store × Result (Option String)).
            Steps uuid fingerprint_of note_digest_of store x.0)
          h (then_step store _ _ (consuming store first_id e1 now1) (done _)) in
      let kept = Steps-Keeps uuid fingerprint_of note_digest_of store middle one in
      let keeps = Steps-Keeps uuid fingerprint_of note_digest_of middle later steps in
      let linked : IsLinked uuid later =
        Steps-IsLinked uuid fingerprint_of note_digest_of middle later steps
          (Steps-IsLinked uuid fingerprint_of note_digest_of store middle one s) in
      (
        first,
        second,
        held,
        held2,
        λ same.
            let (a, v, at, r, x1, x2, x3) =
              linked.issued r1 first (keeps.receipts r1 first (kept.receipts r1 first held)) in
            let (b, w, bt, q, y1, y2, y3) = linked.issued r2 second held2 in
            let equal : a ≡ b =
              ground (arith, subst (λ (x : String). lookup x later.approvals ≡ some a) same at) in
            let ids : r1 ≡ r2 = sym r ∙ ap (λ (x : Approval). x.receipt_id) equal ∙ q in
            let spent : lookup r2 later.consumed ≡ some marker =
              subst (λ (x : String). lookup x later.consumed ≡ some marker) ids
                (keeps.consumed r1 marker marked) in
            ground arith,
      )
