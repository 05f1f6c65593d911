-- ===== src/Verifier/Tests/Risks.antt =====
-- Two previews that are approved and spent, and the theorems at them.
use dev_skills.Base.{
  ℕ, ◌<◌, true, Option, none, some, String, List, [], ◌∷◌, lookup, insert, mem, select, ◌≡◌, ◌≢◌,
  refl,
}
use dev_skills.Verifier.Errors.{ok}
use dev_skills.Verifier.Risk.{
  explicit_nth, coordinate_action, locator_risks, authorization_risks, Binding, is_binding, Preview,
  Approval, RiskReceipt, Marker, Store, preview, check_approval, settle_approval, issue, approve,
  check_risk_receipt, spend, consume, stripped,
}
use dev_skills.Verifier.Risk.Linked.{IsLinked}
use dev_skills.Verifier.Risk.Calls.{Steps, previewing, approving, done, then_step, Steps-IsLinked}
use dev_skills.Verifier.Risk.Once.{consume_approved, preview_authorizes_once}

abbrev uuid : String → Option String
uuid s = some s

abbrev fingerprint_of : Binding → ℕ → ℕ → String → String
fingerprint_of binding created expire id = id

abbrev note_digest_of : List ℕ → String
note_digest_of note = "note"

risky_click :
    authorization_risks "click" (some (record { strategy = "css"; nth = some 2 }))
    ≡ explicit_nth 2 ∷ []
unfolding authorization_risks locator_risks mem select
risky_click = refl

abbrev binding : Binding
binding = record {
  run_id = "run-1";
  action_digest = "digest";
  target_identity = "target";
  risks = coordinate_action ∷ [];
}

abbrev empty : Store
empty = record { previews = []; approvals = []; receipts = []; consumed = [] }

empty-IsLinked : IsLinked uuid empty
unfolding lookup
empty-IsLinked = record {
  approved = λ id approval h. absurd (cc);
  issued = λ id receipt h. absurd (cc);
}

abbrev previewed : Store → String → Store
previewed store id = (preview uuid fingerprint_of note_digest_of store binding id 0).0

abbrev approved : Store → String → String → Store
approved store id receipt_id =
    (approve uuid fingerprint_of note_digest_of store id id " fine " receipt_id 5).0

approved-Steps :
    (store : Store) (id receipt_id : String)
    → lookup id store.previews ≡ none
    → Steps uuid fingerprint_of note_digest_of store (approved (previewed store id) id receipt_id)
approved-Steps store id receipt_id free =
    then_step store (previewed store id) _ (previewing store binding id 0 free) (
      then_step (previewed store id) _ _
        (approving (previewed store id) id id " fine " receipt_id 5 refl) (done _))

abbrev first_store : Store
first_store = approved (previewed empty "p1") "p1" "r1"

first_store-IsLinked : IsLinked uuid first_store
unfolding lookup
first_store-IsLinked =
    Steps-IsLinked uuid fingerprint_of note_digest_of empty first_store
      (approved-Steps empty "p1" "r1" refl) empty-IsLinked

abbrev spent_store : Store
spent_store = (consume uuid fingerprint_of note_digest_of first_store (some "r1") binding 10).0

first_spent :
    consume uuid fingerprint_of note_digest_of first_store (some "r1") binding 10
    ≡ (spent_store, ok (some "r1"))
unfolding preview approve consume lookup insert check_approval settle_approval issue
    check_risk_receipt spend stripped
first_spent = refl

consume_approved_example :
    (spent : String) × (receipt : RiskReceipt) × (approval : Approval) × (found : Preview) × (◌≡◌
      {A = Option String}
      (some "r1")
      (some spent))
    × (lookup receipt.preview_id first_store.previews ≡ some found)
    × (lookup receipt.preview_id first_store.approvals ≡ some approval)
    × (approval.receipt_id ≡ spent)
    × (is_binding found.binding binding ≡ true)
    × (10 < found.expire_at)
    × (lookup spent first_store.consumed ≡ none)
    × ((marker : Marker) × (lookup spent spent_store.consumed ≡ some marker))
consume_approved_example =
    consume_approved uuid fingerprint_of note_digest_of first_store spent_store (some "r1") binding
      10 (some "r1") first_store-IsLinked refl first_spent

abbrev second_store : Store
second_store = approved (previewed spent_store "p2") "p2" "r2"

abbrev last_store : Store
last_store = (consume uuid fingerprint_of note_digest_of second_store (some "r2") binding 20).0

second_spent :
    consume uuid fingerprint_of note_digest_of second_store (some "r2") binding 20
    ≡ (last_store, ok (some "r2"))
unfolding preview approve consume lookup insert check_approval settle_approval issue
    check_risk_receipt spend stripped
second_spent = refl

preview_authorizes_once_example :
    (first second : RiskReceipt) × (lookup "r1" first_store.receipts ≡ some first)
    × (lookup "r2" second_store.receipts ≡ some second)
    × (first.preview_id ≢ second.preview_id)
unfolding preview approve consume lookup insert check_approval settle_approval issue
    check_risk_receipt spend stripped
preview_authorizes_once_example =
    preview_authorizes_once uuid fingerprint_of note_digest_of first_store spent_store second_store
      last_store (some "r1") (some "r2") binding binding 10 20 "r1" "r2" first_store-IsLinked
      first_spent (approved-Steps spent_store "p2" "r2" refl) second_spent
