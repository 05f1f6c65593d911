-- ===== src/Executor/Ledger/Standing/Payloads.antt =====
-- What the payload of a recorded validation or review says of the record that the checks make of it.
use dev_skills.Base.{
  as_nat, ap, ◌∙◌, ℕ, Option, some, String, ◌≡◌, subst, arith, Fields, obj, get, as_str, is_str,
}
use dev_skills.Executor.Errors.{
  Code, ok, >>=-eq-ok, require-eq-ok, ok-injective, require_some, text_at, hashed,
  run_state_validation_payload_invalid, run_state_validation_provenance_invalid,
  run_state_validation_attempt_mismatch, run_state_validation_target_invalid,
  run_state_validation_exit_invalid,
}
use dev_skills.Executor.Validation
use dev_skills.Executor.Validation.{
  Outcome, outcome_of, claim_source_of, is_closed, validation_record_fields, attempt_matches,
  digest_of, exit_code_of, check_provenance, ValidationRecord, validate_validation_record,
}
use dev_skills.Executor.Review
use dev_skills.Executor.Review.{
  ReviewRecord, Receipt, Verdict, check_verdict, check_receipt, validate_review_record,
}
use dev_skills.Executor.Review.Scopes.{receipt_of, record_parts}

name_of_text :
    (name : String) (fs : Fields) (code : Code) (s : String)
    → require_some (text_at name fs) code ≡ ok s
    → as_str (get name fs) ≡ some s
name_of_text name fs code s h = ground arith

result_of_text :
    (fs : Fields) (code : Code) (text : Option String) (result : Outcome)
    → hashed (get "result" fs) ≡ ok text
    → require_some (outcome_of text) code ≡ ok result
    → is_str (get "result" fs) "passed" ≡ Validation.is_passed result
result_of_text fs code text result h g = ground arith

pub validation_payload :
    (payload : Fields) (attempt : Option ℕ) (v : ValidationRecord)
    → validate_validation_record (obj payload) attempt ≡ ok v
    → (as_str (get "validation_id" payload) ≡ some v.validation_id)
      × (is_str (get "result" payload) "passed" ≡ Validation.is_passed v.result)
unfolding validate_validation_record
validation_payload payload attempt v h =
    let invalid = run_state_validation_payload_invalid in
    let provenance = run_state_validation_provenance_invalid in
    let (_, h0) = require-eq-ok (is_closed validation_record_fields payload) invalid _ h in
    let (id, named, h1) = >>=-eq-ok (require_some (text_at "validation_id" payload) invalid) _ h0 in
    let (_, _, h2) = >>=-eq-ok (require_some (text_at "command" payload) invalid) _ h1 in
    let (_, _, h3) = >>=-eq-ok (require_some (text_at "summary" payload) invalid) _ h2 in
    let (_, _, h4) = >>=-eq-ok (require_some (text_at "claim_boundary" payload) invalid) _ h3 in
    let (text, said, h5) = >>=-eq-ok (hashed (get "result" payload)) _ h4 in
    let (result, read, h6) = >>=-eq-ok (require_some (outcome_of text) provenance) _ h5 in
    let (claim, _, h7) = >>=-eq-ok (hashed (get "claim_source" payload)) _ h6 in
    let (source, _, h8) = >>=-eq-ok (require_some (claim_source_of claim) provenance) _ h7 in
    let (_, _, h9) =
      >>=-eq-ok
        (require_some (attempt_matches (as_nat (get "stage_attempt" payload)) attempt)
          run_state_validation_attempt_mismatch)
        _ h8 in
    let (_, _, h10) =
      >>=-eq-ok
        (require_some (digest_of (as_str (get "target_digest" payload)))
          run_state_validation_target_invalid)
        _ h9 in
    let (code, _, h11) =
      >>=-eq-ok
        (require_some (exit_code_of (get "exit_code" payload)) run_state_validation_exit_invalid) _
        h10 in
    let (_, _, h12) = >>=-eq-ok (check_provenance result source code) _ h11 in
    let made = ok-injective h12 in
    (
      name_of_text "validation_id" payload invalid id named
          ∙ ap (λ (x : ValidationRecord). some x.validation_id) made,
      result_of_text payload provenance text result said read
          ∙ ap (λ (x : ValidationRecord). Validation.is_passed x.result) made,
    )

check_verdict-is_passed :
    (fs : Fields) (v : Verdict)
    → check_verdict fs ≡ ok v
    → is_str (get "verdict" fs) "passed" ≡ Review.is_passed v
unfolding check_verdict
check_verdict-is_passed fs v h = ground arith

check_receipt_verdict :
    (fs : Fields) (r : Receipt) → check_receipt fs ≡ ok r → check_verdict fs ≡ ok r.verdict
unfolding check_receipt
check_receipt_verdict fs r h = ground arith

kept_payload :
    (payload : Fields) (stage_id : Option String) (attempt : Option ℕ) (v : ReviewRecord)
    → validate_review_record (obj payload) stage_id attempt ≡ ok v
    → v.payload ≡ payload
unfolding validate_review_record
kept_payload payload stage_id attempt v h = ground arith

pub review_payload :
    (payload : Fields) (stage_id : Option String) (attempt : Option ℕ) (v : ReviewRecord)
    → validate_review_record (obj payload) stage_id attempt ≡ ok v
    → is_str (get "verdict" payload) "passed" ≡ Review.is_passed v.verdict
review_payload payload stage_id attempt v h =
    let (_, checked) = record_parts (obj payload) stage_id attempt v h in
    subst (λ fs. is_str (get "verdict" fs) "passed" ≡ Review.is_passed v.verdict)
      (kept_payload payload stage_id attempt v h)
      (check_verdict-is_passed v.payload v.verdict
        (check_receipt_verdict v.payload (receipt_of v) checked))
