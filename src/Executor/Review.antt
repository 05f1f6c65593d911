-- ===== src/Executor/Review.antt =====
-- skills/complex-coding-executor/scripts/harness_state_schema.py, the review receipts:
-- `_validate_review_scope`, `_validate_count_object` and `validate_review_record`.
pub mod Scopes
use dev_skills.Base.{
  ℕ, ◌+◌, Bool, true, false, not, ◌&&◌, ◌||◌, Option, none, some, String, List, [], ◌∷◌, ◌==◌,
  nat_eq, leb, if◌then◌else◌, subset, mem, Json, Fields, pos, end, field, field_names, get, as_obj,
  as_nat, as_str, as_bool, is_none, is_str, is_int, is_sha256, is_absolute, path_parts, has_text,
  codes, any,
}
use dev_skills.Executor.Errors.{
  Code, Result, ok, err, state_error, ◌>>=◌, ◌>>◌, require, require_some, text_at, hashed,
  run_state_review_scope_invalid, run_state_review_scope_mismatch, run_state_review_payload_invalid,
  run_state_review_profile_invalid, run_state_review_provenance_invalid,
  run_state_review_report_invalid, run_state_review_target_invalid,
  run_state_review_verdict_invalid, run_state_review_result_invalid,
  run_state_review_counts_invalid, run_state_review_gap_counts_invalid,
  run_state_review_coverage_invalid, run_state_review_lineage_invalid,
  run_state_review_strength_invalid,
}
use dev_skills.Executor.Validation.{is_closed}

abbrev pub review_record_fields : List String
review_record_fields =
    "result" ∷ "review_id" ∷ "profile" ∷ "scope" ∷ "target_digest" ∷ "context_digest" ∷ "verdict"
    ∷ "report_ref" ∷ "open_counts" ∷ "gap_counts" ∷ "coverage_summary" ∷ "lineage_summary"
    ∷ "strength_count" ∷ "summary" ∷ "reviewer_mode" ∷ "independence_claim" ∷ "dispatch_id" ∷ []

pub data Scope : Type 0 where
  stage_delta : String → ℕ → Scope
  final_integration : Scope

abbrev is_some_str : Option Json → Option String → Bool
is_some_str v none = false
is_some_str v (some s) = is_str v s

abbrev is_some_int : Option Json → Option ℕ → Bool
is_some_int v none = false
is_some_int v (some n) = is_int v (pos n)

-- The scope of the two arguments, once both are there.
abbrev stage_scope : Option String → Option ℕ → Option Scope
stage_scope (some s) (some n) = some (stage_delta s n)
stage_scope _ _ = none

abbrev absent {ℓ} : {A : Type ℓ} → Option A → Bool
absent none = true
absent (some a) = false

check_stage_scope : Fields → Option String → Option ℕ → Result Scope
check_stage_scope fs stage_id attempt = do
  require (is_closed ("kind" ∷ "stage_id" ∷ "attempt" ∷ []) fs) run_state_review_scope_invalid
  require (is_some_str (get "stage_id" fs) stage_id && is_some_int (get "attempt" fs) attempt)
      run_state_review_scope_mismatch
  require_some (stage_scope stage_id attempt) run_state_review_scope_mismatch

check_final_scope : Fields → Option String → Option ℕ → Result Scope
check_final_scope fs stage_id attempt = do
  require (is_closed ("kind" ∷ []) fs && absent stage_id && absent attempt)
      run_state_review_scope_mismatch
  ok final_integration

unfoldable pub validate_review_scope : Option Json → Option String → Option ℕ → Result Scope
unfolding check_stage_scope check_final_scope
validate_review_scope scope stage_id attempt = do
  fs ← require_some (as_obj scope) run_state_review_scope_invalid
  if is_str (get "kind" fs) "stage-delta"
      then check_stage_scope fs stage_id attempt
      else if is_str (get "kind" fs) "final-integration"
      then check_final_scope fs stage_id attempt
      else err (state_error run_state_review_scope_invalid)

-- every value is an integer, no boolean, and not negative
abbrev pub all_nat : Fields → Bool
all_nat end = true
all_nat (field k v fs) = not (absent (as_nat (some v))) && all_nat fs

-- the number under a name; the names are there once `is_closed` has passed
abbrev pub nat_at : String → Fields → ℕ
nat_at k fs = elim (as_nat (get k fs)) [ none ↦ 0 | some n ↦ n ]

abbrev pub sum_at : List String → Fields → ℕ
sum_at [] fs = 0
sum_at (k ∷ ks) fs = nat_at k fs + sum_at ks fs

unfoldable pub validate_count_object :
    Option Json → List String → List String → Code → Result Fields
validate_count_object value fields total_fields code = do
  fs ← require_some (as_obj value) code
  require (is_closed fields fs) code
  require (all_nat fs && nat_eq (nat_at "total" fs) (sum_at total_fields fs)) code
  ok fs

pub data Verdict : Type 0 where
  passed changes_required blocked : Verdict

-- REVIEW_VERDICTS
abbrev verdict_of : Option String → Option Verdict
verdict_of none = none
verdict_of (some s) =
    if s == "passed"
    then some passed
    else if s == "changes_required"
    then some changes_required
    else if s == "blocked"
    then some blocked
    else none

-- `"passed" if verdict == "passed" else "failed"`
abbrev expected_result : Verdict → String
expected_result passed = "passed"
expected_result _ = "failed"

abbrev pub is_passed : Verdict → Bool
is_passed passed = true
is_passed _ = false

pub record ReviewRecord : Type 0 where
  pub review_id : String
  pub scope : Scope
  pub target_digest : String
  -- `result` is "passed" exactly when the verdict is
  pub verdict : Verdict
  pub open_counts : Fields
  pub gap_counts : Fields
  pub payload : Fields

abbrev lineage_is_valid : Option Fields → Bool
lineage_is_valid none = false
lineage_is_valid (some fs) =
    let predecessor = get "predecessor_review_id" fs in
    is_closed ("predecessor_review_id" ∷ "accounted_finding_count" ∷ []) fs
    && (is_none predecessor || elim (as_str predecessor) [ none ↦ false | some s ↦ has_text s ])
    && not (absent (as_nat (get "accounted_finding_count" fs)))

abbrev coverage_is_valid : Option Fields → Bool
coverage_is_valid none = false
coverage_is_valid (some fs) =
    is_closed ("target_paths" ∷ "requirements" ∷ "risks" ∷ "context_expansions" ∷ []) fs
    && all_nat fs

-- `tuple(report_ref.parts[:2]) == ("artifacts", "reviews")`
abbrev in_reviews : List String → Bool
in_reviews [] = false
in_reviews (a ∷ []) = false
in_reviews (a ∷ b ∷ rest) = a == "artifacts" && b == "reviews"

abbrev report_is_valid : String → Bool
report_is_valid ref =
    not (is_absolute ref)
    && not (any (λ c. nat_eq c 92) (codes ref))
    && not (mem ".." (path_parts ref))
    && in_reviews (path_parts ref)

abbrev is_digest : Option Json → Bool
is_digest v = elim (as_str v) [ none ↦ false | some s ↦ is_sha256 s ]

unfoldable pub check_mode : Fields → Result (Unit {0})
check_mode fs = do
  mode ← hashed (get "reviewer_mode" fs)
  require (elim mode [ none ↦ false | some m ↦ m == "same-context" || m == "external-agent" ])
      run_state_review_provenance_invalid
  require (not (absent (as_bool (get "independence_claim" fs)))) run_state_review_provenance_invalid
  require
      (not (is_str (get "reviewer_mode" fs) "same-context")
        || elim (as_bool (get "independence_claim" fs)) [ some false ↦ true | _ ↦ false ])
      run_state_review_provenance_invalid

unfoldable pub check_verdict : Fields → Result Verdict
check_verdict fs = do
  text ← hashed (get "verdict" fs)
  verdict ← require_some (verdict_of text) run_state_review_verdict_invalid
  require (is_str (get "result" fs) (expected_result verdict)) run_state_review_result_invalid
  ok verdict

unfoldable pub check_summaries : Fields → Result (Unit {0})
check_summaries fs = do
  require (coverage_is_valid (as_obj (get "coverage_summary" fs))) run_state_review_coverage_invalid
  require (lineage_is_valid (as_obj (get "lineage_summary" fs))) run_state_review_lineage_invalid
  require (not (absent (as_nat (get "strength_count" fs)))) run_state_review_strength_invalid

-- no open blocking or major finding, and no such gap
unfoldable pub is_clear : Fields → Fields → Bool
is_clear counts gaps =
    nat_eq (nat_at "blocking" counts) 0
    && nat_eq (nat_at "major" counts) 0
    && nat_eq (nat_at "blocking" gaps) 0
    && nat_eq (nat_at "major" gaps) 0

-- what the checks behind the scope find
pub record Receipt : Type 0 where
  pub review_id : String
  pub target_digest : String
  pub verdict : Verdict
  pub open_counts : Fields
  pub gap_counts : Fields

unfoldable pub check_counts : Fields → Verdict → Result (Fields × Fields)
check_counts fs verdict = do
  counts ←
      validate_count_object (get "open_counts" fs)
        ("blocking" ∷ "major" ∷ "minor" ∷ "advisory" ∷ "total" ∷ [])
        ("blocking" ∷ "major" ∷ "minor" ∷ "advisory" ∷ []) run_state_review_counts_invalid
  gaps ←
      validate_count_object (get "gap_counts" fs) ("blocking" ∷ "major" ∷ "minor" ∷ "total" ∷ [])
        ("blocking" ∷ "major" ∷ "minor" ∷ []) run_state_review_gap_counts_invalid
  check_summaries fs
  require (not (is_passed verdict) || is_clear counts gaps) run_state_review_counts_invalid
  ok (counts, gaps)

unfoldable pub check_receipt : Fields → Result Receipt
check_receipt fs = do
  review_id ← require_some (text_at "review_id" fs) run_state_review_payload_invalid
  report_ref ← require_some (text_at "report_ref" fs) run_state_review_payload_invalid
  summary ← require_some (text_at "summary" fs) run_state_review_payload_invalid
  dispatch_id ← require_some (text_at "dispatch_id" fs) run_state_review_payload_invalid
  check_mode fs
  require (report_is_valid report_ref) run_state_review_report_invalid
  require (is_digest (get "target_digest" fs)) run_state_review_target_invalid
  require (is_digest (get "context_digest" fs)) run_state_review_target_invalid
  target ← require_some (as_str (get "target_digest" fs)) run_state_review_target_invalid
  verdict ← check_verdict fs
  (counts, gaps) ← check_counts fs verdict
  ok (record {
    review_id = review_id;
    target_digest = target;
    verdict = verdict;
    open_counts = counts;
    gap_counts = gaps;
  })

unfoldable pub validate_review_record : Json → Option String → Option ℕ → Result ReviewRecord
validate_review_record payload stage_id attempt = do
  fs ← require_some (as_obj (some payload)) run_state_review_payload_invalid
  require (is_closed review_record_fields fs) run_state_review_payload_invalid
  require (is_str (get "profile" fs) "code-review") run_state_review_profile_invalid
  scope ← validate_review_scope (get "scope" fs) stage_id attempt
  receipt ← check_receipt fs
  ok (record {
    review_id = receipt.review_id;
    scope = scope;
    target_digest = receipt.target_digest;
    verdict = receipt.verdict;
    open_counts = receipt.open_counts;
    gap_counts = receipt.gap_counts;
    payload = fs;
  })
