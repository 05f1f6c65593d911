-- ===== src/Executor/Review/Scopes.antt =====
-- What an accepted review receipt says of its scope and of its open findings.
use dev_skills.Base.{
  ℕ, true, Option, none, some, String, List, [], ◌∷◌, ◌≡◌, ◌==◌, refl, subst, arith, Json, Fields,
  end, field, field_names, get, as_obj, as_nat, mem, subset, mem_of_subset, eq_iff, inl, inr,
  Bool-cases, Option-cases,
}
use dev_skills.Executor.Errors.{
  Code, ok, run_state_review_counts_invalid, run_state_review_gap_counts_invalid,
}
use dev_skills.Executor.Validation.{is_closed}
use dev_skills.Executor.Review.{
  Scope, stage_delta, final_integration, Receipt, ReviewRecord, Verdict, is_passed, is_clear,
  check_counts, check_receipt, validate_review_scope, validate_review_record, all_nat, nat_at,
  sum_at, validate_count_object,
}

-- the scope that the arguments ask for
abbrev pub ScopeOf : Option String → Option ℕ → Scope → Type 0
ScopeOf stage_id attempt (stage_delta s n) = (stage_id ≡ some s) × (attempt ≡ some n)
ScopeOf stage_id attempt final_integration = (stage_id ≡ none) × (attempt ≡ none)

validate_review_scope-ScopeOf :
    (v : Option Json) (stage_id : Option String) (attempt : Option ℕ) (s : Scope)
    → validate_review_scope v stage_id attempt ≡ ok s
    → ScopeOf stage_id attempt s
unfolding validate_review_scope
validate_review_scope-ScopeOf v stage_id attempt (stage_delta s n) h = ground arith
validate_review_scope-ScopeOf v stage_id attempt final_integration h = ground arith

-- Every field of a count object is there and a natural number, and no other; the total is the sum.
pub record IsCounted (names totals : List String) (counts : Fields) : Type 0 where
  pub is_whole : is_closed names counts ≡ true
  pub numbers : (k : String) → mem k names ≡ true → (n : ℕ) × (as_nat (get k counts) ≡ some n)
  pub total : nat_at "total" counts ≡ sum_at totals counts

all_nat-as_nat :
    (k : String) (fs : Fields)
    → all_nat fs ≡ true
    → mem k (field_names fs) ≡ true
    → (n : ℕ) × (as_nat (get k fs) ≡ some n)
unfolding mem
all_nat-as_nat k end h m = absurd (ground arith)
all_nat-as_nat k (field l v fs) h m = elim (Bool-cases (l == k)) [
  | inl e ↦ elim (Option-cases (as_nat (some v))) [
    | inl f ↦ absurd (ground arith)
    | inr (n, f) ↦ (n, ground arith)
  ]
  | inr e ↦
      let (n, f) = all_nat-as_nat k fs (ground arith) (ground (arith, eq_iff l k, eq_iff k l)) in
      (n, ground arith)
]

validate_count_object-IsCounted :
    (value : Option Json) (names totals : List String) (code : Code) (fs : Fields)
    → validate_count_object value names totals code ≡ ok fs
    → IsCounted names totals fs
unfolding validate_count_object
validate_count_object-IsCounted value names totals code fs h = elim (Option-cases (as_obj value)) [
  | inl e ↦ absurd (ground arith)
  | inr (found, e) ↦
      let same : found ≡ fs = ground arith in
      let parts : (is_closed names fs ≡ true)
          × (all_nat fs ≡ true)
          × (nat_at "total" fs ≡ sum_at totals fs) =
        subst
          (λ (x : Fields).
            (is_closed names x ≡ true) × (all_nat x ≡ true) × (nat_at "total" x ≡ sum_at totals x))
          same (ground arith) in
      let there : subset names (field_names fs) ≡ true = ground (arith, parts.0) in
      record {
        is_whole = parts.0;
        numbers =
            λ k m. all_nat-as_nat k fs parts.1 (mem_of_subset k names (field_names fs) there m);
        total = parts.2;
      }
]

abbrev pub open_names : List String
open_names = "blocking" ∷ "major" ∷ "minor" ∷ "advisory" ∷ "total" ∷ []

abbrev pub open_totals : List String
open_totals = "blocking" ∷ "major" ∷ "minor" ∷ "advisory" ∷ []

abbrev pub gap_names : List String
gap_names = "blocking" ∷ "major" ∷ "minor" ∷ "total" ∷ []

abbrev pub gap_totals : List String
gap_totals = "blocking" ∷ "major" ∷ "minor" ∷ []

-- the object has a zero under the name
abbrev pub IsZero : String → Fields → Type 0
IsZero k counts = as_nat (get k counts) ≡ some 0

-- What the two count objects of a receipt say, and what a passed verdict adds.
pub record IsTallied (verdict : Verdict) (counts gaps : Fields) : Type 0 where
  pub open_findings : IsCounted open_names open_totals counts
  pub open_gaps : IsCounted gap_names gap_totals gaps
  pub none_grave :
      is_passed verdict ≡ true
      → IsZero "blocking" counts
        × IsZero "major" counts
        × IsZero "blocking" gaps
        × IsZero "major" gaps

IsZero-at :
    (k : String) (names totals : List String) (counts : Fields)
    → IsCounted names totals counts
    → mem k names ≡ true
    → nat_at k counts ≡ 0
    → IsZero k counts
IsZero-at k names totals counts c m z = let (n, e) = c.numbers k m in ground arith

check_counts_parts :
    (fs : Fields) (v : Verdict) (counts gaps : Fields)
    → check_counts fs v ≡ ok (counts, gaps)
    → (validate_count_object
          (get "open_counts" fs)
          open_names
          open_totals
          run_state_review_counts_invalid
        ≡ ok counts)
      × (validate_count_object
            (get "gap_counts" fs)
            gap_names
            gap_totals
            run_state_review_gap_counts_invalid
          ≡ ok gaps)
unfolding check_counts
check_counts_parts fs v counts gaps h = ground arith

check_counts-is_clear :
    (fs : Fields) (v : Verdict) (counts gaps : Fields)
    → check_counts fs v ≡ ok (counts, gaps)
    → is_passed v ≡ true
    → is_clear counts gaps ≡ true
unfolding check_counts
check_counts-is_clear fs v counts gaps h q = ground arith

is_clear-eq-true :
    (counts gaps : Fields)
    → is_clear counts gaps ≡ true
    → (nat_at "blocking" counts ≡ 0)
      × (nat_at "major" counts ≡ 0)
      × (nat_at "blocking" gaps ≡ 0)
      × (nat_at "major" gaps ≡ 0)
unfolding is_clear
is_clear-eq-true counts gaps h = ground arith

check_counts-IsTallied :
    (fs : Fields) (v : Verdict) (counts gaps : Fields)
    → check_counts fs v ≡ ok (counts, gaps)
    → IsTallied v counts gaps
unfolding mem
check_counts-IsTallied fs v counts gaps h =
    let (first, second) = check_counts_parts fs v counts gaps h in
    let a =
      validate_count_object-IsCounted (get "open_counts" fs) open_names open_totals
        run_state_review_counts_invalid counts first in
    let b =
      validate_count_object-IsCounted (get "gap_counts" fs) gap_names gap_totals
        run_state_review_gap_counts_invalid gaps second in
    record {
      open_findings = a;
      open_gaps = b;
      none_grave = λ p.
          let (w, x, y, z) =
            is_clear-eq-true counts gaps (check_counts-is_clear fs v counts gaps h p) in
          (
            IsZero-at "blocking" open_names open_totals counts a refl w,
            IsZero-at "major" open_names open_totals counts a refl x,
            IsZero-at "blocking" gap_names gap_totals gaps b refl y,
            IsZero-at "major" gap_names gap_totals gaps b refl z,
          );
    }

check_receipt-IsTallied :
    (fs : Fields) (r : Receipt)
    → check_receipt fs ≡ ok r
    → IsTallied r.verdict r.open_counts r.gap_counts
unfolding check_receipt
check_receipt-IsTallied fs r h =
    check_counts-IsTallied fs r.verdict r.open_counts r.gap_counts (ground arith)

abbrev pub receipt_of : ReviewRecord → Receipt
receipt_of v = record {
  review_id = v.review_id;
  target_digest = v.target_digest;
  verdict = v.verdict;
  open_counts = v.open_counts;
  gap_counts = v.gap_counts;
}

pub record_parts :
    (payload : Json) (stage_id : Option String) (attempt : Option ℕ) (v : ReviewRecord)
    → validate_review_record payload stage_id attempt ≡ ok v
    → (validate_review_scope (get "scope" v.payload) stage_id attempt ≡ ok v.scope)
      × (check_receipt v.payload ≡ ok (receipt_of v))
unfolding validate_review_record
record_parts payload stage_id attempt v h = ground arith

-- An accepted receipt has the scope of its event. Its open counts and its gap counts have each
-- required field and no other, all of them natural numbers, and a total that is their sum. If it is
-- passed, there is a zero under blocking and under major in both.
pub validate_review_record-eq-ok :
    (payload : Json) (stage_id : Option String) (attempt : Option ℕ) (v : ReviewRecord)
    → validate_review_record payload stage_id attempt ≡ ok v
    → ScopeOf stage_id attempt v.scope × IsTallied v.verdict v.open_counts v.gap_counts
validate_review_record-eq-ok payload stage_id attempt v h =
    let (scoped, checked) = record_parts payload stage_id attempt v h in
    (
      validate_review_scope-ScopeOf (get "scope" v.payload) stage_id attempt v.scope scoped,
      check_receipt-IsTallied v.payload (receipt_of v) checked,
    )
