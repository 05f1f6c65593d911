-- ===== src/Executor/Ledger/Evidence.antt =====
-- The evidence behind the completed stages: a passed review of the current attempt, and every
-- required validation passed on the review's target; or an approved amendment carried the stage.
use dev_skills.Base.{
  ℕ, Bool, true, false, ◌&&◌, ◌||◌, Option, none, some, String, List, [], ◌==◌, ◌≡◌, sym, ap, ◌∙◌,
  ◌⊎◌, all, mem, subset, Dict, lookup, keys, Bool-cases, inl, inr, eq→≡,
}
use dev_skills.Executor.Review
use dev_skills.Executor.Review.{ReviewRecord, validate_review_record}
use dev_skills.Executor.Contract.{Stage}
use dev_skills.Executor.State.{Evidence, Replay}
use dev_skills.Executor.Reducer.Completion.{scope_is_current, evidence_matches, required_of}

-- the ids that a stage declares and the contract requires
abbrev pub required_ids : Dict Stage → List String → String → List String
required_ids definitions required s = elim (lookup s definitions) [
  | none ↦ []
  | some stage ↦ required_of stage required
]

abbrev pub or_empty : Option (Dict Evidence) → Dict Evidence
or_empty none = []
or_empty (some l) = l

-- a passed review of the current attempt, and the required validations on its target
abbrev pub reviewed : List String → Option ReviewRecord → Option ℕ → Dict Evidence → String → Bool
reviewed needed none attempt records s = false
reviewed needed (some v) attempt records s =
    Review.is_passed v.verdict
    && scope_is_current v.scope (some s) attempt
    && all (evidence_matches v.target_digest attempt) records
    && subset needed (keys records)

abbrev pub is_backed : Dict Stage → List String → Replay → String → Bool
is_backed definitions required r s =
    mem s r.carried_stage_ids
    || reviewed (required_ids definitions required s) (lookup s r.stage_reviews)
        (lookup s r.attempts) (or_empty (lookup s r.passed_validations)) s

pub record Backed (definitions : Dict Stage) (required : List String) (r : Replay) : Type 0 where
  pub stages :
      (s : String) → mem s r.completed_stage_ids ≡ true → is_backed definitions required r s ≡ true
  pub reviews :
      (s : String) (v : ReviewRecord)
      → lookup s r.stage_reviews ≡ some v
      → Review.is_passed v.verdict ≡ true
  pub final : (v : ReviewRecord) → r.final_review ≡ some v → Review.is_passed v.verdict ≡ true

-- the evidence of one stage is left alone
pub record SameAt (s : String) (r r' : Replay) : Type 0 where
  pub review : lookup s r'.stage_reviews ≡ lookup s r.stage_reviews
  pub attempt : lookup s r'.attempts ≡ lookup s r.attempts
  pub records : lookup s r'.passed_validations ≡ lookup s r.passed_validations

pub is_backed-SameAt :
    (definitions : Dict Stage) (required : List String) (s : String) (r r' : Replay)
    → r'.carried_stage_ids ≡ r.carried_stage_ids
    → SameAt s r r'
    → is_backed definitions required r' s ≡ is_backed definitions required r s
is_backed-SameAt definitions required s r r' c same =
    rw (c, same.review, same.attempt, same.records)

-- A handler that leaves the six values alone.
pub record SameEvidence (r r' : Replay) : Type 0 where
  pub completed : r'.completed_stage_ids ≡ r.completed_stage_ids
  pub carried : r'.carried_stage_ids ≡ r.carried_stage_ids
  pub reviews : r'.stage_reviews ≡ r.stage_reviews
  pub attempts : r'.attempts ≡ r.attempts
  pub records : r'.passed_validations ≡ r.passed_validations

pub Backed-frame :
    (definitions : Dict Stage) (required : List String) (r r' : Replay)
    → SameEvidence r r'
    → ((v : ReviewRecord) → r'.final_review ≡ some v → Review.is_passed v.verdict ≡ true)
    → Backed definitions required r
    → Backed definitions required r'
Backed-frame definitions required r r' same final b = record {
  stages = λ s m.
      is_backed-SameAt definitions required s r r' same.carried (record {
        review = ap (lookup s) same.reviews;
        attempt = ap (lookup s) same.attempts;
        records = ap (lookup s) same.records;
      })
      ∙ b.stages s (rw same.completed at m);
  reviews = λ s v e. b.reviews s v (sym (ap (lookup s) same.reviews) ∙ e);
  final = final;
}

-- A handler that touches only a stage that is not completed.
pub Backed-at :
    (definitions : Dict Stage) (required : List String) (r r' : Replay)
    → r'.completed_stage_ids ≡ r.completed_stage_ids
    → r'.carried_stage_ids ≡ r.carried_stage_ids
    → r'.final_review ≡ r.final_review
    → ((s : String) → mem s r.completed_stage_ids ≡ true → SameAt s r r')
    → ((s : String) (v : ReviewRecord)
        → lookup s r'.stage_reviews ≡ some v
        → (lookup s r.stage_reviews ≡ some v) ⊎ (Review.is_passed v.verdict ≡ true))
    → Backed definitions required r
    → Backed definitions required r'
Backed-at definitions required r r' c k f same new b = record {
  stages = λ s m.
      let was : mem s r.completed_stage_ids ≡ true = rw c at m in
      is_backed-SameAt definitions required s r r' k (same s was) ∙ b.stages s was;
  reviews = λ s v e. elim (new s v e) [ inl old ↦ b.reviews s v old | inr passed ↦ passed ];
  final = λ v e. b.final v (sym f ∙ e);
}

-- a name of a list and one that is not in it differ
pub ne_of_mem :
    (k s : String) (l : List String) → mem k l ≡ false → mem s l ≡ true → (k == s) ≡ false
ne_of_mem k s l h m = elim (Bool-cases (k == s)) [ inl e ↦ let same = eq→≡ k s e in cc | inr e ↦ e ]
