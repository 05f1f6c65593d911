-- ===== src/Executor/Contract.antt =====
-- skills/complex-coding-executor/scripts/harness_state.py: the stages of a contract and their
-- order. The contract is typed: it is read only after the planner's contract check, so a stage is
-- an object with a text `id`, and an absent `depends_on` or `validation_ids` is the empty list.
pub mod Order
pub mod Acyclic
use dev_skills.Base.{
  ℕ, zero, suc, Bool, true, false, Option, none, some, String, List, [], ◌∷◌, ◌++◌, if◌then◌else◌,
  length, select, is_empty, subset, without, Dict, lookup, insert, keys, sorted,
}
use dev_skills.Executor.Errors.{
  Result, ok, err, state_error, out_of_fuel, key_error, task_contract_invalid_field,
  task_contract_stage_cycle,
}

pub record Stage : Type 0 where
  pub id : String
  pub depends_on : List String
  pub validation_ids : List String
  pub commit_expectation : String

pub record Validation : Type 0 where
  pub id : String
  pub required : Bool

pub record Contract : Type 0 where
  pub task_id : String
  pub plan_revision : ℕ
  pub stages : List Stage
  pub validations : List Validation

-- a later stage with the same id takes the place of the earlier one
by_id : Dict Stage → List Stage → Dict Stage
by_id result [] = result
by_id result (item ∷ stages) = by_id (insert item.id item result) stages

unfoldable pub stage_definitions : Contract → Result (Dict Stage)
unfolding by_id
stage_definitions contract =
    let result = by_id [] contract.stages in
    if is_empty result then err (state_error task_contract_invalid_field) else ok result

-- `definitions[stage_id]`
abbrev pub definition : Dict Stage → String → Result Stage
definition definitions stage_id = elim (lookup stage_id definitions) [
  | none ↦ err key_error
  | some stage ↦ ok stage
]

-- `definitions[stage_id].get("depends_on", [])`; the callers give only keys of `definitions`
unfoldable pub dependencies : Dict Stage → String → List String
dependencies definitions stage_id = elim (lookup stage_id definitions) [
  | none ↦ []
  | some stage ↦ stage.depends_on
]

unfoldable pub ready_stages : Dict Stage → List String → List String → List String
ready_stages definitions remaining ordered =
    sorted (select (λ s. subset (dependencies definitions s) ordered) remaining)

-- The `while remaining` loop; each round takes at least one stage away.
unfoldable pub order_rounds : ℕ → Dict Stage → List String → List String → Result (List String)
order_rounds fuel definitions [] ordered = ok ordered
order_rounds zero definitions (s ∷ remaining) ordered = err out_of_fuel
order_rounds (suc fuel) definitions (s ∷ remaining) ordered =
    let ready = ready_stages definitions (s ∷ remaining) ordered in
    elim (is_empty ready) [
      | true ↦ err (state_error task_contract_stage_cycle)
      | false ↦ order_rounds fuel definitions (without ready (s ∷ remaining)) (ordered ++ ready)
    ]

-- `stage_order`, from the definitions
unfoldable pub stage_order : Dict Stage → Result (List String)
stage_order definitions = order_rounds (length (keys definitions)) definitions (keys definitions) []

required_ids : List Validation → List String
required_ids [] = []
required_ids (item ∷ l) =
    let rest = required_ids l in if item.required then item.id ∷ rest else rest

unfoldable pub required_validation_ids : Contract → List String
unfolding required_ids
required_validation_ids contract = required_ids contract.validations
