-- ===== src/Executor/Ledger/Standing/Carried.antt =====
-- harness_state.py, `apply_event`: what carrying stages over leaves of the recorded validations.
use dev_skills.Base.{
  false, String, List, [], ◌∷◌, ◌≡◌, refl, arith, Dict, lookup, insert, mem, if◌then◌else◌,
  lookup-insert, Option-cases, inl, inr,
}
use dev_skills.Executor.Contract.{Stage}
use dev_skills.Executor.State.{carried, Evidence}
use dev_skills.Executor.Reducer.Amendment.{carry_validations, carry_ids}
use dev_skills.Executor.Ledger.Evidence.{or_empty}
use dev_skills.Executor.Ledger.Standing.{is_recorded}

-- a carried stage has no record of its own
lookup-carry_ids :
    (id : String) (ids : List String) → is_recorded (lookup id (carry_ids ids)) ≡ false
unfolding carry_ids lookup
lookup-carry_ids id [] = refl
lookup-carry_ids id (x ∷ ids) =
    ground (arith, lookup-insert id x carried (carry_ids ids), lookup-carry_ids id ids)

pub lookup-carry_validations :
    (definitions : Dict Stage) (s id : String) (ids : List String)
    (validations : Dict (Dict Evidence))
    → is_recorded (lookup id (or_empty (lookup s (carry_validations definitions ids validations))))
      ≡ (if mem s ids then false else is_recorded (lookup id (or_empty (lookup s validations))))
unfolding carry_validations mem lookup
lookup-carry_validations definitions s id [] validations = refl
lookup-carry_validations definitions s id (x ∷ ids) validations =
    elim (Option-cases (lookup x definitions)) [
      | inl e ↦
          let nothing : Dict Evidence = [] in
          ground (
            arith,
            lookup-carry_validations definitions s id ids (insert x nothing validations),
            lookup-insert s x nothing validations,
          )
      | inr (stage, e) ↦ ground (
        arith,
        lookup-carry_validations definitions s id ids
            (insert x (carry_ids stage.validation_ids) validations),
        lookup-insert s x (carry_ids stage.validation_ids) validations,
        lookup-carry_ids id stage.validation_ids,
      )
    ]
