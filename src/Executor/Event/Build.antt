-- ===== src/Executor/Event/Build.antt =====
-- skills/complex-coding-executor/scripts/harness_state_io.py, `build_event`: the event that the writer
-- appends, and that the replay reads it back.
use dev_skills.Base.{
  ℕ, true, not, ◌||◌, Option, none, some, String, List, ◌==◌, if◌then◌else◌, leb, nat_eq, all, mem,
  subset, Json, Fields, null, int, str, arr, obj, end, field, pos, ◌≡◌, refl, arith, eq_refl,
}
use dev_skills.Executor.Errors.{Result, ok, ◌>>=◌, ◌>>◌, require, ledger_event_type_invalid}
use dev_skills.Executor.Time.{is_rfc3339, parse_timestamp}
use dev_skills.Executor.Event.{
  EventType, event_type_of, event_name, needs_stage, needs_attempt, given, is_safe_ref, check_stage,
  check_attempt, check_identity, check_subject, check_refs, validate_event,
}
use dev_skills.Executor.Snapshot.{text_items, text_or_null}
use dev_skills.Executor.Snapshot.Roundtrip.{texts-text_items}
use dev_skills.Executor.Contract.{Contract}

abbrev number_or_null : Option ℕ → Json
number_or_null none = null
number_or_null (some n) = int (pos n)

-- `occurred_at or now`
abbrev given_or_now : Option String → String → String
given_or_now none now = now
given_or_now (some at) now = if at == "" then now else at

unfoldable pub build_event :
    Contract
    → ℕ
    → String
    → Option String
    → Option ℕ
    → Fields
    → List String
    → Option String
    → String
    → Result Fields
build_event contract seq event_type stage_id attempt payload evidence_refs occurred_at now = do
  require (given (event_type_of (some event_type))) ledger_event_type_invalid
  ok (
      field "seq" (int (pos seq)) (
        field "event_id" (str (event_name seq)) (
          field "occurred_at" (str (given_or_now occurred_at now)) (
            field "task_id" (str contract.task_id) (
              field "plan_revision" (int (pos contract.plan_revision)) (
                field "stage_id" (text_or_null stage_id) (
                  field "type" (str event_type) (
                    field "attempt" (number_or_null attempt) (
                      field "payload" (obj payload)
                        (field "evidence_refs" (arr (text_items evidence_refs)) end))))))))))

check_stage-text_or_null :
    (stage : Option String) (known : List String)
    → (elim stage [ none ↦ true | some s ↦ mem s known ]) ≡ true
    → check_stage (some (text_or_null stage)) known ≡ ok stage
unfolding check_stage
check_stage-text_or_null none known h = refl
check_stage-text_or_null (some s) known h = rw h refl

check_attempt-number_or_null :
    (attempt : Option ℕ)
    → (elim attempt [ none ↦ true | some n ↦ leb 1 n ]) ≡ true
    → check_attempt (some (number_or_null attempt)) ≡ ok attempt
unfolding check_attempt
check_attempt-number_or_null none h = refl
check_attempt-number_or_null (some n) h = rw h refl

nat_eq_refl : (n : ℕ) → nat_eq n n ≡ true
nat_eq_refl n = ground arith

-- An event that the writer builds is read back by the replay, with every field that it was built
-- from: its type is known, its stage and attempt are there where the type needs them, the stage is
-- one of the contract, the attempt is positive, the references stay inside the task, and the time
-- is an RFC 3339 text.
pub build_event-validate_event :
    (contract : Contract) (seq : ℕ) (name : String) (type : EventType) (stage : Option String)
    (attempt : Option ℕ) (payload : Fields) (refs : List String) (at : Option String) (now : String)
    (known : List String)
    → event_type_of (some name) ≡ some type
    → is_rfc3339 (given_or_now at now) ≡ true
    → (elim stage [ none ↦ true | some s ↦ mem s known ]) ≡ true
    → (not (needs_stage type) || given stage) ≡ true
    → (elim attempt [ none ↦ true | some n ↦ leb 1 n ]) ≡ true
    → (not (needs_attempt type) || given attempt) ≡ true
    → all is_safe_ref refs ≡ true
    → (build_event contract seq name stage attempt payload refs at now >>= λ raw.
        validate_event raw seq contract.task_id contract.plan_revision known)
      ≡ ok (record {
        occurred_at = given_or_now at now;
        stage_id = stage;
        type = type;
        attempt = attempt;
        payload = payload;
        evidence_refs = refs;
      })
unfolding build_event validate_event check_identity check_subject check_refs parse_timestamp subset
    mem
build_event-validate_event contract seq name type stage attempt payload refs at now known typed
      timed staged needs tried needs' safe =
    rw
      (
        typed,
        nat_eq_refl seq,
        eq_refl (event_name seq),
        timed,
        eq_refl contract.task_id,
        nat_eq_refl contract.plan_revision,
        typed,
        check_stage-text_or_null stage known staged,
        needs,
        check_attempt-number_or_null attempt tried,
        needs',
        texts-text_items refs,
        safe,
      )
      refl
