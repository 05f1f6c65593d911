-- ===== src/Executor/Tests/Building.antt =====
-- An event that the writer builds, and its reading.
use dev_skills.Base.{true, none, some, [], ◌∷◌, end, mem, ◌≡◌, refl}
use dev_skills.Executor.Errors.{ok, ◌>>=◌}
use dev_skills.Executor.Time.{is_rfc3339}
use dev_skills.Executor.Event.{validation_recorded, event_type_of, validate_event}
use dev_skills.Executor.Event.Build.{build_event, build_event-validate_event}
use dev_skills.Executor.Tests.{plan}

tests_pass :
    (event_type_of (some "validation_recorded") ≡ some validation_recorded)
    × (is_rfc3339 "2024-02-29T10:00:00Z" ≡ true)
    × (mem "S1" ("S1" ∷ []) ≡ true)
unfolding event_type_of is_rfc3339 mem
tests_pass = (refl, refl, refl)

build_event-validate_event_example :
    (build_event plan 3 "validation_recorded"
        (some "S1")
        (some 1)
        end
        []
        none
        "2024-02-29T10:00:00Z"
      >>= λ raw. validate_event raw 3 "T" 1 ("S1" ∷ []))
    ≡ ok (record {
      occurred_at = "2024-02-29T10:00:00Z";
      stage_id = some "S1";
      type = validation_recorded;
      attempt = some 1;
      payload = end;
      evidence_refs = [];
    })
build_event-validate_event_example =
    build_event-validate_event plan 3 "validation_recorded" validation_recorded (some "S1") (some 1)
      end [] none "2024-02-29T10:00:00Z" ("S1" ∷ []) tests_pass.0 tests_pass.1 tests_pass.2 refl
      refl refl refl
