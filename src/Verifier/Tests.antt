-- ===== src/Verifier/Tests.antt =====
-- A store with one queued operation, its task, and the submissions of one request.
mod Risks
use dev_skills.Base.{
  Bool, true, false, Option, none, some, String, [], ◌∷◌, ◌==◌, ◌≡◌, refl, arith, if◌then◌else◌,
  end, field, str, Fields, inl, inr, lookup, insert,
}
use dev_skills.Verifier.Errors.{Code, ok, err, operation_request_conflict}
use dev_skills.Verifier.Operations.{
  Operation, Store, Request, Clock, failed, cancelled, load, transition, create, create_new,
  claim_request, new_operation, restarted,
}
use dev_skills.Verifier.Operations.Run.{Context, Ending, returned, run}
use dev_skills.Verifier.Operations.Ends.{Ended, Executes, run-Ended}
use dev_skills.Verifier.Operations.Cancel.{Waits, cancel, cancel-Ended}
use dev_skills.Verifier.Operations.Final.{here, after, transitions, Steps-keep_final}
use dev_skills.Verifier.Operations.Repeats.{create-create}

-- every text but the empty one is taken for a UUID
abbrev any_text : String → Option String
any_text s = if s == "" then none else some s

any_text_canonical : (x key : String) → any_text x ≡ some key → any_text key ≡ some key
any_text_canonical x key h = ground arith

-- a record with a response is too large
abbrev without_response : Operation → Bool
without_response op = elim op.response [ none ↦ true | some _ ↦ false ]

-- what an error says beside its code
abbrev envelope : Code → Fields
envelope code = field "error" (str "refused") end

abbrev request : Request
request = record {
  request_id = "R1";
  request_fingerprint = "F1";
  kind = "action";
  run_id = "U1";
  asset_id = none;
  deadline_at = "d";
}

abbrev one : Operation
one = new_operation request "R1" "O1" "t0"

abbrev store : Store
store = record { operations = ("O1", one) ∷ []; requests = [] }

abbrev clock : Clock
clock = record { now = "t1"; saved = "t2" }

abbrev context : Context
context = record { cancel_requested = false; mutation_inflight = false; outcome_unknown = false }

abbrev answers : Store → Context → Store × Context × Ending
answers s c = (s, c, returned end false)

answers-Executes : Executes any_text without_response envelope any_text_canonical "O1" answers
answers-Executes s c op found going empty = (op, found, inr (going, empty))

one_loaded : load any_text without_response store "O1" ≡ ok one
unfolding load lookup
one_loaded = refl

run-Ended_example :
    Ended any_text without_response "O1"
      (run any_text without_response envelope "O1" store none context 5 answers clock clock clock)
run-Ended_example =
    run-Ended any_text without_response envelope any_text_canonical "O1" store one none context 5
      answers clock clock clock one_loaded refl refl refl answers-Executes

-- the operation after a restart, which a later transition leaves alone
abbrev closed : Operation
closed = record one { state = cancelled; done = true; finished_at = some "t1" }

abbrev closed_store : Store
closed_store = record { operations = ("O1", closed) ∷ []; requests = [] }

closed_stays :
    transition any_text without_response closed_store "O1" failed restarted clock
    ≡ ok (closed_store, closed)
unfolding transition load lookup
closed_stays = refl

Steps-keep_final_example : lookup "O1" closed_store.operations ≡ some closed
Steps-keep_final_example =
    Steps-keep_final any_text without_response (λ s. s) 10 any_text_canonical closed_store
      closed_store
      (after closed_store closed_store closed_store
        (transitions closed_store closed_store "O1" failed restarted clock closed closed_stays)
        (here closed_store))
      "O1" closed (unfold lookup in refl) refl

abbrev empty_store : Store
empty_store = record { operations = []; requests = [] }

abbrev conflicting : Request
conflicting = record request { request_fingerprint = "F2" }

abbrev filed : Store
filed = (create any_text without_response (λ s. s) 10 empty_store request "O1" "t0" (λ s. s)).0

first_created :
    create any_text without_response (λ s. s) 10 empty_store request "O1" "t0" (λ s. s)
    ≡ (filed, ok (one, true))
unfolding create create_new claim_request lookup insert
first_created = refl

create-create_example :
    create any_text without_response (λ s. s) 10 filed conflicting "O2" "t5" (λ s. s) ≡ (
      filed,
      if request.request_fingerprint == conflicting.request_fingerprint
          then ok (one, false)
          else err operation_request_conflict,
    )
create-create_example =
    create-create any_text without_response (λ s. s) 10 empty_store request conflicting "O1" "t0"
      "O2" "t5" (λ s. s) (λ s. s) filed one first_created refl refl (λ s. refl)

-- the cancelled task has closed its operation
abbrev closes : Store → Store × Option Context
closes s = (closed_store, none)

closes-Waits : Waits any_text without_response any_text_canonical "O1" closes
unfolding load lookup
closes-Waits s op found = (closed, refl, inl refl)

cancel-Ended_example :
    Ended any_text without_response "O1"
      (cancel any_text without_response "O1" store "t3" closes clock)
cancel-Ended_example =
    cancel-Ended any_text without_response any_text_canonical "O1" store "t3" closes clock one
      one_loaded refl closes-Waits
