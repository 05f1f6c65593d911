-- ===== src/Verifier/Operations/Cancel.antt =====
-- operations.py, `OperationService.cancel`: the wait for the cancelled task is an argument; it gives
-- the store and the context that the task leaves, if the service still holds the context.
use dev_skills.Base.{
  end, Bool, true, false, not, ◌&&◌, ◌||◌, Option, none, some, String, ◌≡◌, refl, arith,
  if◌then◌else◌, ◌⊎◌, inl, inr, Bool-cases,
}
use dev_skills.Verifier.Errors.{Result, ok, err, ◌>>=◌, operation_cancelled, artifact_too_large}
use dev_skills.Verifier.Operations.{
  OperationState, cancelled, unknown, is_final, is_running, allowed, Operation, Store, Clock, load,
  moved, save, transition, request_cancel,
}
use dev_skills.Verifier.Operations.Run.{Context, is_unknown, only_error}
use dev_skills.Verifier.Operations.Ends.{
  load-eq-ok, save-load, saved_as, transition_moves, transition_refused, Ended,
}

abbrev pub may_be_unknown : Option Context → Bool
may_be_unknown none = false
may_be_unknown (some context) = is_unknown context

module _ (uuid : String → Option String) (fits : Operation → Bool) (operation_id : String) where
  -- what is left to do once the task was waited for
  unfoldable pub close_cancelled : Store → Option Context → Clock → Result (Store × Operation)
  close_cancelled waited context clock = do
    current ← load uuid fits waited operation_id
    if is_final current.state
        then ok (waited, current)
        else transition uuid fits waited operation_id
            (if may_be_unknown context then unknown else cancelled)
            (only_error operation_cancelled end (may_be_unknown context)) clock

  unfoldable pub cancel :
      Store → String → (Store → Store × Option Context) → Clock → Result (Store × Operation)
  cancel store saved wait clock = do
    (requested, operation) ← request_cancel uuid fits store operation_id saved
    if is_final operation.state
        then ok (requested, operation)
        else (let (waited, context) = wait requested in close_cancelled waited context clock)

module _ (uuid : String → Option String) (fits : Operation → Bool)
    (canonical : (x key : String) → uuid x ≡ some key → uuid key ≡ some key) (id : String) where
  -- The task, once it is cancelled, leaves its operation final, or open without a response, and
  -- running if a mutation may be under way.
  abbrev pub Waits : (Store → Store × Option Context) → Type 0
  Waits wait =
      (store : Store) (op : Operation)
      → load uuid fits store id ≡ ok op
      → (op' : Operation) × (load uuid fits (wait store).0 id ≡ ok op')
        × ((is_final op'.state ≡ true)
            ⊎ ((is_final op'.state ≡ false)
                × ((is_running op'.state || not (may_be_unknown (wait store).1)) ≡ true)
                × (op'.response ≡ none)))

  request_cancel-loads :
      (store : Store) (saved : String) (op : Operation)
      → load uuid fits store id ≡ ok op
      → op.response ≡ none
      → ((after : Store) × (op' : Operation) × (request_cancel uuid fits store id saved
            ≡ ok (after, op'))
          × (load uuid fits after id ≡ ok op'))
        ⊎ ((request_cancel uuid fits store id saved ≡ err artifact_too_large)
            × (new : Operation) × (uuid id ≡ some new.operation_id)
            × (new.response ≡ none)
            × (fits new ≡ false))
  unfolding request_cancel save
  request_cancel-loads store saved op found empty =
      elim (Bool-cases (not (is_final op.state) && not op.cancel_requested)) [
        | inl asks ↦
            let (named, _) = load-eq-ok uuid fits store id op found in
            let new = record op { cancel_requested = true } in
            let known = canonical id op.operation_id named in
            elim (Bool-cases (fits (saved_as new saved))) [
              | inl fitting ↦
                  let (after, done, loaded) =
                    save-load uuid fits store id saved new named known fitting in
                  inl (after, saved_as new saved, rw (found, asks) done, loaded)
              | inr large ↦
                  inr (rw (found, asks, known, large) refl, saved_as new saved, named, empty, large)
            ]
        | inr quiet ↦ inl (store, op, rw (found, quiet) refl, found)
      ]

  close_cancelled-Ended :
      (waited : Store) (context : Option Context) (clock : Clock) (op : Operation)
      → load uuid fits waited id ≡ ok op
      → (is_final op.state ≡ true)
        ⊎ ((is_final op.state ≡ false)
            × ((is_running op.state || not (may_be_unknown context)) ≡ true)
            × (op.response ≡ none))
      → Ended uuid fits id (close_cancelled uuid fits id waited context clock)
  unfolding close_cancelled
  close_cancelled-Ended waited context clock op found (inl closed) =
      inl (waited, op, rw (found, closed) refl, found, closed)
  close_cancelled-Ended waited context clock op found (inr (unfinished, ready, empty)) =
      let state : OperationState = if may_be_unknown context then unknown else cancelled in
      let fields = only_error operation_cancelled end (may_be_unknown context) in
      let new = saved_as (moved op state fields clock) clock.saved in
      let allowed_now = legal op.state (may_be_unknown context) unfinished ready in
      elim (Bool-cases (fits new)) [
        | inl fitting ↦
            let (after, done, loaded) =
              transition_moves uuid fits canonical id waited op state fields clock found unfinished
                allowed_now fitting in
            inl (after, new, rw (found, unfinished) done, loaded, ends (may_be_unknown context))
        | inr large ↦
            let refused =
              transition_refused uuid fits canonical id waited op state fields clock found
                unfinished allowed_now large in
            inr (
              rw (found, unfinished) refused,
              new,
              (load-eq-ok uuid fits waited id op found).0,
              empty,
              large,
            )
      ]
    where
      legal :
          (s : OperationState) (b : Bool)
          → is_final s ≡ false
          → (is_running s || not b) ≡ true
          → allowed s (if b then unknown else cancelled) ≡ true
      legal s b f h = ground arith

      ends : (b : Bool) → is_final (if b then unknown else cancelled) ≡ true
      ends b = ground arith

  cancelled_now :
      (store : Store) (saved : String) (wait : Store → Store × Option Context) (clock : Clock)
      (requested : Store) (op' : Operation)
      → request_cancel uuid fits store id saved ≡ ok (requested, op')
      → load uuid fits requested id ≡ ok op'
      → Waits wait
      → Ended uuid fits id (cancel uuid fits id store saved wait clock)
  unfolding cancel
  cancelled_now store saved wait clock requested op' done loaded waits =
      elim (Bool-cases (is_final op'.state)) [
        | inl closed ↦ rw (done, cancel) (inl (requested, op', rw closed refl, loaded, closed))
        | inr unfinished ↦
            let (last, kept, state) = waits requested op' loaded in
            rw (done, unfinished, cancel)
              (close_cancelled-Ended (wait requested).0 (wait requested).1 clock last kept state)
      ]

  -- A request to cancel an operation without a response ends it: where the wait leaves the operation
  -- final, or open without a response and running if a mutation may be under way, the operation is
  -- then stored in a final state, unless a write is refused because its record without a response is
  -- over the size limit.
  pub cancel-Ended :
      (store : Store) (saved : String) (wait : Store → Store × Option Context) (clock : Clock)
      (op : Operation)
      → load uuid fits store id ≡ ok op
      → op.response ≡ none
      → Waits wait
      → Ended uuid fits id (cancel uuid fits id store saved wait clock)
  unfolding cancel
  cancel-Ended store saved wait clock op found empty waits =
      elim (request_cancel-loads store saved op found empty) [
        | inr (refused, new, named, none_given, large) ↦
            rw (refused, cancel) (inr (refl, new, named, none_given, large))
        | inl (requested, op', done, loaded) ↦
            cancelled_now store saved wait clock requested op' done loaded waits
      ]
