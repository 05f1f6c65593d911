-- ===== src/Verifier/Operations/Ends.antt =====
-- operations.py: what a write leaves to be loaded, and the end of a task.
use dev_skills.Base.{
  ℕ, ◌+◌, Bool, true, false, not, ◌||◌, Option, none, some, String, Fields, ◌≡◌, refl, sym, subst,
  ◌∙◌, ap, arith, eq_refl, eq→≡, lookup, insert, lookup-insert, ◌==◌, ◌⊎◌, inl, inr, Bool-cases,
}
use dev_skills.Verifier.Errors.{Fallible-cases, Code, Result, ok, err, artifact_too_large}
use dev_skills.Verifier.Operations.{
  OperationState, queued, running, is_final, is_running, allowed, Operation, Store, Update, Clock,
  load, save, moved, transition,
}
use dev_skills.Verifier.Operations.Run.{
  Context, Raised, timed_out, interrupted, crashed, raised, Ending, stopped, returned, is_unknown,
  settled, answered, settle, conclude, run, checkpoint,
}

abbrev pub saved_as : Operation → String → Operation
saved_as operation saved = record operation {
  updated_at = saved;
  revision = operation.revision + 1;
}

module _ (uuid : String → Option String) (fits : Operation → Bool) where
  load_parts :
      (store : Store) (id : String) (op : Operation)
      → load uuid fits store id ≡ ok op
      → (key : String) × (uuid id ≡ some key)
        × (lookup key store.operations ≡ some op)
        × ((op.operation_id == key) ≡ true)
  unfolding load
  load_parts store id op h = ground arith

  pub load-eq-ok :
      (store : Store) (id : String) (op : Operation)
      → load uuid fits store id ≡ ok op
      → (uuid id ≡ some op.operation_id) × (lookup op.operation_id store.operations ≡ some op)
  load-eq-ok store id op h =
      let (key, named, found, same) = load_parts store id op h in
      let at = sym (eq→≡ op.operation_id key same) in
      (named ∙ ap some at, subst (λ k. lookup k store.operations ≡ some op) at found)

  pub load_found :
      (store : Store) (id : String) (op : Operation)
      → uuid id ≡ some op.operation_id
      → lookup op.operation_id store.operations ≡ some op
      → load uuid fits store id ≡ ok op
  unfolding load
  load_found store id op u l = rw (u, l, eq_refl op.operation_id) refl

  pub save-load :
      (store : Store) (id saved : String) (new : Operation)
      → uuid id ≡ some new.operation_id
      → uuid new.operation_id ≡ some new.operation_id
      → fits (saved_as new saved) ≡ true
      → (after : Store) × (save uuid fits store saved new ≡ ok (after, saved_as new saved))
        × (load uuid fits after id ≡ ok (saved_as new saved))
  unfolding save
  save-load store id saved new named canonical small =
      let after = record store {
        operations = insert new.operation_id (saved_as new saved) store.operations;
      } in
      (
        after,
        rw (canonical, small) refl,
        load_found after id (saved_as new saved) named (
            rw
              (
                lookup-insert new.operation_id new.operation_id (saved_as new saved)
                    store.operations,
                eq_refl new.operation_id,
              )
              refl),
      )

-- The canonical text of a UUID is that of itself.
module _ (uuid : String → Option String) (fits : Operation → Bool)
    (canonical : (x key : String) → uuid x ≡ some key → uuid key ≡ some key) (id : String) where
  -- a loaded operation that is still open moves to an allowed state
  pub transition_moves :
      (store : Store) (op : Operation) (state : OperationState) (fields : Update) (clock : Clock)
      → load uuid fits store id ≡ ok op
      → is_final op.state ≡ false
      → allowed op.state state ≡ true
      → fits (saved_as (moved op state fields clock) clock.saved) ≡ true
      → (after : Store) × (transition uuid fits store id state fields clock
          ≡ ok (after, saved_as (moved op state fields clock) clock.saved))
        × (load uuid fits after id ≡ ok (saved_as (moved op state fields clock) clock.saved))
  unfolding transition
  transition_moves store op state fields clock found unfinished legal small =
      let (named, _) = load-eq-ok uuid fits store id op found in
      let (after, saved, loaded) =
        save-load uuid fits store id clock.saved (moved op state fields clock) named
          (canonical id op.operation_id named) small in
      (after, rw (found, unfinished, legal) saved, loaded)

  -- a record that has grown too large is not written
  pub transition_refused :
      (store : Store) (op : Operation) (state : OperationState) (fields : Update) (clock : Clock)
      → load uuid fits store id ≡ ok op
      → is_final op.state ≡ false
      → allowed op.state state ≡ true
      → fits (saved_as (moved op state fields clock) clock.saved) ≡ false
      → transition uuid fits store id state fields clock ≡ err artifact_too_large
  unfolding transition save
  transition_refused store op state fields clock found unfinished legal large =
      let (named, _) = load-eq-ok uuid fits store id op found in
      rw (found, unfinished, legal, canonical id op.operation_id named, large) refl

  -- a final operation stays as it is
  pub transition_stays :
      (store : Store) (op : Operation) (state : OperationState) (fields : Update) (clock : Clock)
      → load uuid fits store id ≡ ok op
      → is_final op.state ≡ true
      → transition uuid fits store id state fields clock ≡ ok (store, op)
  unfolding transition
  transition_stays store op state fields clock found closed = rw (found, closed) refl

settled-allowed :
    (s : OperationState) (context : Context) (exception : Raised)
    → is_final s ≡ false
    → (is_running s || not (is_unknown context)) ≡ true
    → (allowed s (settled context exception).0 ≡ true)
      × (is_final (settled context exception).0 ≡ true)
      × ((settled context exception).1.response ≡ none)
settled-allowed s context timed_out f h = ground arith
settled-allowed s context interrupted f h = ground arith
settled-allowed s context (crashed name) f h = ground arith
settled-allowed s context (raised code others) f h = ground arith

answered-allowed :
    (s : OperationState) (context : Context) (response : Fields) (is_failed : Bool)
    → is_running s ≡ true
    → (allowed s (answered context response is_failed).0 ≡ true)
      × (is_final (answered context response is_failed).0 ≡ true)
answered-allowed s context response is_failed h = ground arith

abbrev nothing : Update
nothing = record { response = none; error = none }

running_is_open : (s : OperationState) → is_running s ≡ true → is_final s ≡ false
running_is_open s h = ground arith

-- The result of a task whose operation has ended, and is found so in the store; or of one whose
-- write was refused, of a record of the operation without a response that is over the size limit.
abbrev pub Ended :
    (String → Option String) → (Operation → Bool) → String → Result (Store × Operation) → Type 0
Ended uuid fits id result =
    ((after : Store) × (op : Operation) × (result ≡ ok (after, op))
      × (load uuid fits after id ≡ ok op)
      × (is_final op.state ≡ true))
    ⊎ ((result ≡ err artifact_too_large)
        × (new : Operation) × (uuid id ≡ some new.operation_id)
        × (new.response ≡ none)
        × (fits new ≡ false))

module _ (uuid : String → Option String) (fits : Operation → Bool) (envelope : Code → Fields)
    (canonical : (x key : String) → uuid x ≡ some key → uuid key ≡ some key) (id : String) where
  -- An operation that the handlers can end: it is final, or open without a response, and if a
  -- mutation may be under way it is running.
  abbrev pub Endable : Context → Operation → Type 0
  Endable context op =
      (is_final op.state ≡ true)
      ⊎ ((is_final op.state ≡ false)
          × ((is_running op.state || not (is_unknown context)) ≡ true)
          × (op.response ≡ none))

  settle-Ended :
      (store : Store) (context : Context) (exception : Raised) (clock : Clock) (op : Operation)
      → load uuid fits store id ≡ ok op
      → Endable context op
      → Ended uuid fits id (settle uuid fits id store context exception clock)
  unfolding settle
  settle-Ended store context exception clock op found (inl closed) = inl (
    store,
    op,
    transition_stays uuid fits canonical id store op (settled context exception).0
        (settled context exception).1 clock found closed,
    found,
    closed,
  )
  settle-Ended store context exception clock op found (inr (unfinished, ready, empty)) =
      let (legal, final, none_given) =
        settled-allowed op.state context exception unfinished ready in
      let (state, fields) = settled context exception in
      let new = saved_as (moved op state fields clock) clock.saved in
      elim (Bool-cases (fits new)) [
        | inl fitting ↦
            let (after, done, loaded) =
              transition_moves uuid fits canonical id store op state fields clock found unfinished
                legal fitting in
            inl (after, new, done, loaded, final)
        | inr large ↦
            let refused =
              transition_refused uuid fits canonical id store op state fields clock found unfinished
                legal large in
            inr (
              refused,
              new,
              (load-eq-ok uuid fits store id op found).0,
              rw (none_given, empty) refl,
              large,
            )
      ]

  conclude-Ended :
      (store : Store) (context : Context) (ending : Ending) (clock last : Clock) (op : Operation)
      → load uuid fits store id ≡ ok op
      → (is_final op.state ≡ true) ⊎ ((is_running op.state ≡ true) × (op.response ≡ none))
      → Ended uuid fits id (conclude uuid fits envelope id store context ending clock last)
  unfolding conclude
  conclude-Ended store context (stopped exception) clock last op found (inl closed) =
      settle-Ended store context exception last op found (inl closed)
  conclude-Ended store context (stopped exception) clock last op found (inr (going, empty)) =
      settle-Ended store context exception last op found
        (inr (running_is_open op.state going, ground arith, empty))
  conclude-Ended store context (returned response is_failed) clock last op found (inl closed) =
      rw
        (
          transition_stays uuid fits canonical id store op (answered context response is_failed).0
              (answered context response is_failed).1 clock found closed,
          conclude,
        )
        (inl (store, op, refl, found, closed))
  conclude-Ended store context (returned response is_failed) clock last op found
        (inr (going, empty)) =
      let (legal, final) = answered-allowed op.state context response is_failed going in
      let unfinished = running_is_open op.state going in
      let (state, fields) = answered context response is_failed in
      let new = saved_as (moved op state fields clock) clock.saved in
      elim (Bool-cases (fits new)) [
        | inl fitting ↦
            let (after, done, loaded) =
              transition_moves uuid fits canonical id store op state fields clock found unfinished
                legal fitting in
            rw (done, conclude) (inl (after, new, refl, loaded, final))
        | inr large ↦
            let refused =
              transition_refused uuid fits canonical id store op state fields clock found unfinished
                legal large in
            rw (refused, conclude)
              (settle-Ended store context (raised artifact_too_large (envelope artifact_too_large))
                last op found (inr (unfinished, ground arith, empty)))
      ]

  -- The executor, and what other tasks write meanwhile, leave the operation final, or running and
  -- without a response.
  abbrev pub Executes : (Store → Context → Store × Context × Ending) → Type 0
  Executes executor =
      (store : Store) (context : Context) (op : Operation)
      → load uuid fits store id ≡ ok op
      → is_running op.state ≡ true
      → op.response ≡ none
      → (op' : Operation) × (load uuid fits (executor store context).0 id ≡ ok op')
        × ((is_final op'.state ≡ true) ⊎ ((is_running op'.state ≡ true) × (op'.response ≡ none)))

  -- The task of a queued operation without a response ends it: however the wait for the lock, the
  -- executor or the writing of its response end, the operation is then stored in a final state, unless
  -- the last write is refused because its record without a response is over the size limit. The task
  -- starts with no mutation under way. The executor, and what other tasks write meanwhile, leave a
  -- running operation without a response final, or running without one.
  pub run-Ended :
      (store : Store) (op : Operation) (waited : Option Raised) (context : Context) (remaining : ℕ)
      (executor : Store → Context → Store × Context × Ending) (first clock last : Clock)
      → load uuid fits store id ≡ ok op
      → op.state ≡ queued
      → op.response ≡ none
      → is_unknown context ≡ false
      → Executes executor
      → Ended uuid fits id
          (run uuid fits envelope id store waited context remaining executor first clock last)
  unfolding run
  run-Ended store op (some exception) context remaining executor first clock last found fresh empty
        known executes =
      settle-Ended store context exception last op found (inr (rw fresh refl, ground arith, empty))
  run-Ended store op none context remaining executor first clock last found fresh empty known
        executes =
      let waiting : is_final op.state ≡ false = rw fresh refl in
      let ending : (code : Code)
          → Ended uuid fits id
              (settle uuid fits id store context (raised code (envelope code)) last) =
        λ code.
          settle-Ended store context (raised code (envelope code)) last op found
            (inr (waiting, ground arith, empty)) in
      elim (Fallible-cases (checkpoint context remaining)) [
        | inr (code, refused) ↦ rw (refused, run) (ending code)
        | inl (_, passed) ↦
            elim (Bool-cases (fits (saved_as (moved op running nothing first) first.saved))) [
              | inr large ↦
                  rw
                    (
                      passed,
                      transition_refused uuid fits canonical id store op running nothing first found
                          waiting (rw fresh refl) large,
                      run,
                    )
                    (ending artifact_too_large)
              | inl fitting ↦
                  let (begun, started, loaded) =
                    transition_moves uuid fits canonical id store op running nothing first found
                      waiting (rw fresh refl) fitting in
                  let (op', kept, state) =
                    executes begun context (saved_as (moved op running nothing first) first.saved)
                      loaded refl empty in
                  rw (passed, started, run)
                    (conclude-Ended (executor begun context).0 (executor begun context).1
                      (executor begun context).2 clock last op' kept state)
            ]
      ]
