-- ===== src/Verifier/Operations/Final.antt =====
-- operations.py: the writes of the store, as steps; a final operation stays, and a request that is
-- repeated gets its operation again.
use dev_skills.Base.{
  ℕ, Bool, true, false, Option, none, some, String, ◌≡◌, refl, subst, ap, ◌∙◌, arith, eq→≡, leb,
  length, lookup, insert, lookup-insert, ◌==◌, ◌⊎◌, inl, inr, Bool-cases, Option-cases,
}
use dev_skills.Verifier.Errors.{ok, >>=-eq-ok}
use dev_skills.Verifier.Operations.{
  OperationState, is_final, Operation, Store, Update, Clock, Request, load, save, moved, transition,
  request_cancel, create, create_new, claim_request, new_operation,
}
use dev_skills.Verifier.Operations.Ends.{load-eq-ok, saved_as}

module _ (uuid : String → Option String) (fits : Operation → Bool)
    (canonical : (x key : String) → uuid x ≡ some key → uuid key ≡ some key) where
  -- the store is as before, or one open operation has a new record
  abbrev Rewritten : Store → Store → Type 0
  Rewritten store after =
      (after ≡ store)
      ⊎ ((op new : Operation) × (lookup op.operation_id store.operations ≡ some op)
          × (is_final op.state ≡ false)
          × (after.operations ≡ insert op.operation_id new store.operations))

  save_rewrites :
      (store : Store) (saved id : String) (op new done : Operation) (after : Store)
      → load uuid fits store id ≡ ok op
      → is_final op.state ≡ false
      → new.operation_id ≡ op.operation_id
      → save uuid fits store saved new ≡ ok (after, done)
      → Rewritten store after
  unfolding save
  save_rewrites store saved id op new done after found unfinished same h =
      let (named, held) = load-eq-ok uuid fits store id op found in
      let path : uuid new.operation_id ≡ some op.operation_id =
        ap uuid same ∙ canonical id op.operation_id named in
      let written = rw path at h in inr (op, saved_as new saved, held, unfinished, ground arith)

  transition_parts :
      (store : Store) (id : String) (state : OperationState) (fields : Update) (clock : Clock)
      (after : Store) (done : Operation)
      → transition uuid fits store id state fields clock ≡ ok (after, done)
      → (op : Operation) × (load uuid fits store id ≡ ok op)
        × ((after ≡ store)
            ⊎ ((is_final op.state ≡ false)
                × (save uuid fits store clock.saved (moved op state fields clock)
                    ≡ ok (after, done))))
  unfolding transition
  transition_parts store id state fields clock after done h =
      let (op, found, rest) = >>=-eq-ok (load uuid fits store id) _ h in
      elim (Bool-cases (is_final op.state)) [
        | inl closed ↦ (op, found, inl (ground arith))
        | inr unfinished ↦ (op, found, inr (unfinished, ground arith))
      ]

  cancel_parts :
      (store : Store) (id saved : String) (after : Store) (done : Operation)
      → request_cancel uuid fits store id saved ≡ ok (after, done)
      → (op : Operation) × (load uuid fits store id ≡ ok op)
        × ((after ≡ store)
            ⊎ ((is_final op.state ≡ false)
                × (save uuid fits store saved (record op { cancel_requested = true })
                    ≡ ok (after, done))))
  unfolding request_cancel
  cancel_parts store id saved after done h =
      let (op, found, rest) = >>=-eq-ok (load uuid fits store id) _ h in
      elim (Bool-cases (is_final op.state)) [
        | inl closed ↦ (op, found, inl (ground arith))
        | inr unfinished ↦ elim (Bool-cases op.cancel_requested) [
          | inl asked ↦ (op, found, inl (ground arith))
          | inr unasked ↦ (op, found, inr (unfinished, ground arith))
        ]
      ]

  keeps_final :
      (store after : Store) (key : String) (op : Operation)
      → Rewritten store after
      → lookup key store.operations ≡ some op
      → is_final op.state ≡ true
      → lookup key after.operations ≡ some op
  keeps_final store after key op (inl same) found closed = rw same found
  keeps_final store after key op (inr (old, new, held, unfinished, written)) found closed =
      rw (written, lookup-insert key old.operation_id new store.operations)
        (elim (Bool-cases (old.operation_id == key)) [
          | inl e ↦ absurd (
              ground (
                arith,
                subst (λ k. lookup k store.operations ≡ some old) (eq→≡ old.operation_id key e)
                    held,
              ))
          | inr e ↦ rw e found
        ])

  transition_rewrites :
      (store : Store) (id : String) (state : OperationState) (fields : Update) (clock : Clock)
      (after : Store) (done : Operation)
      → transition uuid fits store id state fields clock ≡ ok (after, done)
      → Rewritten store after
  transition_rewrites store id state fields clock after done h =
      let (op, found, rest) = transition_parts store id state fields clock after done h in
      elim rest [
        | inl same ↦ inl same
        | inr (unfinished, saved) ↦
            save_rewrites store clock.saved id op (moved op state fields clock) done after found
              unfinished refl saved
      ]

  cancel_rewrites :
      (store : Store) (id saved : String) (after : Store) (done : Operation)
      → request_cancel uuid fits store id saved ≡ ok (after, done)
      → Rewritten store after
  cancel_rewrites store id saved after done h =
      let (op, found, rest) = cancel_parts store id saved after done h in
      elim rest [
        | inl same ↦ inl same
        | inr (unfinished, written) ↦
            save_rewrites store saved id op (record op { cancel_requested = true }) done after found
              unfinished refl written
      ]

module _ (uuid : String → Option String) (fits : Operation → Bool) (request_key : String → String)
    (history_limit : ℕ) where
  -- A write of the store: a transition, a request to cancel, or a submission with an unused id.
  pub data Step : Store → Store → Type 0 where
    transitions :
        (store after : Store) (id : String) (state : OperationState) (fields : Update)
        (clock : Clock) (done : Operation)
        → transition uuid fits store id state fields clock ≡ ok (after, done)
        → Step store after
    cancels :
        (store after : Store) (id saved : String) (done : Operation)
        → request_cancel uuid fits store id saved ≡ ok (after, done)
        → Step store after
    submits :
        (store : Store) (request : Request) (fresh now : String)
        → lookup fresh store.operations ≡ none
        → Step store (create uuid fits request_key history_limit store request fresh now (λ s. s)).0

  pub data Steps : Store → Store → Type 0 where
    here : (store : Store) → Steps store store
    after : (store next last : Store) → Step store next → Steps next last → Steps store last

  create_writes :
      (store : Store) (request : Request) (fresh now : String)
      → ((create uuid fits request_key history_limit store request fresh now (λ s. s)).0.operations
          ≡ store.operations)
        ⊎ ((op : Operation) × ((create uuid fits request_key history_limit store request fresh now
                (λ s. s)).0.operations
              ≡ insert fresh op store.operations))
  unfolding create create_new claim_request
  create_writes store request fresh now = elim (Option-cases (uuid request.request_id)) [
    | inl none_given ↦ inl (rw (none_given, create) refl)
    | inr (request_id, given) ↦
        elim (Option-cases (lookup (request_key request_id) store.requests)) [
          | inr (existing, held) ↦ inl (rw (given, held, create) refl)
          | inl free ↦ elim (Bool-cases (leb history_limit (length store.operations))) [
            | inl full ↦ inl (rw (given, free, full, create) refl)
            | inr space ↦ elim (Bool-cases (fits (new_operation request request_id fresh now))) [
              | inl small ↦ inr (
                new_operation request request_id fresh now,
                rw (given, free, space, small, create) (rw (free, claim_request) refl),
              )
              | inr large ↦ inl (rw (given, free, space, large, create) refl)
            ]
          ]
        ]
  ]

  create_keeps :
      (store : Store) (request : Request) (fresh now key : String) (op : Operation)
      → lookup fresh store.operations ≡ none
      → lookup key store.operations ≡ some op
      → lookup key
          (create uuid fits request_key history_limit store request fresh now (λ s. s)).0.operations
        ≡ some op
  create_keeps store request fresh now key op unused found =
      elim (create_writes store request fresh now) [
        | inl same ↦ rw same found
        | inr (new, written) ↦
            rw (written, lookup-insert key fresh new store.operations)
              (elim (Bool-cases (fresh == key)) [
                | inl e ↦ absurd (
                    ground (
                      arith,
                      subst (λ k. lookup k store.operations ≡ none) (eq→≡ fresh key e) unused,
                    ))
                | inr e ↦ rw e found
              ])
      ]

  Step-keeps_final :
      (canonical : (x key : String) → uuid x ≡ some key → uuid key ≡ some key) (store next : Store)
      → Step store next
      → (key : String) (op : Operation) → lookup key store.operations ≡ some op
      → is_final op.state ≡ true
      → lookup key next.operations ≡ some op
  Step-keeps_final canonical _ _ (transitions store next id state fields clock done h) key op found
        closed =
      keeps_final uuid fits canonical store next key op
        (transition_rewrites uuid fits canonical store id state fields clock next done h) found
        closed
  Step-keeps_final canonical _ _ (cancels store next id saved done h) key op found closed =
      keeps_final uuid fits canonical store next key op
        (cancel_rewrites uuid fits canonical store id saved next done h) found closed
  Step-keeps_final canonical _ _ (submits store request fresh now unused) key op found closed =
      create_keeps store request fresh now key op unused found

  -- A final operation is never rewritten: through transitions, requests to cancel and submissions
  -- with unused ids, its file stays as it is. The canonical text of a UUID is that of itself.
  pub Steps-keep_final :
      (canonical : (x key : String) → uuid x ≡ some key → uuid key ≡ some key) (store last : Store)
      → Steps store last
      → (key : String) (op : Operation) → lookup key store.operations ≡ some op
      → is_final op.state ≡ true
      → lookup key last.operations ≡ some op
  Steps-keep_final canonical _ _ (here store) key op found closed = found
  Steps-keep_final canonical _ _ (after store next last step rest) key op found closed =
      Steps-keep_final canonical next last rest key op
        (Step-keeps_final canonical store next step key op found closed) closed
