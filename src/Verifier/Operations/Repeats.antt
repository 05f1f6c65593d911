-- ===== src/Verifier/Operations/Repeats.antt =====
-- operations.py: a request id that is submitted again.
use dev_skills.Base.{
  ℕ, Bool, true, false, Option, some, String, ◌≡◌, ◌≢◌, refl, arith, eq_refl, if◌then◌else◌, lookup,
  insert, lookup-insert, ◌==◌, inl, inr, Option-cases,
}
use dev_skills.Verifier.Errors.{ok, err, operation_request_conflict}
use dev_skills.Verifier.Operations.{
  Operation, Store, Index, Request, create, create_new, claim_request, repeated, new_operation,
  new_index,
}
use dev_skills.Verifier.Operations.Ends.{load_found}

module _ (uuid : String → Option String) (fits : Operation → Bool) (request_key : String → String)
    (history_limit : ℕ) where
  not_repeated :
      (store : Store) (existing : Index) (fingerprint : String) (op : Operation)
      → repeated uuid fits request_key history_limit store existing fingerprint ≢ ok (op, true)
  unfolding repeated
  not_repeated store existing fingerprint op h = ground arith

  -- what a submission that created its operation has written
  abbrev Created : Store → Request → String → String → (Store → Store) → Store → Operation → Type 0
  Created store request fresh now others after op =
      (request_id : String) × (uuid request.request_id ≡ some request_id)
      × (op ≡ new_operation request request_id fresh now)
      × (lookup (request_key request_id) after.requests ≡ some (new_index request request_id fresh))
      × (after.operations
          ≡ (others (record store { operations = insert fresh op store.operations })).operations)

  claim-Created :
      (store : Store) (request : Request) (request_id fresh : String) (made op : Operation)
      (after : Store)
      → claim_request uuid fits request_key history_limit store request request_id fresh made
        ≡ (after, ok (op, true))
      → (op ≡ made)
        × (lookup (request_key request_id) after.requests
            ≡ some (new_index request request_id fresh))
        × (after.operations ≡ store.operations)
  unfolding claim_request
  claim-Created store request request_id fresh made op after h =
      elim (Option-cases (lookup (request_key request_id) store.requests)) [
        | inr (existing, held) ↦
            absurd (not_repeated store existing request.request_fingerprint op (ground arith))
        | inl free ↦ ground (
          arith,
          eq_refl (request_key request_id),
          lookup-insert (request_key request_id) (request_key request_id)
              (new_index request request_id fresh) store.requests,
        )
      ]

  -- a submission that created its operation went through every test
  create_parts :
      (store : Store) (request : Request) (fresh now : String) (others : Store → Store)
      (after : Store) (op : Operation)
      → create uuid fits request_key history_limit store request fresh now others
        ≡ (after, ok (op, true))
      → (request_id : String) × (uuid request.request_id ≡ some request_id)
        × (claim_request uuid fits request_key history_limit
              (others (record store {
                operations =
                    insert fresh (new_operation request request_id fresh now) store.operations;
              }))
              request
              request_id
              fresh
              (new_operation request request_id fresh now)
            ≡ (after, ok (op, true)))
  unfolding create create_new
  create_parts store request fresh now others after op h =
      elim (Option-cases (uuid request.request_id)) [
        | inl e ↦ absurd (ground arith)
        | inr (request_id, given) ↦
            elim (Option-cases (lookup (request_key request_id) store.requests)) [
              | inr (existing, held) ↦
                  absurd (not_repeated store existing request.request_fingerprint op (ground arith))
              | inl free ↦ (request_id, given, ground arith)
            ]
      ]

  -- A request id that is submitted again, once its operation was created, creates nothing: with the
  -- same fingerprint it gets that operation, with another one the conflict, and the store stays.
  -- The new id is a UUID that no other writer touches meanwhile.
  pub create-create :
      (store : Store) (request again : Request) (fresh now fresh' now' : String)
      (others others' : Store → Store) (after : Store) (op : Operation)
      → create uuid fits request_key history_limit store request fresh now others
        ≡ (after, ok (op, true))
      → uuid again.request_id ≡ uuid request.request_id
      → uuid fresh ≡ some fresh
      → ((s : Store) → lookup fresh (others s).operations ≡ lookup fresh s.operations)
      → create uuid fits request_key history_limit after again fresh' now' others' ≡ (
        after,
        if request.request_fingerprint == again.request_fingerprint
            then ok (op, false)
            else err operation_request_conflict,
      )
  unfolding create repeated
  create-create store request again fresh now fresh' now' others others' after op h same canonical
        apart =
      let (request_id, given, claimed) = create_parts store request fresh now others after op h in
      let made = new_operation request request_id fresh now in
      let before : Store = record store { operations = insert fresh made store.operations } in
      let (is_made, indexed, kept) =
        claim-Created (others before) request request_id fresh made op after claimed in
      let found : lookup fresh after.operations ≡ some op =
        rw
          (
            kept,
            apart before,
            lookup-insert fresh fresh made store.operations,
            eq_refl fresh,
            is_made,
          )
          refl in
      let loaded = load_found uuid fits after fresh made canonical (rw is_made at found) in
      rw (same, given, indexed, create, loaded, is_made) (ground arith)
