-- ===== src/Verifier/Risk.antt =====
-- skills/electron-ui-verifier/scripts/electron_verifier/risk_authorization.py: receipts for actions
-- with a risk. The four directories are dicts of typed records under file names; the UUID parser, the
-- digests, fresh ids and the time are arguments. Files that cannot be written or read are left out.
pub mod Linked
pub mod Calls
pub mod Once
use dev_skills.Base.{
  ℕ, ◌+◌, Bool, true, false, not, ◌&&◌, ◌||◌, Option, none, some, String, List, [], ◌∷◌, ◌++◌, ◌==◌,
  nat_eq, leb, ltb, if◌then◌else◌, is_empty, length, mem, select, Dict, lookup, insert, codes,
  is_space,
}
use dev_skills.Verifier.Errors.{
  Result, ok, err, ◌>>=◌, ◌>>◌, require, require_some, risk_authorization_invalid,
  risk_authorization_not_found, risk_authorization_mismatch, risk_authorization_expired,
  risk_authorization_note_required, risk_authorization_conflict, risk_authorization_required,
  risk_authorization_not_required, risk_authorization_consumed,
}

-- a risk by its code
pub data Risk : Type 0 where
  css_fallback coordinate_action : Risk
  explicit_nth : ℕ → Risk

abbrev learnable : Risk → Bool
learnable css_fallback = true
learnable _ = false

abbrev pub is_risk : Risk → Risk → Bool
is_risk css_fallback css_fallback = true
is_risk coordinate_action coordinate_action = true
is_risk (explicit_nth m) (explicit_nth n) = nat_eq m n
is_risk _ _ = false

abbrev pub are_risks : List Risk → List Risk → Bool
are_risks [] [] = true
are_risks (r ∷ l) (s ∷ m) = is_risk r s && are_risks l m
are_risks _ _ = false

pub record Locator : Type 0 where
  pub strategy : String
  pub nth : Option ℕ

-- `locator_risks` of locators.py
unfoldable pub locator_risks : Option Locator → List Risk
locator_risks none = []
locator_risks (some locator) =
    (if locator.strategy == "css" then css_fallback ∷ [] else [])
    ++ (elim locator.nth [ none ↦ [] | some n ↦ explicit_nth n ∷ [] ])

-- MUTATING_ACTIONS
abbrev mutating_actions : List String
mutating_actions =
    "click" ∷ "doubleClick" ∷ "fill" ∷ "select" ∷ "check" ∷ "uncheck" ∷ "press" ∷ "keyChord" ∷ []

-- At most one risk is left, so that the sort of the source has nothing to do.
unfoldable pub authorization_risks : String → Option Locator → List Risk
authorization_risks action_type locator =
    if not (mem action_type mutating_actions)
    then []
    else select (λ risk. not (learnable risk)) (locator_risks locator) ++ (elim locator [
      | some l ↦ []
      | none ↦ if mem action_type ("click" ∷ "doubleClick" ∷ []) then coordinate_action ∷ [] else []
    ])

-- what a receipt is bound to
pub record Binding : Type 0 where
  pub run_id : String
  pub action_digest : String
  pub target_identity : String
  pub risks : List Risk

abbrev pub is_binding : Binding → Binding → Bool
is_binding a b =
    a.run_id == b.run_id
    && a.action_digest == b.action_digest
    && a.target_identity == b.target_identity
    && are_risks a.risks b.risks

pub record Preview : Type 0 where
  pub preview_id : String
  pub binding : Binding
  pub created_at : ℕ
  pub expire_at : ℕ
  pub fingerprint : String

pub record Approval : Type 0 where
  pub preview_id : String
  pub fingerprint : String
  pub note_digest : String
  pub receipt_id : String
  pub approved_at : ℕ

pub record RiskReceipt : Type 0 where
  pub receipt_id : String
  pub preview_id : String
  pub binding : Binding
  pub approved_at : ℕ
  pub expire_at : ℕ
  pub note_digest : String

pub record Marker : Type 0 where
  pub receipt_id : String
  pub consumed_at : ℕ

pub record Store : Type 0 where
  pub previews : Dict Preview
  pub approvals : Dict Approval
  pub receipts : Dict RiskReceipt
  pub consumed : Dict Marker

-- RECEIPT_TTL_SECONDS, in microseconds
abbrev receipt_ttl : ℕ
receipt_ttl = 600_000_000

abbrev drop_spaces : List ℕ → List ℕ
drop_spaces [] = []
drop_spaces (c ∷ l) = let rest = drop_spaces l in if is_space c then rest else c ∷ l

abbrev reversed : List ℕ → List ℕ
reversed [] = []
reversed (c ∷ l) = reversed l ++ c ∷ []

-- `note.strip()`, by its code points
unfoldable pub stripped : String → List ℕ
stripped note = reversed (drop_spaces (reversed (drop_spaces (codes note))))

abbrev is_receipt : RiskReceipt → RiskReceipt → Bool
is_receipt a b =
    a.receipt_id == b.receipt_id
    && a.preview_id == b.preview_id
    && is_binding a.binding b.binding
    && nat_eq a.approved_at b.approved_at
    && nat_eq a.expire_at b.expire_at
    && a.note_digest == b.note_digest

module _ (uuid : String → Option String) (fingerprint_of : Binding → ℕ → ℕ → String → String)
    (note_digest_of : List ℕ → String) where
  abbrev pub new_preview : Binding → String → ℕ → Preview
  new_preview binding fresh now = record {
    preview_id = fresh;
    binding = binding;
    created_at = now;
    expire_at = now + receipt_ttl;
    fingerprint = fingerprint_of binding now (now + receipt_ttl) fresh;
  }

  unfoldable pub preview : Store → Binding → String → ℕ → Store × Result Preview
  preview store binding fresh now = elim (is_empty binding.risks) [
    | true ↦ (store, err risk_authorization_not_required)
    | false ↦ (
      record store { previews = insert fresh (new_preview binding fresh now) store.previews },
      ok (new_preview binding fresh now),
    )
  ]

  -- the checks of `approve` before it writes: the preview, and the digest of the note
  unfoldable pub check_approval :
      Store → String → String → String → ℕ → Result (Preview × String × String)
  check_approval store preview_id fingerprint note now = do
    normalized ← require_some (uuid preview_id) risk_authorization_invalid
    found ← require_some (lookup normalized store.previews) risk_authorization_not_found
    require (found.fingerprint == fingerprint) risk_authorization_mismatch
    require (ltb now found.expire_at) risk_authorization_expired
    require (not (is_empty (stripped note)) && leb (length (stripped note)) 500)
        risk_authorization_note_required
    ok (found, normalized, note_digest_of (stripped note))

  abbrev pub new_approval : String → String → String → String → ℕ → Approval
  new_approval preview_id fingerprint note_digest fresh now = record {
    preview_id = preview_id;
    fingerprint = fingerprint;
    note_digest = note_digest;
    receipt_id = fresh;
    approved_at = now;
  }

  -- the approval of the preview, the first that is written, and the id of its receipt
  unfoldable pub settle_approval : Store → String → Approval → Store × Result (Approval × String)
  settle_approval store normalized approval = elim (lookup normalized store.approvals) [
    | none ↦ (
      record store { approvals = insert normalized approval store.approvals },
      ok (approval, approval.receipt_id),
    )
    | some held ↦ (
      store,
      do
        require
            (held.fingerprint == approval.fingerprint && held.note_digest == approval.note_digest)
            risk_authorization_conflict
        receipt_id ← require_some (uuid held.receipt_id) risk_authorization_invalid
        ok (held, receipt_id),
    )
  ]

  abbrev pub risk_receipt_of : Preview → String → Approval → String → String → RiskReceipt
  risk_receipt_of found normalized approval receipt_id note_digest = record {
    receipt_id = receipt_id;
    preview_id = normalized;
    binding = found.binding;
    approved_at = approval.approved_at;
    expire_at = found.expire_at;
    note_digest = note_digest;
  }

  unfoldable pub issue : Store → RiskReceipt → Store × Result RiskReceipt
  issue store receipt = elim (lookup receipt.receipt_id store.receipts) [
    | none ↦
        (record store { receipts = insert receipt.receipt_id receipt store.receipts }, ok receipt)
    | some existing ↦
        (store, do require (is_receipt existing receipt) risk_authorization_conflict; ok receipt)
  ]

  unfoldable pub approve :
      Store → String → String → String → String → ℕ → Store × Result RiskReceipt
  approve store preview_id fingerprint note fresh now =
      elim (check_approval store preview_id fingerprint note now) [
        | err error ↦ (store, err error)
        | ok (found, normalized, note_digest) ↦
            let settled =
              settle_approval store normalized
                (new_approval normalized fingerprint note_digest fresh now) in
            elim settled.1 [
              | err error ↦ (settled.0, err error)
              | ok (approval, receipt_id) ↦
                  issue settled.0 (risk_receipt_of found normalized approval receipt_id note_digest)
            ]
      ]

  -- the checks of `consume` on a receipt id that is not empty
  unfoldable pub check_risk_receipt : Store → String → Binding → ℕ → Result (String × RiskReceipt)
  check_risk_receipt store receipt_id expected now = do
    normalized ← require_some (uuid receipt_id) risk_authorization_invalid
    receipt ← require_some (lookup normalized store.receipts) risk_authorization_not_found
    require (is_binding receipt.binding expected) risk_authorization_mismatch
    require (ltb now receipt.expire_at) risk_authorization_expired
    ok (normalized, receipt)

  abbrev has_id : Option String → Bool
  has_id none = false
  has_id (some id) = not (id == "")

  unfoldable pub spend : Store → String → ℕ → Store × Result (Option String)
  spend store normalized now = elim (lookup normalized store.consumed) [
    | some marker ↦ (store, err risk_authorization_consumed)
    | none ↦ (
      record store {
        consumed =
            insert normalized (record { receipt_id = normalized; consumed_at = now })
              store.consumed;
      },
      ok (some normalized),
    )
  ]

  -- the id of the receipt that it spent, or `none` for an action without a risk
  unfoldable pub consume : Store → Option String → Binding → ℕ → Store × Result (Option String)
  consume store receipt_id expected now = elim (is_empty expected.risks) [
    | true ↦ (store, if has_id receipt_id then err risk_authorization_not_required else ok none)
    | false ↦ elim receipt_id [
      | none ↦ (store, err risk_authorization_required)
      | some id ↦
          if id == ""
          then (store, err risk_authorization_required)
          else (elim (check_risk_receipt store id expected now) [
            | err error ↦ (store, err error)
            | ok (normalized, receipt) ↦ spend store normalized now
          ])
    ]
  ]
