-- ===== src/Contracts/Inspection/Receipts.antt =====
-- libs/eirvah-contracts, inspection.py: the receipt of an inspection. SHA-256 and HMAC are the parameter
-- `ReceiptCrypto`, each applied to the canonical text of its arguments.
use text.Mathlib.Text.{◌==◌ as str_eq}
use text.Mathlib.TextEquality.{eq_iff}
use zilina_eirvah_edge_impl.Prelude.{
  ℕ, ◌≡◌, ◌↔◌, ap, ◌∙◌, String, Bool, not, ◌&&◌, ◌||◌, ◌==◌, if◌then◌else◌, arith,
}
use zilina_eirvah_edge_impl.Prelude.Exceptions.{Exc, Result, ok, err, ◌>>=◌, >>=-inv}
use zilina_eirvah_edge_impl.Contracts.Authorization.{require_key}
use zilina_eirvah_edge_impl.Contracts.Inspection.{BottleInspection}

-- InspectionReceipt; the identity is its session and its sequence.
pub record InspectionReceipt : Type 0 where
  pub session : ℕ
  pub sequence : ℕ
  pub event_digest : ℕ
  pub consumer : String
  pub signature : ℕ

pub record ReceiptCrypto : Type 0 where
  -- inspection_digest: SHA-256 of the inspection with its time in UTC
  pub digest : BottleInspection → ℕ
  -- HMAC-SHA-256 under a key, of a receipt without its signature
  pub hmac : String → ℕ → ℕ → ℕ → String → ℕ

module _ (crypto : ReceiptCrypto) where
  abbrev pub receipt_for : BottleInspection → String → String → InspectionReceipt
  receipt_for event key consumer = record {
    session = event.session;
    sequence = event.sequence;
    event_digest = crypto.digest event;
    consumer = consumer;
    signature = crypto.hmac key event.session event.sequence (crypto.digest event) consumer;
  }

  -- sign_receipt
  unfoldable pub sign_receipt : BottleInspection → String → String → Result InspectionReceipt
  sign_receipt event key consumer = require_key key >>= λ k. ok (receipt_for event k consumer)

  -- The receipt is the expected one, but for the signature.
  abbrev pub same_body : InspectionReceipt → InspectionReceipt → Bool
  same_body a b =
      a.session == b.session
      && (a.sequence == b.sequence
          && (a.event_digest == b.event_digest && str_eq a.consumer b.consumer))

  abbrev pub compare_receipt : InspectionReceipt → InspectionReceipt → Result (Unit {0})
  compare_receipt receipt expected =
      if not (same_body receipt expected) || not (receipt.signature == expected.signature)
      then err (Exc.value_error "invalid inspection receipt")
      else ok tt

  -- verify_receipt
  unfoldable pub verify_receipt :
      InspectionReceipt → BottleInspection → String → String → Result (Unit {0})
  verify_receipt receipt event key consumer =
      sign_receipt event key consumer >>= compare_receipt receipt

  compare_receipt-same :
      (receipt expected : InspectionReceipt)
      → compare_receipt receipt expected ≡ ok tt
      → expected ≡ receipt
  compare_receipt-same receipt expected h =
      ground (arith, h, eq_iff receipt.consumer expected.consumer)

  compare_receipt_refl : (receipt : InspectionReceipt) → compare_receipt receipt receipt ≡ ok tt
  compare_receipt_refl receipt = ground (arith, eq_iff receipt.consumer receipt.consumer)

  -- A receipt is accepted for an inspection, a key and a consumer exactly when it is the one that is
  -- signed for them.
  pub verify_receipt_iff :
      (receipt : InspectionReceipt) (event : BottleInspection) (key consumer : String)
      → (verify_receipt receipt event key consumer ≡ ok tt)
        ↔ (sign_receipt event key consumer ≡ ok receipt)
  unfolding verify_receipt
  verify_receipt_iff receipt event key consumer = (
    λ h.
        let (expected, e, f) =
          >>=-inv (sign_receipt event key consumer) (compare_receipt receipt) tt h in
        e ∙ ap ok (compare_receipt-same receipt expected f),
    λ h. rw h (compare_receipt_refl receipt),
  )
