-- ===== src/Tests/Receipts.antt =====
-- The receipt of one inspection.
use zilina_eirvah_edge_impl.Prelude.{◌+◌, ◌≡◌, ◌↔◌, true}
use zilina_eirvah_edge_impl.Prelude.Exceptions.{ok}
use zilina_eirvah_edge_impl.Contracts.Inspection.{BottleInspection}
use zilina_eirvah_edge_impl.Contracts.Inspection.Receipts.{
  InspectionReceipt, ReceiptCrypto, receipt_for, sign_receipt, verify_receipt, verify_receipt_iff,
}
use zilina_eirvah_edge_impl.Tests.{key}

abbrev crypto : ReceiptCrypto
crypto = record {
  digest = λ e. e.session + e.bottle_id;
  hmac = λ key session sequence digest consumer. session + sequence + digest;
}

abbrev event : BottleInspection
event = record { session = 9; sequence = 4; bottle_id = 31; passed = true; inspected_at = 5000 }

abbrev receipt : InspectionReceipt
receipt = receipt_for crypto event key "decision-agent-stub"

verify_receipt_iff_example :
    (verify_receipt crypto receipt event key "decision-agent-stub" ≡ ok tt)
    ↔ (sign_receipt crypto event key "decision-agent-stub" ≡ ok receipt)
verify_receipt_iff_example = verify_receipt_iff crypto receipt event key "decision-agent-stub"
