-- ===== src/Tests/Contracts.antt =====
-- The contracts on concrete evidence and registers.
use zilina_eirvah_edge_impl.Prelude.{◌≡◌, inr, refl, true, false, some, [], ◌∷◌, arith}
use zilina_eirvah_edge_impl.Prelude.Exceptions.{ok}
use zilina_eirvah_edge_impl.Contracts.Actuation.{Purpose}
use zilina_eirvah_edge_impl.Contracts.Authorization.{
  require_key, command_digest, signature_of, sign, verify_evidence,
}
use zilina_eirvah_edge_impl.Contracts.Authorization.Evidence.{Proves, verify-Proves, verify-sign}
use zilina_eirvah_edge_impl.Contracts.Inspection.{
  BottleInspection, decode_inspection, encode_inspection, session_of, millis_of,
}
use zilina_eirvah_edge_impl.Contracts.Inspection.Registers.{IsExact, decode-encode}
use zilina_eirvah_edge_impl.Tests.{
  timestamps, sums, key, command, ingress_evidence, approval_evidence,
}

verify_approval :
    verify_evidence sums command approval_evidence key Purpose.approval "writer-1" 20 false ≡ ok tt
unfolding verify_evidence command_digest signature_of require_key
verify_approval = refl

verify-Proves_example :
    Proves sums command approval_evidence key Purpose.approval "writer-1" 20 false
verify-Proves_example =
    verify-Proves sums command approval_evidence key Purpose.approval "writer-1" 20 false
      verify_approval

sign_approval : sign sums command key Purpose.approval "writer-1" true 12 12 ≡ ok approval_evidence
unfolding sign command_digest signature_of require_key
sign_approval = refl

verify-sign_example :
    verify_evidence sums command approval_evidence key Purpose.approval "writer-1" 50 false ≡ ok tt
verify-sign_example =
    verify-sign sums command key Purpose.approval "writer-1" true 12 12 50 false approval_evidence
      sign_approval (omega arith) (inr (omega arith))

verify_ingress :
    verify_evidence sums command ingress_evidence key Purpose.ingress "" 20 true ≡ ok tt
unfolding verify_evidence command_digest signature_of require_key
verify_ingress = refl

abbrev inspection : BottleInspection
inspection = record {
  session = 81985529216486895;
  sequence = 17;
  bottle_id = 300;
  passed = false;
  inspected_at = 1700000000123000;
}

timestamps-IsExact : IsExact timestamps
timestamps-IsExact = record { exact = λ m h. ground (arith, h) }

decode-encode_example :
    decode_inspection timestamps (encode_inspection (some inspection)) ≡ ok (some inspection)
decode-encode_example =
    decode-encode timestamps inspection timestamps-IsExact refl (omega arith) (omega arith) refl
      (omega arith)

abbrev small : BottleInspection
small = record { session = 9; sequence = 1; bottle_id = 4; passed = true; inspected_at = 70000 }

decode_small :
    decode_inspection timestamps (0 ∷ 0 ∷ 0 ∷ 9 ∷ 1 ∷ 4 ∷ 1 ∷ 0 ∷ 0 ∷ 70 ∷ []) ≡ ok (some small)
unfolding decode_inspection session_of millis_of
decode_small = refl
