-- ===== src/Tests.antt =====
-- Concrete inputs for the tests: floating-point numbers as natural numbers, sums for hashes, a
-- plant with one motor, and an environment in which every call succeeds.
pub mod Ledger
pub mod Writer
pub mod Validator
pub mod Agent
pub mod Recovery
pub mod Orchestrator
pub mod Contracts
pub mod Controls
pub mod Plant
pub mod Telemetry
pub mod Ingress
pub mod Observability
pub mod Mode
pub mod Receipts
pub mod Inspections
use zilina_eirvah_edge_impl.Prelude.{
  ℕ, suc, zero, ◌+◌, ◌*◌, ◌≡◌, refl, String, Bool, true, false, Option, none, some, List, [], ◌∷◌,
  leb, ◌==◌, if◌then◌else◌,
}
use zilina_eirvah_edge_impl.Prelude.Exceptions.{Exc, Result, ok, err}
use zilina_eirvah_edge_impl.Prelude.Numbers.{ℤ, pos, negsuc, Floats, Value, int}
use zilina_eirvah_edge_impl.Prelude.Dict.{Dict}
use zilina_eirvah_edge_impl.Contracts.Actuation.{
  ActuationRequest, SignedEvidence, Purpose, SignalValueType, Datetime,
}
use zilina_eirvah_edge_impl.Contracts.Authorization.{Crypto, AuthenticatedRequest}
use zilina_eirvah_edge_impl.Contracts.Inspection.{Timestamps}
use zilina_eirvah_edge_impl.Validator.{NodePolicy}

abbrev whole : ℤ → Option ℕ
whole (pos n) = some n
whole (negsuc n) = none

abbrev is_same : ℕ → ℤ → Bool
is_same x (pos n) = x == n
is_same x (negsuc n) = false

abbrev pub naturals : Floats
naturals = record {
  Float = ℕ;
  of_int = whole;
  parse = λ _. none;
  le = leb;
  is_finite = λ _. true;
  times = λ x n. x * n;
  round = pos;
  is_close = is_same;
  show = λ _. "number";
  repr = λ s. s;
}

abbrev purpose_number : Purpose → ℕ
purpose_number Purpose.ingress = 1
purpose_number Purpose.approval = 2

abbrev pub sums : Crypto ℕ
sums = record {
  sha256 = λ c. some (c.correlation_id + 100);
  hmac = λ key purpose digest writer issued. purpose_number purpose + digest + issued;
}

abbrev pub key : String
key = "0123456789abcdef0123456789abcdef"

abbrev pub command : ActuationRequest ℕ
command = record {
  correlation_id = 7;
  requester = "planner";
  target_uns_topic = "plant/motor/speed";
  requested_value = int (pos 40);
  value_type = SignalValueType.int64_type;
  reason = "rate";
  requested_at = record { at = 10; aware = true };
  extra = [];
  deadline = some (record { at = 50; aware = true });
}

abbrev pub ingress_evidence : SignedEvidence
ingress_evidence = record {
  purpose = Purpose.ingress;
  command_digest = 107;
  writer = "";
  issued_at = 11;
  signature = 119;
}

abbrev pub approval_evidence : SignedEvidence
approval_evidence = record {
  purpose = Purpose.approval;
  command_digest = 107;
  writer = "writer-1";
  issued_at = 12;
  signature = 121;
}

abbrev pub motor_policy : NodePolicy ℕ
motor_policy = record {
  uns_topic = "plant/motor/speed";
  allowed_range = (0, 100);
  allowlist = "planner" ∷ [];
  value_type = SignalValueType.int64_type;
}

-- The times of whole milliseconds, up to the year 9999
abbrev pub timestamps : Timestamps
timestamps = record {
  from_millis = λ m.
      if leb m 253402300799999 then ok (m * 1000) else err (Exc.value_error "year is out of range");
}
