-- ===== src/Validator.antt =====
-- services/actuation-event-validator/src/actuation_event_validator/service.py: the policy check of a
-- command, and the worker that answers on act.work.validate. A message is given as what its parts
-- validate to; `recorded` is what the journal of evidence returns.
pub mod Policy
pub mod Worker
use Prim.Native.String.{◌++◌ as ◌<>◌}
use zilina_eirvah_edge_impl.Prelude.{
  ℕ, String, Bool, true, false, not, ◌&&◌, ◌||◌, Option, none, some, List, [], ◌∷◌, ◌==◌,
  if◌then◌else◌, is_some,
}
use zilina_eirvah_edge_impl.Prelude.Exceptions.{Exc, exc_name, Result, ok, err, ◌>>=◌, ◌>>◌}
use zilina_eirvah_edge_impl.Prelude.Numbers.{ℤ, pos, Floats, Value, double, int, bool, str}
use zilina_eirvah_edge_impl.Prelude.Dict.{Dict, lookup, insert, contains}
use zilina_eirvah_edge_impl.Contracts.Actuation.{
  ActuationRequest, SignedEvidence, Purpose, SignalValueType, Decision, ReasonCode,
  ValidationResult,
}
use zilina_eirvah_edge_impl.Contracts.Authorization.{
  Crypto, AuthenticatedRequest, sign_approval, verify_evidence,
}
use zilina_eirvah_edge_impl.Contracts.Envelope.{Status, NatsEnvelope, Incoming, envelope}

pub record NodePolicy (F : Type 0) : Type 0 where
  pub uns_topic : String
  pub allowed_range : F × F
  pub allowlist : List String
  pub value_type : SignalValueType

-- {p.uns_topic: p for p in cfg.policies}, from the entries that are in already
abbrev pub add_policies :
    {F : Type 0} → List (NodePolicy F) → Dict (NodePolicy F) → Dict (NodePolicy F)
add_policies [] d = d
add_policies (p ∷ ps) d = add_policies ps (insert p.uns_topic p d)

-- load_policy, of the list that the file validates to
unfoldable pub load_policy : {F : Type 0} → List (NodePolicy F) → Dict (NodePolicy F)
load_policy ps = add_policies ps []

abbrev pub same_type : SignalValueType → SignalValueType → Bool
same_type SignalValueType.double_type SignalValueType.double_type = true
same_type SignalValueType.int64_type SignalValueType.int64_type = true
same_type SignalValueType.bool_type SignalValueType.bool_type = true
same_type SignalValueType.string_type SignalValueType.string_type = true
same_type _ _ = false

-- The type test of a value against a policy's type: a text type passes for no value.
abbrev pub has_type : {F : Type 0} → SignalValueType → Value F → Bool
has_type SignalValueType.bool_type (bool b) = true
has_type SignalValueType.int64_type (int n) = true
has_type SignalValueType.double_type (int n) = true
has_type SignalValueType.double_type (double x) = true
has_type _ _ = false

abbrev pub rejection : String → ReasonCode → ValidationResult
rejection reason code = record {
  decision = Decision.reject;
  reason = some reason;
  reason_code = some code;
  approval = none;
}

abbrev pub approval_result : Option SignedEvidence → ValidationResult
approval_result e = record {
  decision = Decision.approve;
  reason = none;
  reason_code = none;
  approval = e;
}

pub record Settings : Type 0 where
  pub ingress_key : String
  pub approval_key : String
  pub approved_writer : String

-- The readings of the clock in `_handle`: for the check of the ingress evidence, for the issue of
-- the approval and for its deadline.
pub record Readings : Type 0 where
  pub verified : ℕ
  pub issued : ℕ
  pub signed : ℕ

-- An approval is signed, and what signing raises is raised; a rejection stays as it is.
abbrev pub attach : Decision → Result SignedEvidence → ValidationResult → Result ValidationResult
attach Decision.reject signed r = ok r
attach Decision.approve signed r = signed >>= λ e. ok (record r { approval = some e })

module _ (floats : Floats) where
  open floats use {Float, of_int, parse, le, is_finite, show, repr}

  abbrev pub or_overflow : Option Float → Result Float
  or_overflow none = err (Exc.other_error "OverflowError")
  or_overflow (some x) = ok x

  -- float(value)
  unfoldable pub to_float : Value Float → Result Float
  to_float (double x) = ok x
  to_float (int n) = or_overflow (of_int n)
  to_float (bool true) = or_overflow (of_int (pos 1))
  to_float (bool false) = or_overflow (of_int (pos 0))
  to_float (str s) = elim (parse s) [
    | none ↦ err (Exc.value_error "could not convert string to float")
    | some x ↦ ok x
  ]

  -- lo <= value <= hi, of a finite value
  abbrev pub in_range : Float × Float → Float → Bool
  in_range r x = is_finite x && (le r.0 x && le x r.1)

  abbrev pub check_range : Float × Float → Float → ValidationResult
  check_range r x =
      if not (in_range r x)
      then rejection
          ("value " <> show x <> " outside policy range [" <> show r.0 <> ", " <> show r.1 <> "]")
          ReasonCode.out_of_range
      else approval_result none

  -- The `try` around float(): TypeError and ValueError are a rejection, OverflowError is raised.
  abbrev pub numeric : Float × Float → Result Float → Result ValidationResult
  numeric r (ok x) = ok (check_range r x)
  numeric r (err (Exc.value_error m)) =
      ok (rejection "requested_value is not numeric" ReasonCode.not_numeric)
  numeric r (err Exc.type_error) =
      ok (rejection "requested_value is not numeric" ReasonCode.not_numeric)
  numeric r (err e) = err e

  abbrev pub check_policy :
      ActuationRequest Float → Option (NodePolicy Float) → Result ValidationResult
  check_policy req none =
      ok (rejection ("no policy for topic " <> repr req.target_uns_topic) ReasonCode.no_policy)
  check_policy req (some p) =
      if not (contains req.requester p.allowlist)
      then ok (
          rejection ("requester " <> repr req.requester <> " not in allowlist")
            ReasonCode.not_allowlisted)
      else if not
          (same_type req.value_type p.value_type && has_type p.value_type req.requested_value)
      then ok (rejection "requested_value has wrong type" ReasonCode.not_numeric)
      else numeric p.allowed_range (to_float req.requested_value)

  -- validate_request
  unfoldable pub validate_request :
      ActuationRequest Float → Dict (NodePolicy Float) → Result ValidationResult
  validate_request req policies = check_policy req (lookup req.target_uns_topic policies)

  module _ (crypto : Crypto Float) (settings : Settings) (policies : Dict (NodePolicy Float)) where
    abbrev pub attach_approval :
        ActuationRequest Float → Readings → ValidationResult → Result ValidationResult
    attach_approval req t r =
        attach r.decision
          (sign_approval crypto req settings.approval_key settings.approved_writer true t.issued
            t.signed)
          r

    -- The body of the `try` up to the reply.
    unfoldable pub decide :
        Readings
        → Result (Unit {0})
        → Incoming (AuthenticatedRequest Float)
        → Result ValidationResult
    decide t recorded env = env.payload >>= λ authenticated.
        let req = authenticated.command in
        if not (req.correlation_id == env.correlation_id)
        then err (Exc.value_error "command envelope identity mismatch")
        else (verify_evidence crypto req authenticated.identity settings.ingress_key Purpose.ingress
              "" t.verified true
            >> (validate_request req policies >>= λ r.
                attach_approval req t r >>= λ r'. recorded >> ok r'))

    -- The reply, or the `except` block: the reply for an exception is built outside the `try`.
    abbrev pub reply_of :
        Option ℕ → Result ValidationResult → Result (NatsEnvelope ValidationResult)
    reply_of id (ok r) = envelope id Status.ok (some r) none
    reply_of id (err e) = envelope id Status.error none (some (exc_name e))

    -- ValidatorWorker._handle: the reply, or an exception that leaves the request without one.
    unfoldable pub handle :
        Readings
        → Result (Unit {0})
        → Result (Incoming (AuthenticatedRequest Float))
        → Result (NatsEnvelope ValidationResult)
    handle t recorded (err e) = reply_of none (err e)
    handle t recorded (ok env) = reply_of (some env.correlation_id) (decide t recorded env)
