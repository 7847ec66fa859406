-- ===== src/Tests/Validator.antt =====
-- The validator on a command that its policy permits.
use zilina_eirvah_edge_impl.Prelude.{ℕ, ◌≡◌, ◌↔◌, refl, none, some, [], ◌∷◌}
use zilina_eirvah_edge_impl.Prelude.Exceptions.{Result, ok}
use zilina_eirvah_edge_impl.Prelude.Dict.{Dict}
use zilina_eirvah_edge_impl.Contracts.Actuation.{Decision, ValidationResult}
use zilina_eirvah_edge_impl.Contracts.Authorization.{
  AuthenticatedRequest, require_key, command_digest, signature_of, sign, verify_evidence,
}
use zilina_eirvah_edge_impl.Contracts.Envelope.{Status, NatsEnvelope, Incoming}
use zilina_eirvah_edge_impl.Validator.{
  NodePolicy, Settings, Readings, validate_request, approval_result, decide, handle, to_float,
}
use zilina_eirvah_edge_impl.Validator.Policy.{Permitted, validate_request_iff}
use zilina_eirvah_edge_impl.Validator.Worker.{Approved, handle-approves}
use zilina_eirvah_edge_impl.Tests.{
  naturals, sums, key, command, ingress_evidence, approval_evidence, motor_policy,
}

abbrev policies : Dict (NodePolicy ℕ)
policies = ("plant/motor/speed", motor_policy) ∷ []

validate_request_iff_example :
    ((r : ValidationResult) × (validate_request naturals command policies ≡ ok r)
      × (r.decision ≡ Decision.approve))
    ↔ Permitted naturals command policies
validate_request_iff_example = validate_request_iff naturals command policies

abbrev older_policy : NodePolicy ℕ
older_policy = record motor_policy { allowed_range = (0, 30) }

abbrev settings : Settings
settings = record { ingress_key = key; approval_key = key; approved_writer = "writer-1" }

abbrev times : Readings
times = record { verified = 12; issued = 12; signed = 13 }

abbrev message : Incoming (AuthenticatedRequest ℕ)
message = record {
  correlation_id = 7;
  status = Status.ok;
  error = none;
  payload = ok (record { command = command; identity = ingress_evidence });
}

abbrev approval : NatsEnvelope ValidationResult
approval = record {
  correlation_id = 7;
  status = Status.ok;
  payload = some (approval_result (some approval_evidence));
  error = none;
}

handle-message : handle naturals sums settings policies times (ok tt) (ok message) ≡ ok approval
unfolding handle decide validate_request to_float sign verify_evidence command_digest signature_of
    require_key
handle-message = refl

handle-approves_example :
    (env : Incoming (AuthenticatedRequest ℕ)) × (Result.ok message ≡ ok env)
    × Approved naturals sums settings policies times env (approval_result (some approval_evidence))
handle-approves_example =
    handle-approves naturals sums settings policies times (ok tt) (ok message) approval
      (approval_result (some approval_evidence)) handle-message refl refl
