-- ===== src/Validator/Worker.antt =====
-- actuation-event-validator, ValidatorWorker._handle: what an approval by the worker means.
use zilina_eirvah_edge_impl.Prelude.{ℕ, ◌≤◌, ◌≡◌, inr, refl, true, false, some, arith, ◌==◌}
use mathlib.Core.Path.{subst}
use zilina_eirvah_edge_impl.Prelude.Exceptions.{Result, ok, err, >>=-inv, check-inv}
use zilina_eirvah_edge_impl.Prelude.Numbers.{Floats}
use zilina_eirvah_edge_impl.Prelude.Dict.{Dict}
use zilina_eirvah_edge_impl.Contracts.Actuation.{
  SignedEvidence, Purpose, Decision, ValidationResult,
}
use zilina_eirvah_edge_impl.Contracts.Authorization.{Crypto, AuthenticatedRequest, verify_evidence}
use zilina_eirvah_edge_impl.Contracts.Authorization.Evidence.{
  Proves, verify-Proves, verify-sign, InTime,
}
use zilina_eirvah_edge_impl.Contracts.Envelope.{NatsEnvelope, Incoming}
use zilina_eirvah_edge_impl.Validator.{
  NodePolicy, Settings, Readings, validate_request, attach, attach_approval, decide, handle,
}
use zilina_eirvah_edge_impl.Validator.Policy.{Permitted, validate_request_iff}

attach-inv :
    (d : Decision) (signed : Result SignedEvidence) (r r' : ValidationResult)
    → attach d signed r ≡ ok r'
    → r.decision ≡ d
    → r'.decision ≡ Decision.approve
    → (e : SignedEvidence) × (d ≡ Decision.approve) × (r'.approval ≡ some e) × (signed ≡ ok e)
attach-inv Decision.approve (ok e) r r' h d a = (e, refl, ground arith, refl)
attach-inv Decision.approve (err x) r r' h d a = absurd (cc)
attach-inv Decision.reject signed r r' h d a = absurd (ground arith)

module _ (floats : Floats) (crypto : Crypto floats.Float) (settings : Settings)
    (policies : Dict (NodePolicy floats.Float)) where
  open floats use {Float}

  -- What stands behind the worker's approval `r` of the command in `env`, read at the times `t`.
  pub record Approved (t : Readings) (env : Incoming (AuthenticatedRequest Float))
      (r : ValidationResult) : Type 0 where
    pub request : AuthenticatedRequest Float
    pub came : env.payload ≡ ok request
    pub identified : request.command.correlation_id ≡ env.correlation_id
    pub ingress :
        Proves crypto request.command request.identity settings.ingress_key Purpose.ingress ""
          t.verified true
    pub permitted : Permitted floats request.command policies
    pub evidence : SignedEvidence
    pub attached : r.approval ≡ some evidence
    pub accepted :
        (at : ℕ)
        → t.issued ≤ at
        → InTime at request.command.deadline
        → verify_evidence crypto request.command evidence settings.approval_key Purpose.approval
            settings.approved_writer at false
          ≡ ok tt

  decide-Approved :
      (t : Readings) (recorded : Result (Unit {0})) (env : Incoming (AuthenticatedRequest Float))
      (r : ValidationResult)
      → decide floats crypto settings policies t recorded env ≡ ok r
      → r.decision ≡ Decision.approve
      → Approved t env r
  unfolding decide
  decide-Approved t recorded env r h d =
      let (request, came, h1) = >>=-inv env.payload _ r h in
      let (same, h2) = check-inv (request.command.correlation_id == env.correlation_id) _ _ r h1 in
      let (_, ingress, h3) =
        >>=-inv
          (verify_evidence crypto request.command request.identity settings.ingress_key
            Purpose.ingress "" t.verified true)
          _ r h2 in
      let (result, checked, h4) =
        >>=-inv (validate_request floats request.command policies) _ r h3 in
      let (r', attached, h5) =
        >>=-inv (attach_approval floats crypto settings policies request.command t result) _ r h4 in
      let same_result : r' ≡ r = ground arith in
      let (e, approved, approval, signed) =
        attach-inv result.decision _ result r' attached refl (rw same_result d) in
      record {
        request = request;
        came = came;
        identified = ground arith;
        ingress =
            verify-Proves crypto request.command request.identity settings.ingress_key
              Purpose.ingress "" t.verified true ingress;
        permitted =
            (validate_request_iff floats request.command policies).0 (result, checked, approved);
        evidence = e;
        attached = subst (λ (x : ValidationResult). x.approval ≡ some e) same_result approval;
        accepted = λ at le in_time.
            verify-sign crypto request.command settings.approval_key Purpose.approval
              settings.approved_writer true t.issued t.signed at false e signed le (inr in_time);
      }

  -- When the worker answers a message with an approval, the message held a command under its own
  -- identifier, its ingress evidence proves the ingress key, the policies permit the command, and the
  -- answer carries an approval that the writer's check accepts with the approval key at every time
  -- from its issue to the command's deadline.
  pub handle-approves :
      (t : Readings) (recorded : Result (Unit {0}))
      (msg : Result (Incoming (AuthenticatedRequest Float))) (reply : NatsEnvelope ValidationResult)
      (r : ValidationResult)
      → handle floats crypto settings policies t recorded msg ≡ ok reply
      → reply.payload ≡ some r
      → r.decision ≡ Decision.approve
      → (env : Incoming (AuthenticatedRequest Float)) × (msg ≡ ok env) × Approved t env r
  unfolding handle
  handle-approves t recorded (err e) reply r h p d = absurd (cc)
  handle-approves t recorded (ok env) reply r h p d =
      (env, refl, decide-Approved t recorded env r (ground (arith)) d)
