-- ===== src/Tests/Ingress.antt =====
-- The command ingress on one message of the experiment driver.
use zilina_eirvah_edge_impl.Prelude.{ℕ, ◌≡◌, refl, false, some, [], arith}
use zilina_eirvah_edge_impl.Prelude.Exceptions.{Exc, ok, err, ◌>>=◌, ◌>>◌}
use zilina_eirvah_edge_impl.Contracts.Actuation.{ActuationRequest}
use zilina_eirvah_edge_impl.Contracts.Authorization.{
  AuthenticatedRequest, require_key, command_digest, signature_of, sign,
}
use zilina_eirvah_edge_impl.Contracts.Envelope.{NatsEnvelope, received}
use zilina_eirvah_edge_impl.Validator.{
  Settings, Readings, decide, validate_request, attach_approval,
}
use zilina_eirvah_edge_impl.Ingress.{wrapped, build_nats_envelope, Env, World, forward}
use zilina_eirvah_edge_impl.Ingress.Admission.{Admits, decide-build}
use zilina_eirvah_edge_impl.Ingress.Forwarding.{Ends, forward-Ends}
use zilina_eirvah_edge_impl.Tests.{naturals, sums, key, command, ingress_evidence}

abbrev settings : Settings
settings = record { ingress_key = key; approval_key = key; approved_writer = "writer-1" }

abbrev times : Readings
times = record { verified = 60; issued = 60; signed = 60 }

abbrev envelope : NatsEnvelope (AuthenticatedRequest ℕ)
envelope = wrapped "experiment-driver" command ingress_evidence

built : build_nats_envelope sums key 11 11 (ok command) (some "experiment-driver") ≡ ok envelope
unfolding build_nats_envelope sign require_key command_digest signature_of
built = refl

decide-build_example :
    (a : Admits sums key 11 11 (ok command) (some "experiment-driver") envelope)
    × (let req : ActuationRequest ℕ = record a.request { requester = a.name } in
        decide naturals sums settings [] times (ok tt) (received envelope) ≡ (
          validate_request naturals req [] >>= λ r.
          attach_approval naturals sums settings [] req times r >>= λ r'. ok tt >> ok r'))
decide-build_example =
    decide-build naturals sums settings [] 11 11 (ok command) (some "experiment-driver") envelope
      times (ok tt) built (omega arith)

abbrev answers : Env
answers = record {
  rejected = ok tt;
  recorded = ok tt;
  published = ok tt;
  sent = false;
  nacked = ok tt;
  acked = err Exc.type_error;
}

abbrev fresh : World ℕ
fresh = record { published = []; calls = [] }

forward-Ends_example : Ends answers (ok envelope) fresh (forward answers (ok envelope) fresh)
forward-Ends_example = forward-Ends answers (ok envelope) fresh
