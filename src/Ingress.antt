-- ===== src/Ingress.antt =====
-- services/amqp-actuation-event-subscriber, service.py: a command that comes in over AMQP is bound to
-- the broker's user, signed, and handed on over NATS. What the journal, NATS and the broker answer is
-- the parameter `Env`.
pub mod Admission
pub mod Forwarding
use text.Mathlib.Text.{◌==◌ as str_eq}
use zilina_eirvah_edge_impl.Prelude.{
  ℕ, String, Bool, true, false, not, Option, none, some, List, [], ◌∷◌, if◌then◌else◌,
}
use zilina_eirvah_edge_impl.Prelude.Dict.{contains}
use zilina_eirvah_edge_impl.Prelude.Exceptions.{Exc, is_cancelled, Result, ok, err, ◌>>=◌}
use zilina_eirvah_edge_impl.Contracts.Actuation.{ActuationRequest, SignedEvidence}
use zilina_eirvah_edge_impl.Contracts.Authorization.{Crypto, AuthenticatedRequest, sign_ingress}
use zilina_eirvah_edge_impl.Contracts.Envelope.{Status, NatsEnvelope}

-- The users that may publish commands
abbrev pub publishers : List String
publishers = "decision-agent-stub" ∷ "experiment-driver" ∷ []

abbrev pub unauthenticated : {A : Type 0} → Result A
unauthenticated = err (Exc.value_error "authenticated command publisher required")

-- NATSEnvelope of a command in the name of a user, with its evidence
abbrev pub wrapped :
    {F : Type 0}
    → String
    → ActuationRequest F
    → SignedEvidence
    → NatsEnvelope (AuthenticatedRequest F)
wrapped user body e = record {
  correlation_id = body.correlation_id;
  status = Status.ok;
  payload = some (record { command = record body { requester = user }; identity = e });
  error = none;
}

module _ {F : Type 0} (crypto : Crypto F) (key : String) (now now' : ℕ) where
  -- The signed command of a user, and its envelope
  abbrev pub signed_for :
      String → ActuationRequest F → Result (NatsEnvelope (AuthenticatedRequest F))
  signed_for user body =
      sign_ingress crypto (record body { requester = user }) key true now now' >>= λ e.
      ok (wrapped user body e)

  -- build_nats_envelope, of what the body of the message validates to
  unfoldable pub build_nats_envelope :
      Result (ActuationRequest F) → Option String → Result (NatsEnvelope (AuthenticatedRequest F))
  build_nats_envelope body none = unauthenticated
  build_nats_envelope body (some user) =
      if not (contains user publishers) then unauthenticated else body >>= signed_for user

-- isinstance(e, (ValueError, TypeError)); a ValidationError is a ValueError.
abbrev pub is_refusable : Exc → Bool
is_refusable (Exc.value_error m) = true
is_refusable Exc.type_error = true
is_refusable (Exc.other_error name) = str_eq name "ValidationError"
is_refusable _ = false

-- What is told to the broker of a message
pub data Call : Type 0 where
  reject ack nack : Call

pub record Env : Type 0 where
  pub rejected : Result (Unit {0})
  pub recorded : Result (Unit {0})
  pub published : Result (Unit {0})
  -- whether the envelope went out when the publication raised
  pub sent : Bool
  pub acked : Result (Unit {0})
  pub nacked : Result (Unit {0})

-- What went out to NATS, and the calls to the broker, newest first
pub record World (F : Type 0) : Type 0 where
  pub published : List (NatsEnvelope (AuthenticatedRequest F))
  pub calls : List Call

module _ {F : Type 0} (env : Env) where
  abbrev pub call : Call → World F → World F
  call c w = record w { calls = c ∷ w.calls }

  abbrev pub send : NatsEnvelope (AuthenticatedRequest F) → World F → World F
  send envelope w = record w { published = envelope ∷ w.published }

  -- The publication over NATS, and the acknowledgement
  abbrev pub handed_on :
      Result (Unit {0})
      → NatsEnvelope (AuthenticatedRequest F)
      → World F
      → Result (Unit {0}) × World F
  handed_on (err e) envelope w = (err e, if env.sent then send envelope w else w)
  handed_on (ok _) envelope w = (env.acked, call Call.ack (send envelope w))

  abbrev pub record_and_publish :
      Result (Unit {0})
      → NatsEnvelope (AuthenticatedRequest F)
      → World F
      → Result (Unit {0}) × World F
  record_and_publish (err e) envelope w = (err e, w)
  record_and_publish (ok _) envelope w = handed_on env.published envelope w

  -- What the outer `try` guards, on what build_nats_envelope returned or raised
  abbrev pub admitted :
      Result (NatsEnvelope (AuthenticatedRequest F)) → World F → Result (Unit {0}) × World F
  admitted (err e) w = if is_refusable e then (env.rejected, call Call.reject w) else (err e, w)
  admitted (ok envelope) w = record_and_publish env.recorded envelope w

  -- The `except Exception` around a message; a cancellation is none.
  abbrev pub or_nack : Result (Unit {0}) × World F → Result (Unit {0}) × World F
  or_nack (ok _, w) = (ok tt, w)
  or_nack (err e, w) = if is_cancelled e then (err e, w) else (env.nacked, call Call.nack w)

  -- One turn of the loop of AmqpSubscriberRuntime.run
  unfoldable pub forward :
      Result (NatsEnvelope (AuthenticatedRequest F)) → World F → Result (Unit {0}) × World F
  forward built w = or_nack (admitted built w)
