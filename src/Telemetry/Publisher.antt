-- ===== src/Telemetry/Publisher.antt =====
-- services/mqtt-uns-publisher, service.py: what the reply to a request tells of what was published.
use zilina_eirvah_edge_impl.Prelude.{
  ℕ, ◌≡◌, ◌⊎◌, inl, inr, refl, Bool, true, false, some, ◌∷◌, if◌then◌else◌, not, ◌||◌, Bool-cases,
}
use zilina_eirvah_edge_impl.Prelude.Exceptions.{Exc, exc_name, is_cancelled, Result, ok, err}
use zilina_eirvah_edge_impl.Contracts.Envelope.{Status, NatsEnvelope, Incoming}
use zilina_eirvah_edge_impl.Contracts.Telemetry.{PublishRequest}
use zilina_eirvah_edge_impl.Telemetry.Workers.{
  Client, Publisher, reply_error, build_sosa_observation, publish_observation, publish_request,
  handle_publish_request,
}

module _ {F : Type 0} (client : Client) (id : ℕ) (payload : Result (PublishRequest F))
    (w : Publisher F) where
  -- What a call with its reply, or without one, tells of the publications
  pub data Tells (x : Result (NatsEnvelope (Unit {0})) × Publisher F) : Type 0 where
    published :
        (req : PublishRequest F) (reply : NatsEnvelope (Unit {0}))
        → payload ≡ ok req
        → w.connected ≡ true
        → client.answer ≡ ok tt
        → x.0 ≡ ok reply
        → reply.status ≡ Status.ok
        → reply.correlation_id ≡ id
        → x.1 ≡ record w { published = (req.uns_topic, build_sosa_observation req) ∷ w.published }
        → Tells x
    refused :
        (reply : NatsEnvelope (Unit {0}))
        → ((e : Exc) × (payload ≡ err e) × (reply.error ≡ some (exc_name e)))
          ⊎ ((w.connected ≡ false) × (reply.error ≡ some "RuntimeError"))
        → x.0 ≡ ok reply
        → reply.status ≡ Status.error
        → reply.correlation_id ≡ id
        → x.1 ≡ w
        → Tells x
    failed :
        (req : PublishRequest F) (e : Exc) (reply : NatsEnvelope (Unit {0}))
        → payload ≡ ok req
        → w.connected ≡ true
        → client.answer ≡ err e
        → is_cancelled e ≡ false
        → x.0 ≡ ok reply
        → reply.status ≡ Status.error
        → reply.correlation_id ≡ id
        → reply.error ≡ some (exc_name e)
        → x.1.published ≡ (
            if client.sent
            then (req.uns_topic, build_sosa_observation req) ∷ w.published
            else w.published)
        → x.1.reconnect ≡ (client.is_mqtt_error || w.reconnect)
        → Tells x
    cancelled :
        (e : Exc)
        → (payload ≡ err e) ⊎ (client.answer ≡ err e)
        → is_cancelled e ≡ true
        → x.0 ≡ err e
        → Tells x

  publish_observation-Tells :
      (answer : Result (Unit {0})) (req : PublishRequest F)
      → payload ≡ ok req
      → w.connected ≡ true
      → client.answer ≡ answer
      → Tells (publish_observation client answer id req w)
  publish_observation-Tells (ok _) req p c a = Tells.published req _ p c a refl refl refl refl
  publish_observation-Tells (err e) req p c a = elim (Bool-cases (is_cancelled e)) [
    | inl h ↦ rw h (Tells.cancelled e (inr a) h refl)
    | inr h ↦ rw h (Tells.failed req e _ p c a h refl refl refl refl refl refl)
  ]

  by_connection-Tells :
      (b : Bool) (req : PublishRequest F)
      → payload ≡ ok req
      → w.connected ≡ b
      → Tells (
          if not b
          then (ok (reply_error id "RuntimeError"), w)
          else publish_observation client client.answer id req w)
  by_connection-Tells true req p c = publish_observation-Tells client.answer req p c refl
  by_connection-Tells false req p c = Tells.refused _ (inr (c, refl)) refl refl refl refl

  publish_request-Tells :
      (x : Result (PublishRequest F)) → payload ≡ x → Tells (publish_request client id x w)
  publish_request-Tells (ok req) p = by_connection-Tells w.connected req p refl
  publish_request-Tells (err e) p = elim (Bool-cases (is_cancelled e)) [
    | inl h ↦ rw h (Tells.cancelled e (inl p) h refl)
    | inr h ↦ rw h (Tells.refused _ (inl (e, p, refl)) refl refl refl refl)
  ]

-- Whatever the MQTT client does: a reply without an error tells that the publisher was connected, that
-- the client returned, and that exactly the observation of the request went out to the request's topic;
-- a reply with an error tells that the request was not valid or the publisher not connected, and
-- nothing changed, or that the client raised, with the name of what it raised, and then at most that
-- observation went out, and a new connection is asked for at an MqttError; only a cancellation leaves
-- the request without a reply.
pub handle_publish_request-Tells :
    {F : Type 0} (client : Client) (request : Incoming (PublishRequest F)) (w : Publisher F)
    → Tells client request.correlation_id request.payload w
        (handle_publish_request client request w)
unfolding handle_publish_request
handle_publish_request-Tells client request w =
    publish_request-Tells client request.correlation_id request.payload w request.payload refl
