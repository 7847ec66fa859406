-- ===== src/Ingress/Forwarding.antt =====
-- amqp-actuation-event-subscriber, service.py: how one message of the broker ends.
use zilina_eirvah_edge_impl.Prelude.{
  ◌≡◌, refl, Bool, true, false, List, ◌∷◌, inl, inr, if◌then◌else◌, Bool-cases,
}
use zilina_eirvah_edge_impl.Prelude.Exceptions.{Exc, is_cancelled, Result, ok, err}
use zilina_eirvah_edge_impl.Contracts.Authorization.{AuthenticatedRequest}
use zilina_eirvah_edge_impl.Contracts.Envelope.{NatsEnvelope}
use zilina_eirvah_edge_impl.Ingress.{
  is_refusable, Call, Env, World, send, handed_on, record_and_publish, admitted, or_nack, forward,
}

module _ {F : Type 0} (env : Env) (built : Result (NatsEnvelope (AuthenticatedRequest F)))
    (w : World F) where
  -- What raised an exception, with the calls to the broker up to it, and what had gone out by then
  pub data Raises : Exc → List Call → List (NatsEnvelope (AuthenticatedRequest F)) → Type 0 where
    building : (e : Exc) → built ≡ err e → is_refusable e ≡ false → Raises e w.calls w.published
    rejecting :
        (e x : Exc)
        → built ≡ err x
        → is_refusable x ≡ true
        → env.rejected ≡ err e
        → Raises e (Call.reject ∷ w.calls) w.published
    recording :
        (envelope : NatsEnvelope (AuthenticatedRequest F)) (e : Exc)
        → built ≡ ok envelope
        → env.recorded ≡ err e
        → Raises e w.calls w.published
    unsent :
        (envelope : NatsEnvelope (AuthenticatedRequest F)) (e : Exc)
        → built ≡ ok envelope
        → env.published ≡ err e
        → env.sent ≡ false
        → Raises e w.calls w.published
    sent :
        (envelope : NatsEnvelope (AuthenticatedRequest F)) (e : Exc)
        → built ≡ ok envelope
        → env.published ≡ err e
        → env.sent ≡ true
        → Raises e w.calls (envelope ∷ w.published)
    acknowledging :
        (envelope : NatsEnvelope (AuthenticatedRequest F)) (e : Exc)
        → built ≡ ok envelope
        → env.published ≡ ok tt
        → env.acked ≡ err e
        → Raises e (Call.ack ∷ w.calls) (envelope ∷ w.published)

  -- How a message of the broker ends: it is acknowledged, and NATS took its envelope; it is rejected
  -- for good, and nothing went out; something raised, and it is given back to the queue; or the turn
  -- was cancelled, and the broker is told nothing more.
  pub data Ends (x : Result (Unit {0}) × World F) : Type 0 where
    acknowledged :
        (envelope : NatsEnvelope (AuthenticatedRequest F))
        → built ≡ ok envelope
        → env.published ≡ ok tt
        → x.0 ≡ ok tt
        → x.1.calls ≡ Call.ack ∷ w.calls
        → x.1.published ≡ envelope ∷ w.published
        → Ends x
    refused :
        (e : Exc)
        → built ≡ err e
        → is_refusable e ≡ true
        → x.0 ≡ ok tt
        → x.1.calls ≡ Call.reject ∷ w.calls
        → x.1.published ≡ w.published
        → Ends x
    requeued :
        (e : Exc) (earlier : List Call)
        → Raises e earlier x.1.published
        → is_cancelled e ≡ false
        → x.0 ≡ env.nacked
        → x.1.calls ≡ Call.nack ∷ earlier
        → Ends x
    cancelled :
        (e : Exc) → Raises e x.1.calls x.1.published → is_cancelled e ≡ true → x.0 ≡ err e → Ends x

  raised-Ends :
      (e : Exc) (v : World F) → Raises e v.calls v.published → Ends (or_nack env (err e, v))
  raised-Ends e v r = elim (Bool-cases (is_cancelled e)) [
    | inl c ↦ rw c (Ends.cancelled e r c refl)
    | inr c ↦ rw c (Ends.requeued e v.calls r c refl refl)
  ]

  refusal-Ends :
      (e : Exc) (r : Result (Unit {0}))
      → built ≡ err e
      → is_refusable e ≡ true
      → env.rejected ≡ r
      → Ends (or_nack env (r, record w { calls = Call.reject ∷ w.calls }))
  refusal-Ends e (ok _) b h k = Ends.refused e b h refl refl refl
  refusal-Ends e (err x) b h k = raised-Ends x _ (Raises.rejecting x e b h k)

  acked-Ends :
      (envelope : NatsEnvelope (AuthenticatedRequest F)) (a : Result (Unit {0}))
      → built ≡ ok envelope
      → env.published ≡ ok tt
      → env.acked ≡ a
      → Ends (
          or_nack env
            (a, record w { published = envelope ∷ w.published; calls = Call.ack ∷ w.calls }))
  acked-Ends envelope (ok _) b p k = Ends.acknowledged envelope b p refl refl refl
  acked-Ends envelope (err e) b p k = raised-Ends e _ (Raises.acknowledging envelope e b p k)

  unpublished-Ends :
      (envelope : NatsEnvelope (AuthenticatedRequest F)) (e : Exc) (s : Bool)
      → built ≡ ok envelope
      → env.published ≡ err e
      → env.sent ≡ s
      → Ends (or_nack env (err e, if s then send env envelope w else w))
  unpublished-Ends envelope e true b p k =
      raised-Ends e (send env envelope w) (Raises.sent envelope e b p k)
  unpublished-Ends envelope e false b p k = raised-Ends e w (Raises.unsent envelope e b p k)

  handed_on-Ends :
      (envelope : NatsEnvelope (AuthenticatedRequest F)) (p : Result (Unit {0}))
      → built ≡ ok envelope
      → env.published ≡ p
      → Ends (or_nack env (handed_on env p envelope w))
  handed_on-Ends envelope (ok _) b p = acked-Ends envelope env.acked b p refl
  handed_on-Ends envelope (err e) b p = unpublished-Ends envelope e env.sent b p refl

  recorded-Ends :
      (envelope : NatsEnvelope (AuthenticatedRequest F)) (r : Result (Unit {0}))
      → built ≡ ok envelope
      → env.recorded ≡ r
      → Ends (or_nack env (record_and_publish env r envelope w))
  recorded-Ends envelope (ok _) b h = handed_on-Ends envelope env.published b refl
  recorded-Ends envelope (err e) b h = raised-Ends e w (Raises.recording envelope e b h)

  admitted-Ends :
      (x : Result (NatsEnvelope (AuthenticatedRequest F)))
      → built ≡ x
      → Ends (or_nack env (admitted env x w))
  admitted-Ends (ok envelope) b = recorded-Ends envelope env.recorded b refl
  admitted-Ends (err e) b = elim (Bool-cases (is_refusable e)) [
    | inl h ↦ rw h (refusal-Ends e env.rejected b h refl)
    | inr h ↦ rw h (raised-Ends e w (Raises.building e b h))
  ]

  -- Whatever the journal, NATS and the broker answer, a message is acknowledged only when NATS has
  -- taken its envelope without an exception, and rejected for good only when it is not valid and
  -- nothing has gone out. When something else raised (the build of a message that is not refused, the
  -- journal, the publication, the acknowledgement or the rejection), the message is given back to the
  -- queue, and the turn ends as that call does; after a cancellation the turn ends with it, and the
  -- broker is told nothing more. What went out by then is known in each case.
  pub forward-Ends : Ends (forward env built w)
  unfolding forward
  forward-Ends = admitted-Ends built refl
