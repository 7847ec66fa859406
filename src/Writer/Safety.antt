-- ===== src/Writer/Safety.antt =====
-- The writer: what the handler of act.work.write_signal guarantees, whatever the clock, the database,
-- the journal and the device do.
use zilina_eirvah_edge_impl.Prelude.{ℕ, ◌≡◌, ◌⊎◌, refl, Option, none, some, [], arith, All}
use zilina_eirvah_edge_impl.Prelude.Exceptions.{Exc, Result, ok, err}
use zilina_eirvah_edge_impl.Prelude.Exec.{
  lift, modify, ◌>>=◌, Triple, Ends, Triple-pure, Triple-raise, Triple-lift, Triple-gets,
  Triple-bind, Triple-attempt, Triple-weaken,
}
use zilina_eirvah_edge_impl.Prelude.Numbers.{Floats}
use zilina_eirvah_edge_impl.Prelude.Dict.{Dict}
use zilina_eirvah_edge_impl.Contracts.Actuation.{
  ActuationRequest, SignedEvidence, Outcome, WriteResult,
}
use zilina_eirvah_edge_impl.Contracts.Authorization.{Crypto}
use zilina_eirvah_edge_impl.Contracts.Authorization.Evidence.{InTime}
use zilina_eirvah_edge_impl.Ledger.Invariant.{IsValid}
use zilina_eirvah_edge_impl.Ledger.Execution.{row_of}
use zilina_eirvah_edge_impl.Writer.World.{Env, World, record_command}
use zilina_eirvah_edge_impl.Writer.Native.{NativeTarget, WriteTarget}
use zilina_eirvah_edge_impl.Writer.Handler.{Settings}
use zilina_eirvah_edge_impl.Writer.Order.{Marked, On, InOrder, Held, record-On}
use zilina_eirvah_edge_impl.Contracts.Envelope.{NatsEnvelope, Incoming}
use zilina_eirvah_edge_impl.Contracts.Authorization.{ApprovedWriteRequest}
use zilina_eirvah_edge_impl.Writer.Handler.{
  release, recovered, respond, handle_payload, handle, raised_result,
}
use zilina_eirvah_edge_impl.Writer.Settle.{Silent, fail_claim-Settled}
use zilina_eirvah_edge_impl.Writer.Process.{process-Good}

module _ (floats : Floats) (crypto : Crypto floats.Float) (settings : Settings) (env : Env)
    (native_targets : Dict (NativeTarget floats.Float)) (targets : Dict WriteTarget) where
  open floats use {Float}

  module _ (id : ℕ) (req : ActuationRequest floats.Float) (e : SignedEvidence) where
    abbrev Quiet : World Float → Type 0
    Quiet = On Silent

    abbrev Ordered : World Float → Type 0
    Ordered = On (InOrder id req.deadline)

    abbrev Good : WriteResult → World Float → Type 0
    Good r w = Ordered w × (r.outcome ≡ Outcome.not_executed → w.frames ≡ [])

    -- What a reply promises.
    abbrev GoodReply : NatsEnvelope WriteResult → World Float → Type 0
    GoodReply reply w =
        Ordered w
        × ((r : WriteResult)
            → reply.payload ≡ some r
            → r.outcome ≡ Outcome.not_executed
            → w.frames ≡ [])

    release-Ordered :
        (token : Option ℕ)
        → Triple
            (λ w. Ordered w × (w.token ≡ token))
            (release floats crypto settings env native_targets targets id req e token)
            (λ _ w. Ordered w × (token ≡ none → w.frames ≡ []))
            (λ _. Ordered)
    release-Ordered none = Triple-pure tt (λ w p. (p.0, λ _. p.0.2 p.1))
    release-Ordered (some token) =
        Triple-attempt _ _ _ (λ _. On (Held id req.deadline)) (λ _. On (Held id req.deadline))
          (Triple-weaken _ _ _ _ (λ w p. (p.0, λ absent. cc (p.1, absent))) (λ _ w p. p.0)
            (λ _ w p. p)
            (fail_claim-Settled floats crypto settings env native_targets targets id req e token
              "ledger_failure"))
          (λ _. Triple-pure tt (λ w p. (p.0, λ (absent : some token ≡ none). cc absent)))
          λ _. Triple-pure tt (λ w p. (p.0, λ (absent : some token ≡ none). cc absent))

    -- A token that is there makes the result of a raised call uncertain.
    raised-silent :
        (token : Option ℕ) (x : Exc)
        → (raised_result token x).outcome ≡ Outcome.not_executed
        → token ≡ none
    raised-silent none x h = refl
    raised-silent (some t) x h = absurd (cc)

    recovered-Good :
        (x : Exc)
        → Triple Ordered
            (recovered floats crypto settings env native_targets targets id req e x)
            GoodReply
            (λ _. Ordered)
    recovered-Good Exc.cancelled_error = Triple-raise _ (λ w p. p)
    recovered-Good x =
        Triple-bind _ _ (λ token w. Ordered w × (w.token ≡ token))
          (Triple-gets _ (λ w p. (p, refl)))
          λ token.
            Triple-bind _ _ (λ _ w. Ordered w × (token ≡ none → w.frames ≡ []))
              (release-Ordered token)
              λ _.
                Triple-lift _
                  (λ reply w s p.
                    (p.0, λ r h o. p.1 (raised-silent token x (ground (arith, s, h, o)))))
                  (λ _ w p. p.0)

    respond-Good :
        Triple Quiet
          (respond floats crypto settings env native_targets targets id req e)
          GoodReply
          (λ _. Ordered)
    unfolding respond
    respond-Good =
        Triple-bind _ _ GoodReply
          (Triple-attempt _ _ _ Good (λ _. Ordered)
            (process-Good floats crypto settings env native_targets targets id req e)
            (λ r.
              Triple-lift _ (λ reply w s p. (p.0, λ r' h o. p.1 (ground (arith, s, h, o))))
                (λ _ w p. p.0))
            recovered-Good)
          λ reply.
            Triple-bind _ _ (λ _. GoodReply reply) (record-Good reply) λ _. Triple-pure _ (λ w p. p)
      where
        record-Good :
            (reply : NatsEnvelope WriteResult)
            → Triple (GoodReply reply) (record_command env) (λ _. GoodReply reply) (λ _. Ordered)
        record-Good reply =
            Triple-weaken _ _ _ _ (λ w p. p) (λ _ w p. p) (λ _ w p. p.0)
              (record-On env (λ s frames token.
                InOrder id req.deadline s frames token
                × ((r : WriteResult)
                    → reply.payload ≡ some r
                    → r.outcome ≡ Outcome.not_executed
                    → frames ≡ [])))

  -- What the world is like when the handler has returned or raised.
  Ended-Ordered :
      (id : ℕ) (req : ActuationRequest Float) (e : SignedEvidence)
      (x : Result (NatsEnvelope WriteResult) × World Float)
      → Ends (GoodReply id req e) (λ _. Ordered id req e) x
      → Ordered id req e x.1
  Ended-Ordered id req e (ok reply, w) h = h.0
  Ended-Ordered id req e (err y, w) h = h

  handled-Ends :
      (msg : Incoming (ApprovedWriteRequest Float)) (approved : ApprovedWriteRequest Float)
      (w : World Float)
      → msg.payload ≡ ok approved
      → IsValid w.ledger
      → w.frames ≡ []
      → Ends
          (GoodReply msg.correlation_id approved.command approved.approval)
          (λ _. Ordered msg.correlation_id approved.command approved.approval)
          (handle floats crypto settings env native_targets targets (ok msg) w)
  unfolding handle ◌>>=◌ modify
  handled-Ends msg approved w p v f = rw p (
      (respond-Good msg.correlation_id approved.command approved.approval).at
        (record w { token = none }) (v, f))

  -- From a well-formed ledger and with no frame sent, handling a message with a command ends, whether it replies or raises
  -- and whatever the clock, the database, the journal and the device did, with a well-formed ledger;
  -- if a frame went out, the ledger has the command's row and it says that a write may have been
  -- issued, and each frame went out when the latest reading of the clock was within the deadline.
  pub handle_in_order :
      (msg : Incoming (ApprovedWriteRequest Float)) (approved : ApprovedWriteRequest Float)
      (w : World Float)
      → msg.payload ≡ ok approved
      → IsValid w.ledger
      → w.frames ≡ []
      → let w' = (handle floats crypto settings env native_targets targets (ok msg) w).1 in
        IsValid w'.ledger
        × ((w'.frames ≡ []) ⊎ Marked msg.correlation_id (row_of msg.correlation_id w'.ledger))
        × All (λ f. InTime f.latest approved.command.deadline) w'.frames
  handle_in_order msg approved w p v f =
      let order =
        Ended-Ordered msg.correlation_id approved.command approved.approval _
          (handled-Ends msg approved w p v f) in
      (order.0, order.1, order.3)

  reply-silent :
      (id : ℕ) (req : ActuationRequest Float) (e : SignedEvidence)
      (reply : NatsEnvelope WriteResult) (r : WriteResult)
      (x : Result (NatsEnvelope WriteResult) × World Float)
      → Ends (GoodReply id req e) (λ _. Ordered id req e) x
      → x.0 ≡ ok reply
      → reply.payload ≡ some r
      → r.outcome ≡ Outcome.not_executed
      → x.1.frames ≡ []
  reply-silent id req e reply r (ok reply', w) h s q o = h.1 r (ground (arith, s, q)) o
  reply-silent id req e reply r (err y, w) h s q o = absurd (cc)

  -- From a well-formed ledger and with no frame sent, if the reply to a message, valid or not, says that the command was not
  -- executed, then no frame went out to a device.
  pub not_executed_silent :
      (message : Result (Incoming (ApprovedWriteRequest Float))) (w : World Float)
      (reply : NatsEnvelope WriteResult) (r : WriteResult)
      → IsValid w.ledger
      → w.frames ≡ []
      → (handle floats crypto settings env native_targets targets message w).0 ≡ ok reply
      → reply.payload ≡ some r
      → r.outcome ≡ Outcome.not_executed
      → (handle floats crypto settings env native_targets targets message w).1.frames ≡ []
  unfolding handle ◌>>=◌ modify lift
  not_executed_silent (err x) w reply r v f s q o = f
  not_executed_silent (ok msg) w reply r v f s q o = go msg.payload refl s
    where
      go :
          (payload : Result (ApprovedWriteRequest Float))
          → msg.payload ≡ payload
          → (handle_payload floats crypto settings env native_targets targets msg.correlation_id
              payload
              (record w { token = none })).0
            ≡ ok reply
          → (handle_payload floats crypto settings env native_targets targets msg.correlation_id
              payload
              (record w { token = none })).1.frames
            ≡ []
      go (err x) p s = f
      go (ok approved) p s =
          reply-silent msg.correlation_id approved.command approved.approval reply r _
            ((respond-Good msg.correlation_id approved.command approved.approval).at
              (record w { token = none }) (v, f))
            s q o
