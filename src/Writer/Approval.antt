-- ===== src/Writer/Approval.antt =====
-- The writer: no frame goes out for a command without a valid approval.
use zilina_eirvah_edge_impl.Prelude.{ℕ, ◌≡◌, ◌≢◌, Bool, true, Option, none, some, [], arith}
use zilina_eirvah_edge_impl.Prelude.Exceptions.{Exc, Result, ok, err}
use zilina_eirvah_edge_impl.Prelude.Exec.{
  Exec, modify, ◌>>=◌, Triple, Ends, Triple-pure, Triple-raise, Triple-lift, Triple-gets,
  Triple-require, Triple-bind, Triple-attempt, Triple-weaken,
}
use zilina_eirvah_edge_impl.Prelude.Numbers.{Floats}
use zilina_eirvah_edge_impl.Prelude.Dict.{Dict}
use zilina_eirvah_edge_impl.Contracts.Actuation.{Purpose, WriteResult}
use zilina_eirvah_edge_impl.Contracts.Authorization.{Crypto, verify_evidence, ApprovedWriteRequest}
use zilina_eirvah_edge_impl.Contracts.Envelope.{NatsEnvelope, Incoming, Status}
use zilina_eirvah_edge_impl.Ledger.Invariant.{IsValid, fail-IsValid}
use zilina_eirvah_edge_impl.Writer.World.{Env, World, now}
use zilina_eirvah_edge_impl.Writer.Native.{NativeTarget, WriteTarget}
use zilina_eirvah_edge_impl.Writer.Handler.{
  Settings, verify_now, fail_claim, process, release, recovered, respond, handle,
}
use zilina_eirvah_edge_impl.Writer.Order.{On, now-On, record-On}
use zilina_eirvah_edge_impl.Writer.Settle.{Silent}
use zilina_eirvah_edge_impl.Writer.Execute.{ledger-Ends}

-- What cannot be reached satisfies everything.
Triple-absurd :
    {S A : Type 0} {Q : A → S → Type 0} {E : Exc → S → Type 0} (m : Exec S A)
    → Triple (λ _. ⊥) m Q E
Triple-absurd m = record { at = λ s p. absurd p }

module _ (floats : Floats) (crypto : Crypto floats.Float) (settings : Settings) (env : Env)
    (native_targets : Dict (NativeTarget floats.Float)) (targets : Dict WriteTarget) where
  open floats use {Float}

  -- The approval of the message is accepted at no instant.
  abbrev pub Unapproved : ApprovedWriteRequest Float → Type 0
  Unapproved approved =
      (t : ℕ) (allow_expired : Bool)
      → verify_evidence crypto approved.command approved.approval settings.approval_key
          Purpose.approval settings.writer_id t allow_expired
        ≢ ok tt

  module _ (id : ℕ) (approved : ApprovedWriteRequest Float) (none_holds : Unapproved approved) where
    abbrev Quiet : World Float → Type 0
    Quiet = On Silent

    now-Quiet : Triple Quiet (now env) (λ _. Quiet) (λ _. Quiet)
    now-Quiet = Triple-weaken _ _ _ _ (λ w p. p) (λ _ w p. p.0) (λ _ w p. p) (now-On env Silent)

    verify-raises :
        (allow_expired : Bool)
        → Triple Quiet
            (verify_now floats crypto settings env native_targets targets id approved.command
              approved.approval allow_expired)
            (λ _ _. ⊥)
            (λ _. Quiet)
    unfolding verify_now
    verify-raises allow_expired =
        Triple-bind _ _ (λ _. Quiet) now-Quiet
          λ t. Triple-lift _ (λ a w h p. none_holds t allow_expired h) (λ x w p. p)

    process-raises :
        Triple Quiet
          (process floats crypto settings env native_targets targets id approved.command
            approved.approval)
          (λ _ _. ⊥)
          (λ _. Quiet)
    unfolding process
    process-raises =
        Triple-bind _ _ (λ _ _. ⊥)
          (Triple-bind _ _ (λ _. Quiet) (Triple-require _ _ (λ w _ p. p) (λ w p. p))
            λ _. verify-raises true)
          λ _. Triple-absurd _

    release-Quiet :
        (token : Option ℕ)
        → Triple Quiet
            (release floats crypto settings env native_targets targets id approved.command
              approved.approval token)
            (λ _. Quiet)
            (λ _. Quiet)
    unfolding fail_claim
    release-Quiet none = Triple-pure tt (λ w p. p)
    release-Quiet (some token) =
        Triple-attempt _ _ _ (λ _. Quiet) (λ _. Quiet)
          (Triple-bind _ _ (λ _. Quiet) now-Quiet
            λ t.
              ledger-Ends floats crypto settings env native_targets targets id approved.command
                approved.approval _ (λ s v. fail-IsValid id token "ledger_failure" t s v))
          (λ _. Triple-pure tt (λ w p. p)) λ _. Triple-pure tt (λ w p. p)

    recovered-Quiet :
        (x : Exc)
        → Triple Quiet
            (recovered floats crypto settings env native_targets targets id approved.command
              approved.approval x)
            (λ reply w. Quiet w × (reply.status ≡ Status.error))
            (λ _. Quiet)
    recovered-Quiet Exc.cancelled_error = Triple-raise _ (λ w p. p)
    recovered-Quiet x =
        Triple-bind _ _ (λ _. Quiet) (Triple-gets _ (λ w p. p))
          λ token.
            Triple-bind _ _ (λ _. Quiet) (release-Quiet token)
              λ _. Triple-lift _ (λ reply w h p. (p, ground (arith, h))) (λ _ w p. p)

    respond-Quiet :
        Triple Quiet
          (respond floats crypto settings env native_targets targets id approved.command
            approved.approval)
          (λ reply w. Quiet w × (reply.status ≡ Status.error))
          (λ _. Quiet)
    unfolding respond
    respond-Quiet =
        Triple-bind _ _ (λ reply w. Quiet w × (reply.status ≡ Status.error))
          (Triple-attempt _ _ _ (λ _ _. ⊥) (λ _. Quiet) process-raises (λ _. Triple-absurd _)
            recovered-Quiet)
          λ reply.
            Triple-bind _ _ (λ _ w. Quiet w × (reply.status ≡ Status.error))
              (Triple-weaken _ _ _ _ (λ w p. p) (λ _ w p. p) (λ _ w p. p.0)
                (record-On env
                  (λ s frames token. Silent s frames token × (reply.status ≡ Status.error))))
              λ _. Triple-pure _ (λ w p. p)

    unapproved-Ends :
        (w : World Float)
        → Quiet w
        → Ends
            (λ reply w. Quiet w × (reply.status ≡ Status.error))
            (λ _. Quiet)
            (respond floats crypto settings env native_targets targets id approved.command
              approved.approval w)
    unapproved-Ends w p = respond-Quiet.at w p

  Ends-status :
      (x : Result (NatsEnvelope WriteResult) × World Float)
      → Ends (λ reply w. On Silent w × (reply.status ≡ Status.error)) (λ _. On Silent) x
      → (x.1.frames ≡ [])
        × ((reply : NatsEnvelope WriteResult) → x.0 ≡ ok reply → reply.status ≡ Status.error)
  Ends-status (ok reply, w) h = (h.0.1, λ r e. ground (arith, h.1, e))
  Ends-status (err y, w) h = (h.1, λ r e. absurd (cc e))

  -- From a well-formed ledger and with no frame sent, a message whose approval is accepted at no instant sends no frame to a
  -- device, and if it is answered, the answer is an error.
  pub Unapproved-silent :
      (msg : Incoming (ApprovedWriteRequest Float)) (approved : ApprovedWriteRequest Float)
      (w : World Float)
      → msg.payload ≡ ok approved
      → Unapproved approved
      → IsValid w.ledger
      → w.frames ≡ []
      → let x = handle floats crypto settings env native_targets targets (ok msg) w in
        (x.1.frames ≡ [])
        × ((reply : NatsEnvelope WriteResult) → x.0 ≡ ok reply → reply.status ≡ Status.error)
  unfolding handle ◌>>=◌ modify
  Unapproved-silent msg approved w p u v f = rw p (
      Ends-status _
        (unapproved-Ends msg.correlation_id approved u (record w { token = none }) (v, f)))
