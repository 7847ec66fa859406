-- ===== src/Writer/Handler.antt =====
-- services/actuation-signal-publisher/src/actuation_signal_publisher/service.py,
-- SignalPublisherWorker._handle: one message of act.work.write_signal. Messages are handled one after
-- another. The message is given as what its parts validate to.
use zilina_eirvah_edge_impl.Prelude.{
  ℕ, String, Bool, true, false, Option, none, some, ◌==◌, if◌then◌else◌, is_some,
}
use zilina_eirvah_edge_impl.Prelude.Exceptions.{Exc, exc_name, Result, ok, err}
use zilina_eirvah_edge_impl.Prelude.Exec.{
  Exec, pure, raise, lift, gets, modify, require, attempt, ◌>>=◌, ◌>>◌,
}
use zilina_eirvah_edge_impl.Prelude.Numbers.{Floats}
use zilina_eirvah_edge_impl.Prelude.Dict.{Dict, lookup}
use zilina_eirvah_edge_impl.Contracts.Actuation.{
  ActuationRequest, SignedEvidence, Purpose, Outcome, WriteResult, Datetime,
}
use zilina_eirvah_edge_impl.Contracts.Authorization.{
  Crypto, ApprovedWriteRequest, command_digest, verify_evidence,
}
use zilina_eirvah_edge_impl.Contracts.Envelope.{Status, NatsEnvelope, Incoming, envelope}
use zilina_eirvah_edge_impl.Ledger
use zilina_eirvah_edge_impl.Ledger.{Claim}
use zilina_eirvah_edge_impl.Writer.World.{Env, World, now, record_command, on_ledger}
use zilina_eirvah_edge_impl.Writer.Native.{NativeTarget, WriteTarget, write_native, write_opcua}

pub record Settings : Type 0 where
  pub approval_key : String
  pub writer_id : String

-- `result is None or result.retryable`
abbrev pub needs_claim : Option WriteResult → Bool
needs_claim none = true
needs_claim (some r) = r.retryable

-- The result of a message whose handling raised.
abbrev pub uncertain_result : Bool → WriteResult
uncertain_result held = record {
  outcome = Outcome.unknown;
  written_at = none;
  reason = some (if held then "ledger_failure" else "ledger_unavailable");
  retryable = false;
  replayed = false;
}

abbrev pub refused_result : Exc → WriteResult
refused_result e = record {
  outcome = Outcome.not_executed;
  written_at = none;
  reason = some (exc_name e);
  retryable = false;
  replayed = false;
}

-- uncertain = token is not None or isinstance(exc, RuntimeError)
abbrev pub raised_result : Option ℕ → Exc → WriteResult
raised_result (some token) e = uncertain_result true
raised_result none (Exc.runtime_error m) = uncertain_result false
raised_result none e = refused_result e

abbrev pub timestamp : Option Datetime → ℕ
timestamp none = 0
timestamp (some t) = t.at

module _ (floats : Floats) (crypto : Crypto floats.Float) (settings : Settings) (env : Env)
    (native_targets : Dict (NativeTarget floats.Float)) (targets : Dict WriteTarget) where
  open floats use {Float}

  module _ (id : ℕ) (req : ActuationRequest Float) (e : SignedEvidence) where
    -- verify_evidence(req, approved.approval, key, "approval", self._settings.writer_id)
    unfoldable pub verify_now : Bool → Exec (World Float) (Unit {0})
    verify_now allow_expired = now env >>= λ t. lift (
        verify_evidence crypto req e settings.approval_key Purpose.approval settings.writer_id t
          allow_expired)

    unfoldable pub record_once : Exec (World Float) (Unit {0})
    record_once = gets (λ (w : World Float). w.initiated) >>= λ initiated.
        if initiated
        then pure tt
        else record_command env >> modify (λ (w : World Float). record w { initiated = true })

    -- before_write
    unfoldable pub before_write : ℕ → Exec (World Float) (Unit {0})
    before_write token =
        verify_now false
        >> (now env >>= λ t. on_ledger env (Ledger.mark_started id token t))
        >> record_once
        >> verify_now false

    abbrev pub write_target :
        ℕ → Option (NativeTarget Float) → Option WriteTarget → Exec (World Float) (Unit {0})
    write_target token (some target) other =
        write_native floats env (before_write token) target req.requested_value
    write_target token none (some target) =
        write_opcua env (before_write token) target req.requested_value
    write_target token none none = raise (Exc.value_error "no configured write target")

    unfoldable pub write_value : ℕ → Exec (World Float) (Unit {0})
    write_value token =
        write_target token (lookup req.target_uns_topic native_targets)
          (lookup req.target_uns_topic targets)

    unfoldable pub fail_claim : ℕ → String → Exec (World Float) WriteResult
    fail_claim token reason = now env >>= λ t. on_ledger env (Ledger.fail id token reason t)

    -- The `except` clauses of the write: a cancellation is raised again.
    abbrev pub write_failed : ℕ → Exc → Exec (World Float) WriteResult
    write_failed token Exc.cancelled_error =
        fail_claim token "execution_cancelled" >> record_command env >> raise Exc.cancelled_error
    write_failed token x = fail_claim token (exc_name x)

    -- From the admission of the command to its settled result.
    unfoldable pub execute : ℕ → Exec (World Float) WriteResult
    execute token =
        modify (λ (w : World Float). record w { token = some token; initiated = false })
        >> record_command env
        >> attempt (write_value token)
            (λ _.
              record_command env
              >> (now env >>= λ written_at.
                  now env >>= λ t. on_ledger env (Ledger.complete id token written_at t)))
            (write_failed token)

    abbrev pub claimed : Claim → Exec (World Float) (Option WriteResult)
    claimed c = elim c.token [
      | none ↦ pure c.result
      | some token ↦ execute token >>= λ r. pure (some r)
    ]

    unfoldable pub claim_and_execute : ℕ → Exec (World Float) (Option WriteResult)
    claim_and_execute digest =
        verify_now false
        >> require (is_some req.deadline) Exc.assertion_error
        >> attempt
            (now env >>= λ t. now env >>= λ t'.
              on_ledger env (Ledger.claim id digest (timestamp req.deadline) env.token t t'))
            claimed (λ _. raise (Exc.runtime_error "command claim could not be established"))

    abbrev pub or_replayed : ℕ → Option WriteResult → Exec (World Float) (Option WriteResult)
    or_replayed digest result = if needs_claim result then claim_and_execute digest else pure result

    abbrev pub the_result : Option WriteResult → Exec (World Float) WriteResult
    the_result none = raise Exc.assertion_error
    the_result (some r) = pure r

    -- The `try` of the handler, once the command is read.
    unfoldable pub process : Exec (World Float) WriteResult
    process =
        require (req.correlation_id == id) (Exc.value_error "command envelope identity mismatch")
        >> verify_now true
        >> (lift (command_digest crypto req) >>= λ digest.
            attempt (now env >>= λ t. on_ledger env (Ledger.lookup id digest t))
              (or_replayed digest) (λ _. raise (Exc.runtime_error "command history is unavailable"))
            >>= the_result)

    abbrev pub release : Option ℕ → Exec (World Float) (Unit {0})
    release none = pure tt
    release (some token) = attempt (fail_claim token "ledger_failure") (λ _. pure tt) (λ _. pure tt)

    -- The `except` block; it does not catch a cancellation.
    abbrev pub recovered : Exc → Exec (World Float) (NatsEnvelope WriteResult)
    recovered Exc.cancelled_error = raise Exc.cancelled_error
    recovered x = gets (λ (w : World Float). w.token) >>= λ token.
        release token
        >> lift (envelope (some id) Status.error (some (raised_result token x)) (some (exc_name x)))

    unfoldable pub respond : Exec (World Float) (NatsEnvelope WriteResult)
    respond =
        attempt process (λ r. lift (envelope (some id) Status.ok (some r) none)) recovered
        >>= λ reply. record_command env >> pure reply

  -- A message that does not validate is refused; the identifier of one that is no envelope at all is
  -- "UNKNOWN".
  abbrev pub refuse : Option ℕ → Exc → Exec (World Float) (NatsEnvelope WriteResult)
  refuse id x = lift (envelope id Status.error (some (raised_result none x)) (some (exc_name x)))

  abbrev pub handle_payload :
      ℕ → Result (ApprovedWriteRequest Float) → Exec (World Float) (NatsEnvelope WriteResult)
  handle_payload id (err x) = refuse (some id) x
  handle_payload id (ok approved) = respond id approved.command approved.approval

  -- SignalPublisherWorker._handle
  unfoldable pub handle :
      Result (Incoming (ApprovedWriteRequest Float)) → Exec (World Float) (NatsEnvelope WriteResult)
  handle (err x) = refuse none x
  handle (ok msg) =
      modify (λ (w : World Float). record w { token = none })
      >> handle_payload msg.correlation_id msg.payload
