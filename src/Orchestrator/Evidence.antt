-- ===== src/Orchestrator/Evidence.antt =====
-- The orchestrator: what stands behind each write that it asks for and each approval that it publishes.
use zilina_eirvah_edge_impl.Prelude.{
  ℕ, ◌+◌, String, ◌≡◌, refl, Bool, true, false, not, Option, none, some, [], ◌∷◌, ◌==◌,
  if◌then◌else◌, arith, All,
}
use zilina_eirvah_edge_impl.Prelude.Exceptions.{Exc, Result, ok, err}
use zilina_eirvah_edge_impl.Prelude.Exec.{
  Exec, pure, ◌>>◌, Triple, Ends, Triple-pure, Triple-raise, Triple-require, Triple-modify,
  Triple-bind,
}
use zilina_eirvah_edge_impl.Contracts.Actuation.{
  ActuationRequest, SignedEvidence, Decision, ValidationResult, Outcome, WriteResult,
}
use zilina_eirvah_edge_impl.Contracts.Authorization.{AuthenticatedRequest}
use zilina_eirvah_edge_impl.Contracts.Envelope.{is_ok, Incoming}
use zilina_eirvah_edge_impl.Orchestrator.{
  Stage, Settings, Verdict, Published, Request, Metric, Env, World, stage_named, read_validation,
  read_write, count_metric, record_command, build_result, publish_result, publish_dead,
  emit_unsettled, emit_reject, emit_approve, count_approval, count_replay, approve_written,
  by_outcome, settle, write_replied, write_stage, gate, with_approval, by_decision, decided,
  validate_replied, validate_stage, run_pipeline,
}

-- The validator replied with the approval `e` of the command with this identifier.
pub record Approves (env : Env) (id : ℕ) (e : SignedEvidence) : Type 0 where
  pub reply : Incoming ValidationResult
  pub came : env.validated ≡ ok (ok reply)
  pub positive : is_ok reply.status ≡ true
  pub identified : reply.correlation_id ≡ id
  pub validation : ValidationResult
  pub says : reply.payload ≡ ok validation
  pub approves : validation.decision ≡ Decision.approve
  pub carries : validation.approval ≡ some e

-- The writer replied that it completed the command with this identifier at the time `t`.
pub record Completes (env : Env) (id : ℕ) (t : ℕ) : Type 0 where
  pub reply : Incoming WriteResult
  pub came : env.written ≡ ok (ok reply)
  pub positive : is_ok reply.status ≡ true
  pub identified : reply.correlation_id ≡ id
  pub result : WriteResult
  pub says : reply.payload ≡ ok result
  pub completes : result.outcome ≡ Outcome.completed
  pub written : result.written_at ≡ some t

module _ {F : Type 0} (env : Env) (settings : Settings) (id : ℕ) (req : ActuationRequest F) where
  abbrev pub Justified : Request F → Type 0
  Justified (Request.validate subject a) = Unit {0}
  Justified (Request.write_signal subject w) =
      (w.command ≡ req) × (settings.allow_writes ≡ true) × Approves env id w.approval

  abbrev pub Proven : Published F → Type 0
  Proven p = elim p.verdict [
    | Verdict.approve t replayed ↦ (p.request ≡ req) × Completes env id t
    | Verdict.reject reason retryable ↦ Unit {0}
    | Verdict.pending reason ↦ Unit {0}
    | Verdict.unknown reason ↦ Unit {0}
  ]

  -- Every write that was asked for is justified, and every published approval is proven.
  abbrev pub IsSound : World F → Type 0
  IsSound w = All Justified w.requests × All Proven w.results

  abbrev Sound : Exec (World F) (Unit {0}) → Type 0
  Sound m = Triple IsSound m (λ _. IsSound) (λ _. IsSound)

  unit-Sound :
      (r : Result (Unit {0})) (w : World F) → IsSound w → Ends (λ _. IsSound) (λ _. IsSound) (r, w)
  unit-Sound (ok a) w p = p
  unit-Sound (err e) w p = p

  then-Sound : (m n : Exec (World F) (Unit {0})) → Sound m → Sound n → Sound (m >> n)
  then-Sound m n p q = Triple-bind m _ (λ _. IsSound) p λ _. q

  metric-Sound : (m : Metric) → Sound (count_metric env m)
  unfolding count_metric
  metric-Sound m = Triple-modify _ (λ w p. p)

  record-Sound : Sound (record_command env)
  unfolding record_command
  record-Sound = record {
    at = λ w p. unit-Sound (env.recorded w.records) (record w { records = w.records + 1 }) p;
  }

  result-Sound : (p : Published F) → Proven p → Sound (publish_result env p)
  unfolding publish_result
  result-Sound p h = record {
    at = λ w s.
        unit-Sound (env.published w.publications)
          (record w { results = p ∷ w.results; publications = w.publications + 1 }) (s.0, (h, s.1));
  }

  dead-Sound : (p : Published F) → Sound (publish_dead env p)
  unfolding publish_dead
  dead-Sound p = record {
    at = λ w s.
        unit-Sound (env.published w.publications)
          (record w { dead_letters = p ∷ w.dead_letters; publications = w.publications + 1 }) s;
  }

  build-Sound : (v : Verdict) → Sound (build_result env req v)
  unfolding build_result
  build-Sound v = Triple-require _ _ (λ w _ p. p) (λ w p. p)

  unsettled-Sound :
      (v : Verdict) (m : Metric)
      → Proven (record { request = req; verdict = v })
      → Sound (emit_unsettled env req v m)
  unfolding emit_unsettled
  unsettled-Sound v m h =
      then-Sound _ _
        (then-Sound _ _ (then-Sound _ _ (build-Sound v) (metric-Sound m)) (result-Sound _ h))
        record-Sound

  reject-Sound :
      (reason : String) (retryable : Bool) (category : String)
      → Sound (emit_reject env req reason retryable category)
  unfolding emit_reject
  reject-Sound reason retryable category =
      then-Sound _ _
        (then-Sound _ _
          (then-Sound _ _ (then-Sound _ _ (build-Sound _) (dead-Sound _)) (result-Sound _ tt))
          record-Sound)
        (metric-Sound _)

  counted-Sound : (b : Bool) → Sound (count_approval env req b)
  counted-Sound true = Triple-pure _ (λ w p. p)
  counted-Sound false = then-Sound _ _ (metric-Sound _) (metric-Sound _)

  replay-Sound : (b : Bool) (o : Outcome) → Sound (count_replay env req b o)
  replay-Sound true o = metric-Sound _
  replay-Sound false o = Triple-pure _ (λ w p. p)

  written-Sound :
      (t : Option ℕ) (b : Bool)
      → ((n : ℕ) → t ≡ some n → Completes env id n)
      → Sound (approve_written env req t b)
  unfolding emit_approve
  written-Sound none b h = Triple-raise _ (λ w p. p)
  written-Sound (some t) b h =
      then-Sound _ _
        (then-Sound _ _ (then-Sound _ _ (build-Sound _) (result-Sound _ (refl, h t refl)))
          record-Sound)
        (counted-Sound b)

  outcome-Sound :
      (o : Outcome) (r : WriteResult)
      → ((n : ℕ) → o ≡ Outcome.completed → r.written_at ≡ some n → Completes env id n)
      → Sound (by_outcome env req o r)
  outcome-Sound Outcome.unknown r h = unsettled-Sound _ _ tt
  outcome-Sound Outcome.pending r h = unsettled-Sound _ _ tt
  outcome-Sound Outcome.conflict r h = reject-Sound _ _ _
  outcome-Sound Outcome.not_executed r h = reject-Sound _ _ _
  outcome-Sound Outcome.completed r h = written-Sound r.written_at r.replayed (λ n. h n refl)

  settle-Sound :
      (o : Option WriteResult)
      → ((r : WriteResult) (n : ℕ)
          → o ≡ some r
          → r.outcome ≡ Outcome.completed
          → r.written_at ≡ some n
          → Completes env id n)
      → Sound (settle env req o)
  settle-Sound none h = unsettled-Sound _ _ tt
  settle-Sound (some r) h =
      then-Sound _ _ (replay-Sound r.replayed r.outcome)
        (outcome-Sound r.outcome r (λ n. h r n refl))

  read_write-Completes :
      (x : Result (Incoming WriteResult)) (r : WriteResult) (n : ℕ)
      → env.written ≡ ok x
      → read_write id x ≡ some r
      → r.outcome ≡ Outcome.completed
      → r.written_at ≡ some n
      → Completes env id n
  read_write-Completes (err y) r n c h o t = absurd (cc)
  read_write-Completes (ok reply) r n c h o t = record {
    reply = reply;
    came = c;
    positive = ground arith;
    identified = ground arith;
    result = r;
    says = ground arith;
    completes = o;
    written = t;
  }

  replied-Sound :
      (x : Result (Result (Incoming WriteResult)))
      → env.written ≡ x
      → Sound (write_replied env req id x)
  replied-Sound (ok reply) h = settle-Sound _ (λ r n. read_write-Completes reply r n h)
  replied-Sound (err Exc.request_timeout) h =
      then-Sound _ _ (metric-Sound _) (unsettled-Sound _ _ tt)
  replied-Sound (err Exc.cancelled_error) h = Triple-raise _ (λ w p. p)
  replied-Sound (err x) h = unsettled-Sound _ _ tt

  write-Sound :
      (e : SignedEvidence) (stage : Option Stage)
      → settings.allow_writes ≡ true
      → Approves env id e
      → Sound (write_stage env req id e stage)
  write-Sound e none a h = Triple-pure _ (λ w p. p)
  write-Sound e (some stage) a h =
      then-Sound _ _ (Triple-modify _ (λ w p. (((refl, a, h), p.0), p.1)))
        (replied-Sound env.written refl)

  gate-Sound :
      (b : Bool) (e : SignedEvidence)
      → settings.allow_writes ≡ b
      → Approves env id e
      → Sound (gate env req settings b id e)
  gate-Sound false e a h = reject-Sound _ _ _
  gate-Sound true e a h = write-Sound e _ a h

  approval-Sound :
      (o : Option SignedEvidence)
      → ((e : SignedEvidence) → o ≡ some e → Approves env id e)
      → Sound (with_approval env req settings id o)
  approval-Sound none h = reject-Sound _ _ _
  approval-Sound (some e) h = gate-Sound settings.allow_writes e refl (h e refl)

  decision-Sound :
      (d : Decision) (v : ValidationResult)
      → ((e : SignedEvidence) → d ≡ Decision.approve → v.approval ≡ some e → Approves env id e)
      → Sound (by_decision env req settings id d v)
  decision-Sound Decision.reject v h = reject-Sound _ _ _
  decision-Sound Decision.approve v h = approval-Sound v.approval (λ e. h e refl)

  decided-Sound :
      (o : Option ValidationResult)
      → ((v : ValidationResult) (e : SignedEvidence)
          → o ≡ some v
          → v.decision ≡ Decision.approve
          → v.approval ≡ some e
          → Approves env id e)
      → Sound (decided env req settings id o)
  decided-Sound none h = reject-Sound _ _ _
  decided-Sound (some v) h = decision-Sound v.decision v (λ e. h v e refl)

  read_validation-Approves :
      (x : Result (Incoming ValidationResult)) (v : ValidationResult) (e : SignedEvidence)
      → env.validated ≡ ok x
      → read_validation id x ≡ some v
      → v.decision ≡ Decision.approve
      → v.approval ≡ some e
      → Approves env id e
  read_validation-Approves (err y) v e c h d a = absurd (cc)
  read_validation-Approves (ok reply) v e c h d a = record {
    reply = reply;
    came = c;
    positive = ground arith;
    identified = ground arith;
    validation = v;
    says = ground arith;
    approves = d;
    carries = a;
  }

  validated-Sound :
      (x : Result (Result (Incoming ValidationResult)))
      → env.validated ≡ x
      → Sound (validate_replied env req settings id x)
  validated-Sound (ok reply) h = decided-Sound _ (λ v e. read_validation-Approves reply v e h)
  validated-Sound (err Exc.request_timeout) h = then-Sound _ _ (metric-Sound _) (reject-Sound _ _ _)
  validated-Sound (err Exc.cancelled_error) h = Triple-raise _ (λ w p. p)
  validated-Sound (err x) h = reject-Sound _ _ _

-- The stage validate keeps the world sound.
stage-Sound :
    {F : Type 0} (env : Env) (settings : Settings) (id : ℕ) (a : AuthenticatedRequest F)
    (stage : Option Stage)
    → Sound env settings id a.command (validate_stage env settings id a stage)
stage-Sound env settings id a none = Triple-pure _ (λ w p. p)
stage-Sound env settings id a (some stage) =
    then-Sound env settings id a.command _ _ (Triple-modify _ (λ w p. ((tt, p.0), p.1)))
      (validated-Sound env settings id a.command env.validated refl)

Ends-Sound :
    {F : Type 0} (P : World F → Type 0) (x : Result (Unit {0}) × World F)
    → Ends (λ _. P) (λ _. P) x
    → P x.1
Ends-Sound P (ok tt, w) h = h
Ends-Sound P (err e, w) h = h

-- From a world without requests and results, whatever the stages reply and whatever raises, a message
-- with a command leads to a request to write only with writes allowed, for that very command, and with
-- the approval that the validator's positive reply for the message's identifier carries; and to a
-- published approval only for that command, with the time at which the writer's positive reply for
-- that identifier says that it was completed.
pub run_pipeline-IsSound :
    {F : Type 0} (env : Env) (settings : Settings) (msg : Incoming (AuthenticatedRequest F))
    (a : AuthenticatedRequest F) (w : World F)
    → msg.payload ≡ ok a
    → w.requests ≡ []
    → w.results ≡ []
    → IsSound env settings msg.correlation_id a.command (run_pipeline env settings msg w).1
unfolding run_pipeline pure
run_pipeline-IsSound env settings msg a w p q r =
    rw p (go (a.command.correlation_id == msg.correlation_id))
  where
    start : IsSound env settings msg.correlation_id a.command w
    start = (rw q tt, rw r tt)

    go :
        (b : Bool)
        → IsSound env settings msg.correlation_id a.command
            ((if not b
                then pure tt
                else record_command env
                  >> validate_stage env settings msg.correlation_id a
                      (stage_named "validate" settings.stages))
              w).1
    go false = start
    go true = Ends-Sound (IsSound env settings msg.correlation_id a.command) _ (
        (then-Sound env settings msg.correlation_id a.command _ _
            (record-Sound env settings msg.correlation_id a.command)
            (stage-Sound env settings msg.correlation_id a _)).at
          w start)
