-- ===== src/Orchestrator/Settled.antt =====
-- The orchestrator: every command that it takes up is settled by one published result.
use zilina_eirvah_edge_impl.Prelude.{
  ℕ, String, ◌≡◌, ◌⊎◌, inl, inr, refl, Bool, true, false, Option, none, some, List, ◌∷◌, ◌==◌,
  is_some, arith, Bool-cases,
}
use zilina_eirvah_edge_impl.Prelude.Exceptions.{Exc, Result, ok, err}
use zilina_eirvah_edge_impl.Prelude.Exec.{
  Exec, require, ◌>>◌, Triple, Ends, Triple-pure, Triple-modify, Triple-bind,
}
use zilina_eirvah_edge_impl.Contracts.Actuation.{
  ActuationRequest, SignedEvidence, Decision, ValidationResult, Outcome, WriteResult,
}
use zilina_eirvah_edge_impl.Contracts.Authorization.{AuthenticatedRequest}
use zilina_eirvah_edge_impl.Contracts.Envelope.{Incoming}
use zilina_eirvah_edge_impl.Orchestrator.{
  Stage, Settings, Verdict, added_fields, clashes, build_result, Published, Metric, Env, World,
  stage_named, read_validation, is_completed, read_write, count_metric, record_command,
  publish_result, publish_dead, emit_unsettled, emit_reject, emit_approve, count_approval,
  count_replay, approve_written, by_outcome, settle, write_replied, write_stage, gate,
  with_approval, by_decision, decided, validate_replied, validate_stage, run_pipeline,
}

-- Publications and records do not raise, and no call of a stage is cancelled.
pub record IsCalm (env : Env) : Type 0 where
  pub records : (n : ℕ) → env.recorded n ≡ ok tt
  pub publishes : (n : ℕ) → env.published n ≡ ok tt
  pub validates : env.validated ≡ err Exc.cancelled_error → ⊥
  pub writes : env.written ≡ err Exc.cancelled_error → ⊥

-- One result more than in `rs` has been published, for the command `req`.
pub record OneMore {F : Type 0} (req : ActuationRequest F) (rs : List (Published F)) (w : World F)
    : Type 0 where
  pub verdict : Verdict
  pub results : w.results ≡ record { request = req; verdict = verdict } ∷ rs

-- An extra field of the command has the name of a field that its result adds: the call raised before
-- anything was published.
pub record Clash {F : Type 0} (req : ActuationRequest F) (rs : List (Published F)) (e : Exc)
    (w : World F) : Type 0 where
  pub verdict : Verdict
  pub clashing : clashes req.extra (added_fields verdict) ≡ true
  pub raised : e ≡ Exc.type_error
  pub unchanged : w.results ≡ rs

module _ {F : Type 0} (env : Env) (calm : IsCalm env) (req : ActuationRequest F)
    (rs : List (Published F)) where
  abbrev Before : World F → Type 0
  Before w = w.results ≡ rs

  abbrev After : World F → Type 0
  After = OneMore req rs

  abbrev Refused : Exc → World F → Type 0
  Refused = Clash req rs

  abbrev Settles : Exec (World F) (Unit {0}) → Type 0
  Settles m = Triple Before m (λ _. After) Refused

  metric-After : (m : Metric) → Triple After (count_metric env m) (λ _. After) Refused
  unfolding count_metric
  metric-After m = Triple-modify _ (λ w p. record { verdict = p.verdict; results = p.results })

  metric-Before : (m : Metric) → Triple Before (count_metric env m) (λ _. Before) Refused
  unfolding count_metric
  metric-Before m = Triple-modify _ (λ w p. p)

  record-After : Triple After (record_command env) (λ _. After) Refused
  unfolding record_command
  record-After = record {
    at = λ w p. rw (calm.records w.records) (record { verdict = p.verdict; results = p.results });
  }

  record-Before : Triple Before (record_command env) (λ _. Before) Refused
  unfolding record_command
  record-Before = record { at = λ w p. rw (calm.records w.records) p }

  publish-After :
      (v : Verdict)
      → Triple Before
          (publish_result env (record { request = req; verdict = v }))
          (λ _. After)
          Refused
  unfolding publish_result
  publish-After v = record {
    at = λ w p. rw (calm.publishes w.publications) (record { verdict = v; results = rw p });
  }

  dead-Before :
      (v : Verdict)
      → Triple Before
          (publish_dead env (record { request = req; verdict = v }))
          (λ _. Before)
          Refused
  unfolding publish_dead
  dead-Before v = record { at = λ w p. rw (calm.publishes w.publications) p }

  build-Before : (v : Verdict) → Triple Before (build_result env req v) (λ _. Before) Refused
  unfolding build_result require
  build-Before v = elim (Bool-cases (clashes req.extra (added_fields v))) [
    | inl c ↦ record {
      at = λ w p. rw c (record { verdict = v; clashing = c; raised = refl; unchanged = p });
    }
    | inr c ↦ record { at = λ w p. rw c p }
  ]

  unsettled-Settles : (v : Verdict) (m : Metric) → Settles (emit_unsettled env req v m)
  unfolding emit_unsettled
  unsettled-Settles v m =
      Triple-bind _ _ (λ _. After)
        (Triple-bind _ _ (λ _. Before)
          (Triple-bind _ _ (λ _. Before) (build-Before v) λ _. metric-Before m)
          λ _. publish-After v)
        λ _. record-After

  reject-Settles :
      (reason : String) (retryable : Bool) (category : String)
      → Settles (emit_reject env req reason retryable category)
  unfolding emit_reject
  reject-Settles reason retryable category =
      Triple-bind _ _ (λ _. After)
        (Triple-bind _ _ (λ _. After)
          (Triple-bind _ _ (λ _. Before)
            (Triple-bind _ _ (λ _. Before) (build-Before _) λ _. dead-Before _)
            λ _. publish-After _)
          λ _. record-After)
        λ _. metric-After _

  approval_count-After : (b : Bool) → Triple After (count_approval env req b) (λ _. After) Refused
  approval_count-After true = Triple-pure _ (λ w p. p)
  approval_count-After false = Triple-bind _ _ (λ _. After) (metric-After _) λ _. metric-After _

  written-Settles :
      (t : Option ℕ) (b : Bool) → is_some t ≡ true → Settles (approve_written env req t b)
  unfolding emit_approve
  written-Settles none b h = absurd (cc)
  written-Settles (some t) b h =
      Triple-bind _ _ (λ _. After)
        (Triple-bind _ _ (λ _. After)
          (Triple-bind _ _ (λ _. Before) (build-Before _) λ _. publish-After _) λ _. record-After)
        λ _. approval_count-After b

  replay-Before :
      (b : Bool) (o : Outcome) → Triple Before (count_replay env req b o) (λ _. Before) Refused
  replay-Before true o = metric-Before _
  replay-Before false o = Triple-pure _ (λ w p. p)

  outcome-Settles :
      (o : Outcome) (r : WriteResult)
      → (is_completed o ≡ true → is_some r.written_at ≡ true)
      → Settles (by_outcome env req o r)
  outcome-Settles Outcome.unknown r h = unsettled-Settles _ _
  outcome-Settles Outcome.pending r h = unsettled-Settles _ _
  outcome-Settles Outcome.conflict r h = reject-Settles _ _ _
  outcome-Settles Outcome.not_executed r h = reject-Settles _ _ _
  outcome-Settles Outcome.completed r h = written-Settles r.written_at r.replayed (h refl)

  settle-Settles :
      (o : Option WriteResult)
      → ((r : WriteResult)
          → o ≡ some r
          → is_completed r.outcome ≡ true
          → is_some r.written_at ≡ true)
      → Settles (settle env req o)
  settle-Settles none h = unsettled-Settles _ _
  settle-Settles (some r) h =
      Triple-bind _ _ (λ _. Before) (replay-Before r.replayed r.outcome)
        λ _. outcome-Settles r.outcome r (h r refl)

  read_write-written :
      (id : ℕ) (reply : Result (Incoming WriteResult)) (r : WriteResult)
      → read_write id reply ≡ some r
      → is_completed r.outcome ≡ true
      → is_some r.written_at ≡ true
  read_write-written id (err x) r h c = absurd (cc)
  read_write-written id (ok reply) r h c = ground arith

  replied-Settles :
      (id : ℕ) (x : Result (Result (Incoming WriteResult)))
      → (x ≡ err Exc.cancelled_error → ⊥)
      → Settles (write_replied env req id x)
  replied-Settles id (ok reply) h = settle-Settles _ (read_write-written id reply)
  replied-Settles id (err Exc.request_timeout) h =
      Triple-bind _ _ (λ _. Before) (metric-Before _) λ _. unsettled-Settles _ _
  replied-Settles id (err Exc.cancelled_error) h = absurd (h refl)
  replied-Settles id (err x) h = unsettled-Settles _ _

  module _ (settings : Settings) (write : Stage)
      (configured : stage_named "write_signal" settings.stages ≡ some write) where
    write-Settles :
        (id : ℕ) (e : SignedEvidence)
        → Settles (write_stage env req id e (stage_named "write_signal" settings.stages))
    write-Settles id e = rw configured (
        Triple-bind _ _ (λ _. Before) (Triple-modify _ (λ w p. p))
          λ _. replied-Settles id env.written calm.writes)

    gate-Settles : (b : Bool) (id : ℕ) (e : SignedEvidence) → Settles (gate env req settings b id e)
    gate-Settles false id e = reject-Settles _ _ _
    gate-Settles true id e = write-Settles id e

    approval-Settles :
        (id : ℕ) (o : Option SignedEvidence) → Settles (with_approval env req settings id o)
    approval-Settles id none = reject-Settles _ _ _
    approval-Settles id (some e) = gate-Settles settings.allow_writes id e

    decision-Settles :
        (id : ℕ) (d : Decision) (v : ValidationResult)
        → Settles (by_decision env req settings id d v)
    decision-Settles id Decision.reject v = reject-Settles _ _ _
    decision-Settles id Decision.approve v = approval-Settles id v.approval

    decided-Settles :
        (id : ℕ) (o : Option ValidationResult) → Settles (decided env req settings id o)
    decided-Settles id none = reject-Settles _ _ _
    decided-Settles id (some v) = decision-Settles id v.decision v

    validated-Settles :
        (id : ℕ) (x : Result (Result (Incoming ValidationResult)))
        → (x ≡ err Exc.cancelled_error → ⊥)
        → Settles (validate_replied env req settings id x)
    validated-Settles id (ok reply) h = decided-Settles id (read_validation id reply)
    validated-Settles id (err Exc.request_timeout) h =
        Triple-bind _ _ (λ _. Before) (metric-Before _) λ _. reject-Settles _ _ _
    validated-Settles id (err Exc.cancelled_error) h = absurd (h refl)
    validated-Settles id (err x) h = reject-Settles _ _ _

    stage-Settles :
        (id : ℕ) (a : AuthenticatedRequest F) (validation : Stage)
        → a.command ≡ req
        → Settles (validate_stage env settings id a (some validation))
    stage-Settles id a validation same = rw same (
        Triple-bind _ _ (λ _. Before) (Triple-modify _ (λ w p. p))
          λ _. validated-Settles id env.validated calm.validates)

-- A call settled a command, in a world with the results `rs` before, or an extra field clashed.
abbrev pub Settled :
    {F : Type 0} → ActuationRequest F → List (Published F) → Result (Unit {0}) × World F → Type 0
Settled req rs (x, w) =
    ((x ≡ ok tt) × OneMore req rs w) ⊎ ((e : Exc) × (x ≡ err e) × Clash req rs e w)

Settled-Ends :
    {F : Type 0} (req : ActuationRequest F) (rs : List (Published F))
    (x : Result (Unit {0}) × World F)
    → Ends (λ _. OneMore req rs) (Clash req rs) x
    → Settled req rs x
Settled-Ends req rs (ok tt, w) h = inl (refl, h)
Settled-Ends req rs (err e, w) h = inr (e, refl, h)

-- With both stages configured, and when publications and records do not raise and nothing is
-- cancelled, a message with a command of its own identifier, whatever the two stages reply, either is
-- handled to the end with exactly one result published, for that command; or, only when an extra field
-- of the command has the name of a field that a result adds, raises TypeError with no result published.
pub run_pipeline-settles :
    {F : Type 0} (env : Env) (settings : Settings) (msg : Incoming (AuthenticatedRequest F))
    (a : AuthenticatedRequest F) (validation write : Stage) (w : World F)
    → IsCalm env
    → stage_named "validate" settings.stages ≡ some validation
    → stage_named "write_signal" settings.stages ≡ some write
    → msg.payload ≡ ok a
    → a.command.correlation_id ≡ msg.correlation_id
    → Settled a.command w.results (run_pipeline env settings msg w)
unfolding run_pipeline
run_pipeline-settles env settings msg a validation write w calm v c p same =
    let here : (a.command.correlation_id == msg.correlation_id) ≡ true = ground (arith, same) in
    let settled : Triple (λ (u : World _). u.results ≡ w.results)
        (record_command env >> validate_stage env settings msg.correlation_id a (some validation))
        (λ _. OneMore a.command w.results) (Clash a.command w.results) =
      Triple-bind _ _ (λ _ (u : World _). u.results ≡ w.results)
        (record-Before env calm a.command w.results)
        λ _.
          stage-Settles env calm a.command w.results settings write c msg.correlation_id a
            validation refl in
    Settled-Ends a.command w.results _ (rw (p, here, v) (settled.at w refl))
