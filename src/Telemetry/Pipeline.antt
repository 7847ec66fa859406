-- ===== src/Telemetry/Pipeline.antt =====
-- services/uns-contextualizer-orchestrator, pipeline.py and models.py: one signal through the stages
-- of the configuration. The replies of the stages, and whether a publication raises, are the
-- parameter `Env`. Logs and the measured latency are left out.
pub mod Refinement
use text.Mathlib.Text.{◌==◌ as str_eq}
use zilina_eirvah_edge_impl.Prelude.{
  ℕ, ◌≡◌, refl, String, Bool, true, false, not, Option, none, some, List, [], ◌∷◌, if◌then◌else◌,
  arith,
}
use zilina_eirvah_edge_impl.Prelude.Exceptions.{is_cancelled, Exc, exc_name, Result, ok, err}
use zilina_eirvah_edge_impl.Prelude.Exec.{Exec, pure, raise, lift, modify, ◌>>=◌, ◌>>◌}
use zilina_eirvah_edge_impl.Contracts.Envelope.{Status, is_ok, Incoming}
use zilina_eirvah_edge_impl.Contracts.Telemetry.{
  RawSignal, NormalizedSignal, ContextualizeResult, PublishRequest,
}

-- PipelineStage
pub record Stage : Type 0 where
  pub name : String
  pub subject : String

pub data Request (F : Type 0) : Type 0 where
  convert : (subject : String) → RawSignal F → Request F
  contextualize : (subject : String) → NormalizedSignal F → Request F
  publish : (subject : String) → PublishRequest F → Request F

-- The counters; each of a stage and a reason
pub data Metric : Type 0 where
  inc_stage_timeout : String → Metric
  inc_stage_error : String → String → Metric
  inc_success : Metric

-- What the stages answer, and the publication of a dead letter: a call raises, or a reply comes, which
-- is an envelope or is not.
pub record Env (F : Type 0) : Type 0 where
  pub converted : Result (Result (Incoming (NormalizedSignal F)))
  pub contextualized : Result (Result (Incoming ContextualizeResult))
  pub published : Result (Result (Incoming (Unit {0})))
  pub dead_lettered : Result (Unit {0})

-- A dead letter: its signal, the failing stage and the reason
pub record DeadLetter (F : Type 0) : Type 0 where
  pub correlation_id : ℕ
  pub raw : RawSignal F
  pub stage : String
  pub reason : String

pub record World (F : Type 0) : Type 0 where
  pub requests : List (Request F)
  pub dead_letters : List (DeadLetter F)
  pub metrics : List Metric

-- PipelineContext
pub record Context (F : Type 0) : Type 0 where
  pub correlation_id : ℕ
  pub raw : RawSignal F
  pub normalized : Option (NormalizedSignal F)
  pub contextualized : Option ContextualizeResult

-- The assertion of the stage "contextualize"
abbrev pub needed : {A : Type 0} → Option A → Result A
needed none = err Exc.assertion_error
needed (some a) = ok a

-- `reply_env.error.kind if reply_env.error else "unknown"`
abbrev pub reason_of : Option String → String
reason_of none = "unknown"
reason_of (some kind) = kind

abbrev pub is_timeout : Exc → Bool
is_timeout Exc.request_timeout = true
is_timeout _ = false

module _ {F : Type 0} where
  abbrev pub request_of : Context F → NormalizedSignal F → ContextualizeResult → PublishRequest F
  request_of ctx n c = record {
    uns_topic = c.uns_topic;
    correlation_id = ctx.correlation_id;
    value = n.value;
    value_type = n.value_type;
    unit = n.unit;
    quality = n.quality;
    semantic_type = c.semantic_type;
    uns_path = c.uns_path;
    source_endpoint = ctx.raw.source_endpoint;
    source_node_id = ctx.raw.node_id;
    position = ctx.raw.position;
    source_timestamp = ctx.raw.source_timestamp;
    edge_ingress = ctx.raw.received_at;
    sensor_uri = c.sensor_uri;
    feature_uri = c.feature_uri;
    property_uri = c.property_uri;
  }

  abbrev pub build_of :
      Context F
      → Option (NormalizedSignal F)
      → Option ContextualizeResult
      → Result (PublishRequest F)
  build_of ctx none c = err Exc.assertion_error
  build_of ctx (some n) none = err Exc.assertion_error
  build_of ctx (some n) (some c) = ok (request_of ctx n c)

  -- PipelineContext.build_publish_request
  unfoldable pub build_publish_request : Context F → Result (PublishRequest F)
  build_publish_request ctx = build_of ctx ctx.normalized ctx.contextualized

  unfoldable pub count_metric : Metric → Exec (World F) (Unit {0})
  count_metric m = modify (λ (w : World F). record w { metrics = m ∷ w.metrics })

  unfoldable pub send : Request F → Exec (World F) (Unit {0})
  send r = modify (λ (w : World F). record w { requests = r ∷ w.requests })

  module _ (env : Env F) where
    -- _publish_dlq
    unfoldable pub publish_dlq : Context F → String → String → Exec (World F) (Unit {0})
    publish_dlq ctx stage reason w = (
      env.dead_lettered,
      record w {
        dead_letters =
            record {
              correlation_id = ctx.correlation_id;
              raw = ctx.raw;
              stage = stage;
              reason = reason;
            }
            ∷ w.dead_letters;
      },
    )

    module _ {A : Type 0} (ctx : Context F) (stage : String)
        (next : Result A → Exec (World F) (Unit {0})) where
      abbrev pub failed : String → Exec (World F) (Unit {0})
      failed reason =
          count_metric (Metric.inc_stage_error stage reason) >> publish_dlq ctx stage reason

      -- From the answer of a stage to the validation of its payload
      abbrev pub answered : Result (Result (Incoming A)) → Exec (World F) (Unit {0})
      answered (err e) =
          if is_timeout e
          then count_metric (Metric.inc_stage_timeout stage) >> publish_dlq ctx stage "timeout"
          else if is_cancelled e
          then raise e
          else failed (exc_name e)
      answered (ok (err e)) = failed "BadReply"
      answered (ok (ok reply)) =
          if not (is_ok reply.status) then failed (reason_of reply.error) else next reply.payload

    -- One stage, and the rest of the loop
    module _ (stage : Stage) (rest : Context F → Exec (World F) (Unit {0})) where
      abbrev pub convert_stage : Context F → Exec (World F) (Unit {0})
      convert_stage ctx =
          send (Request.convert stage.subject ctx.raw)
          >> answered ctx stage.name
              (λ payload. lift payload >>= λ n. rest (record ctx { normalized = some n }))
              env.converted

      abbrev pub contextualize_stage : Context F → Exec (World F) (Unit {0})
      contextualize_stage ctx = lift (needed ctx.normalized) >>= λ n.
          send (Request.contextualize stage.subject n)
          >> answered ctx stage.name
              (λ payload. lift payload >>= λ c. rest (record ctx { contextualized = some c }))
              env.contextualized

      abbrev pub publish_stage : Context F → Exec (World F) (Unit {0})
      publish_stage ctx = lift (build_publish_request ctx) >>= λ r.
          send (Request.publish stage.subject r)
          >> answered ctx stage.name (λ payload. rest ctx) env.published

      abbrev pub run_stage : Context F → Exec (World F) (Unit {0})
      run_stage ctx =
          if str_eq stage.name "convert"
          then convert_stage ctx
          else if str_eq stage.name "contextualize"
          then contextualize_stage ctx
          else if str_eq stage.name "publish"
          then publish_stage ctx
          else rest ctx

    unfoldable pub run_stages : List Stage → Context F → Exec (World F) (Unit {0})
    run_stages [] ctx = count_metric Metric.inc_success
    run_stages (stage ∷ stages) ctx = run_stage stage (λ c. run_stages stages c) ctx

    -- run_pipeline; a signal that is not one is dropped.
    unfoldable pub run_pipeline : List Stage → Incoming (RawSignal F) → Exec (World F) (Unit {0})
    run_pipeline stages request = elim request.payload [
      | err e ↦ pure tt
      | ok raw ↦ run_stages stages (record {
        correlation_id = request.correlation_id;
        raw = raw;
        normalized = none;
        contextualized = none;
      })
    ]
