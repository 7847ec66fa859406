-- ===== src/Telemetry/Pipeline/Refinement.antt =====
-- pipeline.py of the contextualizer: what a signal comes to, as a function of the replies alone, and
-- that the pipeline does just that.
use zilina_eirvah_edge_impl.Prelude.{
  ℕ, ◌≡◌, refl, String, false, not, Option, none, some, List, [], ◌∷◌, if◌then◌else◌, ◌⊎◌, inl, inr,
  Bool-cases,
}
use zilina_eirvah_edge_impl.Prelude.Exceptions.{is_cancelled, Exc, exc_name, Result, ok, err}
use zilina_eirvah_edge_impl.Prelude.Exec.{Exec, lift, modify, ◌>>=◌, ◌>>◌}
use zilina_eirvah_edge_impl.Contracts.Envelope.{Status, is_ok, Incoming}
use zilina_eirvah_edge_impl.Contracts.Telemetry.{
  RawSignal, NormalizedSignal, ContextualizeResult, PublishRequest,
}
use zilina_eirvah_edge_impl.Telemetry.Pipeline.{
  Stage, Request, Metric, Env, World, Context, request_of, build_publish_request, reason_of,
  is_timeout, count_metric, send, publish_dlq, answered, run_stages, run_pipeline,
}

-- What a stage's answer comes to: a payload, or a reason with the counter of it.
abbrev pub read :
    {A : Type 0} → String → Result (Result (Incoming A)) → (String × Metric) ⊎ Result A
read stage (err e) =
    if is_timeout e
    then inl ("timeout", Metric.inc_stage_timeout stage)
    else inl (exc_name e, Metric.inc_stage_error stage (exc_name e))
read stage (ok (err e)) = inl ("BadReply", Metric.inc_stage_error stage "BadReply")
read stage (ok (ok reply)) =
    if not (is_ok reply.status)
    then inl (reason_of reply.error, Metric.inc_stage_error stage (reason_of reply.error))
    else inr reply.payload

-- The call of a stage is not cancelled.
abbrev pub Returns : {A : Type 0} → Result (Result (Incoming A)) → Type 0
Returns (err e) = is_cancelled e ≡ false
Returns (ok reply) = Unit {0}

-- The end of a signal: a publish request, or a dead letter
pub data Outcome (F : Type 0) : Type 0 where
  published : PublishRequest F → Outcome F
  dead : (stage reason : String) → Metric → Outcome F
  -- the payload of a reply without an error is not what the stage promises
  raised : Exc → Outcome F

-- The configuration: the three stages, with their subjects
abbrev pub publish_last : String → List Stage
publish_last c = record { name = "publish"; subject = c } ∷ []

abbrev pub contextualize_next : String → String → List Stage
contextualize_next b c = record { name = "contextualize"; subject = b } ∷ publish_last c

abbrev pub configured : String → String → String → List Stage
configured a b c = record { name = "convert"; subject = a } ∷ contextualize_next b c

module _ {F : Type 0} where
  abbrev pub publish_outcome : PublishRequest F → (String × Metric) ⊎ Result (Unit {0}) → Outcome F
  publish_outcome r (inl (reason, m)) = Outcome.dead "publish" reason m
  publish_outcome r (inr payload) = Outcome.published r

  abbrev pub contextualize_outcome :
      Context F
      → NormalizedSignal F
      → (String × Metric) ⊎ Result ContextualizeResult
      → ((String × Metric) ⊎ Result (Unit {0}))
      → Outcome F
  contextualize_outcome ctx n (inl (reason, m)) p = Outcome.dead "contextualize" reason m
  contextualize_outcome ctx n (inr (err e)) p = Outcome.raised e
  contextualize_outcome ctx n (inr (ok c)) p = publish_outcome (request_of ctx n c) p

  abbrev pub convert_outcome :
      Context F
      → (String × Metric) ⊎ Result (NormalizedSignal F)
      → (String × Metric) ⊎ Result ContextualizeResult
      → ((String × Metric) ⊎ Result (Unit {0}))
      → Outcome F
  convert_outcome ctx (inl (reason, m)) q p = Outcome.dead "convert" reason m
  convert_outcome ctx (inr (err e)) q p = Outcome.raised e
  convert_outcome ctx (inr (ok n)) q p = contextualize_outcome ctx n q p

  -- The specification
  abbrev pub outcome : Env F → Context F → Outcome F
  outcome env ctx =
      convert_outcome ctx (read "convert" env.converted) (read "contextualize" env.contextualized)
        (read "publish" env.published)

  -- What the pipeline has done when an outcome is reached: one dead letter with its counter and no
  -- other; or the request as the last thing sent, with the counter of successes; or an exception.
  abbrev pub Reaches :
      Env F → ℕ → RawSignal F → World F → Outcome F → Result (Unit {0}) × World F → Type 0
  Reaches env id raw w (Outcome.published r) (result, v) =
      (result ≡ ok tt)
      × (v.dead_letters ≡ w.dead_letters)
      × (v.metrics ≡ Metric.inc_success ∷ w.metrics)
      × ((subject : String) × (rest : List (Request F)) × (v.requests
            ≡ Request.publish subject r ∷ rest))
  Reaches env id raw w (Outcome.dead stage reason m) (result, v) =
      (result ≡ env.dead_lettered)
      × (v.dead_letters
          ≡ record { correlation_id = id; raw = raw; stage = stage; reason = reason }
            ∷ w.dead_letters)
      × (v.metrics ≡ m ∷ w.metrics)
  Reaches env id raw w (Outcome.raised e) (result, v) =
      (result ≡ err e) × (v.dead_letters ≡ w.dead_letters) × (v.metrics ≡ w.metrics)

  -- A context at a point of the loop
  abbrev pub at_point :
      ℕ → RawSignal F → Option (NormalizedSignal F) → Option ContextualizeResult → Context F
  at_point id raw n c = record {
    correlation_id = id;
    raw = raw;
    normalized = n;
    contextualized = c;
  }

  abbrev settled :
      {A : Type 0}
      → Env F
      → Context F
      → String
      → (Result A → Exec (World F) (Unit {0}))
      → (String × Metric) ⊎ Result A
      → Exec (World F) (Unit {0})
  settled env ctx stage next (inl (reason, m)) = count_metric m >> publish_dlq env ctx stage reason
  settled env ctx stage next (inr payload) = next payload

  answered-settled :
      {A : Type 0} (env : Env F) (ctx : Context F) (stage : String)
      (next : Result A → Exec (World F) (Unit {0})) (r : Result (Result (Incoming A)))
      → Returns r
      → answered env ctx stage next r ≡ settled env ctx stage next (read stage r)
  answered-settled env ctx stage next (err e) h = elim (Bool-cases (is_timeout e)) [
    | inl p ↦ rw p refl
    | inr q ↦ rw (q, h) refl
  ]
  answered-settled env ctx stage next (ok (err e)) h = refl
  answered-settled env ctx stage next (ok (ok reply)) h = elim (Bool-cases (is_ok reply.status)) [
    | inl p ↦ rw p refl
    | inr q ↦ rw q refl
  ]

  publish-Reaches :
      (env : Env F) (id : ℕ) (raw : RawSignal F) (n : NormalizedSignal F) (c : ContextualizeResult)
      (subject : String) (w : World F) (sent : List (Request F))
      (x : (String × Metric) ⊎ Result (Unit {0}))
      → let ctx = at_point id raw (some n) (some c) in
        let r = request_of ctx n c in
        Reaches env id raw w (publish_outcome r x) (
          settled env ctx "publish"
            (λ payload. run_stages env [] ctx)
            x
            (record w { requests = Request.publish subject r ∷ sent }))
  unfolding run_stages count_metric modify publish_dlq ◌>>=◌
  publish-Reaches env id raw n c subject w sent (inl (reason, m)) = (refl, refl, refl)
  publish-Reaches env id raw n c subject w sent (inr payload) =
      (refl, refl, refl, (subject, sent, refl))

  contextualize-Reaches :
      (env : Env F) (id : ℕ) (raw : RawSignal F) (n : NormalizedSignal F) (b c : String)
      (w : World F) (sent : List (Request F)) (x : (String × Metric) ⊎ Result ContextualizeResult)
      → Returns env.published
      → Reaches env id raw w
          (contextualize_outcome (at_point id raw (some n) none) n x (read "publish" env.published))
          (settled env
            (at_point id raw (some n) none)
            "contextualize"
            (λ payload. lift payload >>= λ k.
              run_stages env (publish_last c) (at_point id raw (some n) (some k)))
            x
            (record w { requests = sent }))
  unfolding run_stages build_publish_request count_metric modify publish_dlq lift send ◌>>=◌
  contextualize-Reaches env id raw n b c w sent (inl (reason, m)) h = (refl, refl, refl)
  contextualize-Reaches env id raw n b c w sent (inr (err e)) h = (refl, refl, refl)
  contextualize-Reaches env id raw n b c w sent (inr (ok k)) h =
      rw
        (answered-settled env (at_point id raw (some n) (some k)) "publish"
          (λ payload. run_stages env [] (at_point id raw (some n) (some k))) env.published h)
        (publish-Reaches env id raw n k c w sent (read "publish" env.published))

  convert-Reaches :
      (env : Env F) (id : ℕ) (raw : RawSignal F) (b c : String) (w : World F)
      (sent : List (Request F)) (x : (String × Metric) ⊎ Result (NormalizedSignal F))
      → Returns env.contextualized
      → Returns env.published
      → Reaches env id raw w
          (convert_outcome
            (at_point id raw none none)
            x
            (read "contextualize" env.contextualized)
            (read "publish" env.published))
          (settled env
            (at_point id raw none none)
            "convert"
            (λ payload. lift payload >>= λ n.
              run_stages env (contextualize_next b c) (at_point id raw (some n) none))
            x
            (record w { requests = sent }))
  unfolding run_stages count_metric modify publish_dlq lift send ◌>>=◌
  convert-Reaches env id raw b c w sent (inl (reason, m)) h k = (refl, refl, refl)
  convert-Reaches env id raw b c w sent (inr (err e)) h k = (refl, refl, refl)
  convert-Reaches env id raw b c w sent (inr (ok n)) h k =
      rw
        (answered-settled env (at_point id raw (some n) none) "contextualize"
          (λ payload. lift payload >>= λ x.
            run_stages env (publish_last c) (at_point id raw (some n) (some x)))
          env.contextualized h)
        (contextualize-Reaches env id raw n b c w (Request.contextualize b n ∷ sent)
          (read "contextualize" env.contextualized) k)

  -- A signal goes through the configured stages, none of whose calls is cancelled. The pipeline
  -- reaches the outcome that the replies specify: if every stage answers without an error, the publish
  -- request made of the signal and the two replies is the last thing sent, and a success is counted;
  -- else exactly one dead letter is published, which names the first stage that failed and the reason,
  -- and that is counted; or it raises, where a reply without an error has not the payload of its stage.
  pub run_pipeline-Reaches :
      (env : Env F) (id : ℕ) (raw : RawSignal F) (a b c : String) (w : World F)
      → Returns env.converted
      → Returns env.contextualized
      → Returns env.published
      → Reaches env id raw w (outcome env (at_point id raw none none)) (
          run_pipeline env
            (configured a b c)
            (record { correlation_id = id; status = Status.ok; error = none; payload = ok raw })
            w)
  unfolding run_pipeline run_stages modify send ◌>>=◌ lift
  run_pipeline-Reaches env id raw a b c w g h k =
      rw
        (answered-settled env (at_point id raw none none) "convert"
          (λ payload. lift payload >>= λ n.
            run_stages env (contextualize_next b c) (at_point id raw (some n) none))
          env.converted g)
        (convert-Reaches env id raw b c w (Request.convert a raw ∷ w.requests)
          (read "convert" env.converted) h k)
