-- ===== src/Telemetry/Meaning.antt =====
-- The workers behind the pipeline: what a published value means, from the signal, the conversion rule
-- and the row of the ontology.
use text.Mathlib.Text.{◌==◌ as str_eq}
use zilina_eirvah_edge_impl.Prelude.{
  ℕ, ◌≡◌, refl, ap, sym, ◌∙◌, String, true, false, ◌&&◌, Option, none, some, List, [], ◌∷◌, arith,
  ◌⊎◌, inl, inr, Bool-cases,
}
use zilina_eirvah_edge_impl.Prelude.Exceptions.{Result, ok, err, >>=-inv}
use zilina_eirvah_edge_impl.Prelude.Numbers.{Floats}
use zilina_eirvah_edge_impl.Prelude.Dict.{Dict, lookup}
use zilina_eirvah_edge_impl.Contracts.Envelope.{
  Status, payload_of, received, is_ok, Incoming, NatsEnvelope,
}
use zilina_eirvah_edge_impl.Contracts.Uns.{uns_path, build_uns_topic, parse_uns_topic, parse-build}
use zilina_eirvah_edge_impl.Contracts.Telemetry.{
  RawSignal, NormalizedSignal, ContextualizeResult, PublishRequest, Arithmetic,
}
use zilina_eirvah_edge_impl.Writer.Native.{type_name}
use zilina_eirvah_edge_impl.Telemetry.Workers.{
  ConversionRule, Row, context_of, converted_value, apply_conversion, is_bad, normalized_as,
  or_error, reply_converted, convert_by, handle_convert_request, contextualize_row, contextualize,
  reply_contextualized, handle_contextualize_request,
}
use zilina_eirvah_edge_impl.Telemetry.Pipeline.{Env, Context, Metric, request_of}
use zilina_eirvah_edge_impl.Telemetry.Pipeline.Refinement.{
  Outcome, read, publish_outcome, convert_outcome, outcome, at_point,
}

-- A request of the orchestrator
abbrev pub asking : {A : Type 0} → ℕ → Result A → Incoming A
asking id a = record { correlation_id = id; status = Status.ok; error = none; payload = a }

module _ (floats : Floats) (arithmetic : Arithmetic floats.Float)
    (rules : Dict (ConversionRule floats.Float)) (query : String → Result (List Row)) where
  open floats use {Float}

  -- The replies of the workers to a signal; that of the publisher is anything.
  abbrev pub worker_env : ℕ → RawSignal Float → Result (Result (Incoming (Unit {0}))) → Env Float
  worker_env id raw published =
      let converted =
        received (handle_convert_request floats arithmetic (asking id (ok raw)) rules) in
      record {
        converted = ok (ok converted);
        contextualized =
            ok (ok (received (handle_contextualize_request query (asking id converted.payload))));
        published = published;
        dead_lettered = ok tt;
      }

  -- What a publish request says of its signal
  pub record Means (id : ℕ) (raw : RawSignal Float) (r : PublishRequest Float) : Type 0 where
    pub rule : ConversionRule Float
    pub rule_of : lookup raw.node_id rules ≡ some rule
    pub value_of : converted_value floats arithmetic rule raw.value ≡ ok r.value
    pub unit_of : r.unit ≡ rule.unit
    pub type_of : r.value_type ≡ rule.value_type
    pub quality_of : r.quality ≡ raw.quality
    pub kept : (rule.drop_bad_quality && is_bad r.quality) ≡ false
    pub row : Row
    pub rows : List Row
    pub found : query raw.node_id ≡ ok (row ∷ rows)
    pub same_unit : str_eq r.unit row.unit ≡ true
    pub same_type : str_eq (type_name r.value_type) row.value_type ≡ true
    pub path_of :
        uns_path row.enterprise row.site row.area row.line row.cell row.equipment row.measurement
        ≡ ok r.uns_path
    pub topic_is : r.uns_topic ≡ build_uns_topic r.uns_path
    pub topic_of : parse_uns_topic r.uns_topic ≡ ok r.uns_path
    pub position_of : r.position ≡ raw.position
    pub time_of : r.source_timestamp ≡ raw.source_timestamp
    pub id_of : r.correlation_id ≡ id
    pub endpoint_of : r.source_endpoint ≡ raw.source_endpoint
    pub node_of : r.source_node_id ≡ raw.node_id
    pub semantic_of : r.semantic_type ≡ row.semantic_type
    pub sensor_of : r.sensor_uri ≡ row.sensor
    pub feature_of : r.feature_uri ≡ row.feature
    pub property_of : r.property_uri ≡ row.property

  publish_outcome-inv :
      (q r : PublishRequest Float) (z : (String × Metric) ⊎ Result (Unit {0}))
      → publish_outcome q z ≡ Outcome.published r
      → q ≡ r
  publish_outcome-inv q r (inl (reason, m)) h = absurd (cc h)
  publish_outcome-inv q r (inr payload) h = cc h

  convert_outcome-inv :
      (ctx : Context Float) (x : (String × Metric) ⊎ Result (NormalizedSignal Float))
      (y : (String × Metric) ⊎ Result ContextualizeResult)
      (z : (String × Metric) ⊎ Result (Unit {0})) (r : PublishRequest Float)
      → convert_outcome ctx x y z ≡ Outcome.published r
      → (n : NormalizedSignal Float) × (c : ContextualizeResult) × (x ≡ inr (ok n))
        × (y ≡ inr (ok c))
        × (request_of ctx n c ≡ r)
  convert_outcome-inv ctx (inl (reason, m)) y z r h = absurd (cc h)
  convert_outcome-inv ctx (inr (err e)) y z r h = absurd (cc h)
  convert_outcome-inv ctx (inr (ok n)) (inl (reason, m)) z r h = absurd (cc h)
  convert_outcome-inv ctx (inr (ok n)) (inr (err e)) z r h = absurd (cc h)
  convert_outcome-inv ctx (inr (ok n)) (inr (ok c)) z r h =
      (n, c, refl, refl, publish_outcome-inv (request_of ctx n c) r z h)

  read-inv :
      {A : Type 0} (stage : String) (reply : NatsEnvelope A) (a : A)
      → read stage (ok (ok (received reply))) ≡ inr (ok a)
      → reply.payload ≡ some a
  read-inv stage reply a h = elim (Bool-cases (is_ok reply.status)) [
    | inl p ↦ payload-inv reply.payload (ground (arith, p, h))
    | inr q ↦ absurd (ground (arith, q, h))
  ]
    where
      payload-inv : {B : Type 0} {b : B} (o : Option B) → payload_of o ≡ ok b → o ≡ some b
      payload-inv none h = absurd (cc h)
      payload-inv (some c) h = cc h

  or_error-inv :
      {A : Type 0} (id : ℕ) (m : Result (NatsEnvelope A)) (a : A)
      → (or_error id m).payload ≡ some a
      → (reply : NatsEnvelope A) × (m ≡ ok reply) × (reply.payload ≡ some a)
  or_error-inv id (ok reply) a h = (reply, refl, h)
  or_error-inv id (err e) a h = absurd (cc h)

  reply_converted-inv :
      (id : ℕ) (o : Option (NormalizedSignal Float)) (n : NormalizedSignal Float)
      → (reply_converted floats arithmetic id o).payload ≡ some n
      → o ≡ some n
  reply_converted-inv id none n h = absurd (cc h)
  reply_converted-inv id (some m) n h = h

  -- What a converted signal says of a signal
  record Converts (raw : RawSignal Float) (n : NormalizedSignal Float) : Type 0 where
    pub rule : ConversionRule Float
    pub rule_of : lookup raw.node_id rules ≡ some rule
    pub value_of : converted_value floats arithmetic rule raw.value ≡ ok n.value
    pub unit_of : n.unit ≡ rule.unit
    pub type_of : n.value_type ≡ rule.value_type
    pub quality_of : n.quality ≡ raw.quality
    pub node_of : n.node_id ≡ raw.node_id
    pub kept : (rule.drop_bad_quality && is_bad raw.quality) ≡ false

  apply_conversion-Converts :
      (raw : RawSignal Float) (rule : ConversionRule Float) (n : NormalizedSignal Float)
      → lookup raw.node_id rules ≡ some rule
      → apply_conversion floats arithmetic raw rule ≡ ok (some n)
      → Converts raw n
  unfolding apply_conversion
  apply_conversion-Converts raw rule n l h =
      elim (Bool-cases (rule.drop_bad_quality && is_bad raw.quality)) [
        | inl bad ↦ absurd (ground (arith, bad, h))
        | inr kept ↦
            let (v, e, f) =
              >>=-inv (converted_value floats arithmetic rule raw.value)
                (λ v. ok (some (normalized_as floats arithmetic raw rule v))) (some n)
                (ground (arith, kept, h)) in
            record {
              rule = rule;
              rule_of = l;
              value_of = ground (arith, e, f);
              unit_of = ground (arith, f);
              type_of = ground (arith, f);
              quality_of = ground (arith, f);
              node_of = ground (arith, f);
              kept = kept;
            }
      ]

  convert_by-Converts :
      (id : ℕ) (raw : RawSignal Float) (o : Option (ConversionRule Float))
      (reply : NatsEnvelope (NormalizedSignal Float)) (n : NormalizedSignal Float)
      → lookup raw.node_id rules ≡ o
      → convert_by floats arithmetic id raw o ≡ ok reply
      → reply.payload ≡ some n
      → Converts raw n
  convert_by-Converts id raw none reply n l h p = absurd (ground (arith, h, p))
  convert_by-Converts id raw (some rule) reply n l h p =
      let (o, e, f) = >>=-inv (apply_conversion floats arithmetic raw rule) _ reply h in
      let g = reply_converted-inv id o n (ground (arith, f, p)) in
      apply_conversion-Converts raw rule n l (ground (arith, e, g))

  handle_convert-Converts :
      (id : ℕ) (raw : RawSignal Float) (n : NormalizedSignal Float)
      → (handle_convert_request floats arithmetic (asking id (ok raw)) rules).payload ≡ some n
      → Converts raw n
  unfolding handle_convert_request
  handle_convert-Converts id raw n h =
      let (reply, e, p) =
        or_error-inv id (convert_by floats arithmetic id raw (lookup raw.node_id rules)) n h in
      convert_by-Converts id raw (lookup raw.node_id rules) reply n refl e p

  -- What a context says of a converted signal
  record Places (n : NormalizedSignal Float) (c : ContextualizeResult) : Type 0 where
    pub row : Row
    pub rows : List Row
    pub found : query n.node_id ≡ ok (row ∷ rows)
    pub same_unit : str_eq n.unit row.unit ≡ true
    pub same_type : str_eq (type_name n.value_type) row.value_type ≡ true
    pub path_of :
        uns_path row.enterprise row.site row.area row.line row.cell row.equipment row.measurement
        ≡ ok c.uns_path
    pub topic_is : c.uns_topic ≡ build_uns_topic c.uns_path
    pub topic_of : parse_uns_topic c.uns_topic ≡ ok c.uns_path
    pub semantic_of : c.semantic_type ≡ row.semantic_type
    pub sensor_of : c.sensor_uri ≡ row.sensor
    pub feature_of : c.feature_uri ≡ row.feature
    pub property_of : c.property_uri ≡ row.property

  contextualize_row-Places :
      (n : NormalizedSignal Float) (row : Row) (rows : List Row) (c : ContextualizeResult)
      → query n.node_id ≡ ok (row ∷ rows)
      → contextualize_row n row ≡ ok c
      → Places n c
  contextualize_row-Places n row rows c q h = elim (Bool-cases (str_eq n.unit row.unit)) [
    | inr other ↦ absurd (ground (arith, other, h))
    | inl units ↦ elim (Bool-cases (str_eq (type_name n.value_type) row.value_type)) [
      | inr other ↦ absurd (ground (arith, other, units, h))
      | inl types ↦
          let (path, e, f) =
            >>=-inv
              (uns_path row.enterprise row.site row.area row.line row.cell row.equipment
                row.measurement)
              (λ p. ok (context_of row p)) c (ground (arith, types, units, h)) in
          let parsed =
            parse-build row.enterprise row.site row.area row.line row.cell row.equipment
              row.measurement path e in
          let same : context_of row path ≡ c = cc f in
          record {
            row = row;
            rows = rows;
            found = q;
            same_unit = units;
            same_type = types;
            path_of = e ∙ ap (λ k. ok k.uns_path) same;
            topic_is = ap (λ k. k.uns_topic) (sym same) ∙ ap (λ k. build_uns_topic k.uns_path) same;
            semantic_of = ap (λ k. k.semantic_type) (sym same);
            sensor_of = ap (λ k. k.sensor_uri) (sym same);
            feature_of = ap (λ k. k.feature_uri) (sym same);
            topic_of =
                ap (λ k. parse_uns_topic k.uns_topic) (sym same)
                ∙ parsed
                ∙ ap (λ k. ok k.uns_path) same;
            property_of = ap (λ k. k.property_uri) (sym same);
          }
    ]
  ]

  contextualize-Places :
      (n : NormalizedSignal Float) (rows : List Row) (c : ContextualizeResult)
      → query n.node_id ≡ ok rows
      → contextualize n rows ≡ ok (some c)
      → Places n c
  unfolding contextualize
  contextualize-Places n [] c q h = absurd (cc h)
  contextualize-Places n (row ∷ rows) c q h =
      let (d, e, f) = >>=-inv (contextualize_row n row) _ (some c) h in
      contextualize_row-Places n row rows c q (ground (arith, e, f))

  reply_contextualized-inv :
      (id : ℕ) (o : Option ContextualizeResult) (c : ContextualizeResult)
      → (reply_contextualized id o).payload ≡ some c
      → o ≡ some c
  reply_contextualized-inv id none c h = absurd (cc h)
  reply_contextualized-inv id (some d) c h = h

  handle_contextualize-Places :
      (id : ℕ) (n : NormalizedSignal Float) (c : ContextualizeResult)
      → (handle_contextualize_request query (asking id (ok n))).payload ≡ some c
      → Places n c
  unfolding handle_contextualize_request
  handle_contextualize-Places id n c h =
      let (reply, e, p) = or_error-inv id _ c h in
      let (rows, q, f) = >>=-inv (query n.node_id) _ reply e in
      let (o, g, k) = >>=-inv (contextualize n rows) _ reply f in
      let m = reply_contextualized-inv id o c (ground (arith, k, p)) in
      contextualize-Places n rows c q (ground (arith, g, m))

  -- Whatever is published for a signal, when the two workers answer, has the value that the conversion
  -- rule of the signal's node makes of it, in the rule's unit and type, which are also those of the
  -- node's row in the ontology; its path is made of the row's enterprise, site, area, line, cell,
  -- equipment and measurement, its topic is the text of that path and parses back to it, and its
  -- semantic type, sensor, feature and property are the row's; its endpoint, node, position, quality,
  -- source time and correlation identifier are the signal's own; and a signal of bad quality, where the
  -- rule drops it, is not published.
  pub outcome-Means :
      (id : ℕ) (raw : RawSignal Float) (published : Result (Result (Incoming (Unit {0}))))
      (r : PublishRequest Float)
      → outcome (worker_env id raw published) (at_point id raw none none) ≡ Outcome.published r
      → Means id raw r
  outcome-Means id raw published r h =
      let (n, c, e, f, g) = convert_outcome-inv (at_point id raw none none) _ _ _ r h in
      let first = handle_convert_request floats arithmetic (asking id (ok raw)) rules in
      let p = read-inv "convert" first n e in
      let v = handle_convert-Converts id raw n p in
      let asked : payload_of first.payload ≡ ok n = ap payload_of p in
      let second = handle_contextualize_request query (asking id (payload_of first.payload)) in
      let q = read-inv "contextualize" second c f in
      let l =
        handle_contextualize-Places id n c
          (ap (λ x. (handle_contextualize_request query (asking id x)).payload) (sym asked) ∙ q) in
      let same : request_of (at_point id raw none none) n c ≡ r = g in
      rw (sym same) (record {
        rule = v.rule;
        rule_of = v.rule_of;
        value_of = v.value_of;
        unit_of = v.unit_of;
        type_of = v.type_of;
        quality_of = v.quality_of;
        kept = ap (λ x. v.rule.drop_bad_quality && is_bad x) v.quality_of ∙ v.kept;
        row = l.row;
        rows = l.rows;
        found = ap query (sym v.node_of) ∙ l.found;
        same_unit = l.same_unit;
        same_type = l.same_type;
        path_of = l.path_of;
        topic_is = l.topic_is;
        topic_of = l.topic_of;
        endpoint_of = refl;
        node_of = refl;
        semantic_of = l.semantic_of;
        sensor_of = l.sensor_of;
        feature_of = l.feature_of;
        position_of = refl;
        time_of = refl;
        id_of = refl;
        property_of = l.property_of;
      })
