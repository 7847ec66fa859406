-- ===== src/Telemetry/Workers.antt =====
-- services/data-converter, services/uns-auto-contextualizer and services/mqtt-uns-publisher, service.py
-- of each: what a worker replies to a request. The query of the ontology, the MQTT client and the
-- arithmetic of floating-point numbers are parameters.
use text.Mathlib.Text.{◌==◌ as str_eq}
use zilina_eirvah_edge_impl.Prelude.{
  ℕ, String, Bool, true, false, not, ◌&&◌, ◌||◌, Option, none, some, List, [], ◌∷◌, if◌then◌else◌,
}
use zilina_eirvah_edge_impl.Prelude.Exceptions.{Exc, is_cancelled, exc_name, Result, ok, err, ◌>>=◌}
use zilina_eirvah_edge_impl.Prelude.Numbers.{Floats, Value, double}
use zilina_eirvah_edge_impl.Prelude.Dict.{Dict, lookup}
use zilina_eirvah_edge_impl.Contracts.Actuation.{SignalValueType}
use zilina_eirvah_edge_impl.Contracts.Envelope.{Status, NatsEnvelope, Incoming}
use zilina_eirvah_edge_impl.Contracts.Uns.{UnsPath, uns_path, build_uns_topic}
use zilina_eirvah_edge_impl.Contracts.Telemetry.{
  Quality, RawSignal, NormalizedSignal, ContextualizeResult, PublishRequest, SosaObservation,
  Arithmetic, EngineeringPrecision, normalize_measurement,
}
use zilina_eirvah_edge_impl.Validator.{to_float}
use zilina_eirvah_edge_impl.Writer.Native.{type_name}

-- NATSEnvelope(correlation_id=…, payload=…), and one with status "error", for a valid identifier
abbrev pub reply_ok : {A : Type 0} → ℕ → A → NatsEnvelope A
reply_ok id a = record { correlation_id = id; status = Status.ok; payload = some a; error = none }

abbrev pub reply_error : {A : Type 0} → ℕ → String → NatsEnvelope A
reply_error id kind = record {
  correlation_id = id;
  status = Status.error;
  payload = none;
  error = some kind;
}

-- The `except` of a handler: what raises becomes an error with the name of its class.
abbrev pub or_error : {A : Type 0} → ℕ → Result (NatsEnvelope A) → NatsEnvelope A
or_error id (ok reply) = reply
or_error id (err e) = reply_error id (exc_name e)

pub record ConversionRule (F : Type 0) : Type 0 where
  pub node_id : String
  pub value_type : SignalValueType
  pub unit : String
  pub drop_bad_quality : Bool
  pub scale : Option F
  pub offset : Option F
  pub precision : Option (EngineeringPrecision F)

abbrev pub is_bad : Quality → Bool
is_bad Quality.bad = true
is_bad Quality.good = false
is_bad Quality.uncertain = false

module _ (floats : Floats) (arithmetic : Arithmetic floats.Float) where
  open floats use {Float}

  abbrev pub scaled : Option Float → Value Float → Result (Value Float)
  scaled none value = ok value
  scaled (some k) value = to_float floats value >>= λ x. ok (double (arithmetic.mul x k))

  abbrev pub shifted : Option Float → Value Float → Result (Value Float)
  shifted none value = ok value
  shifted (some k) value = to_float floats value >>= λ x. ok (double (arithmetic.add x k))

  abbrev pub rounded : Option (EngineeringPrecision Float) → Value Float → Result (Value Float)
  rounded none value = ok value
  rounded (some policy) value =
      normalize_measurement floats arithmetic value policy >>= λ x. ok (double x)

  -- The value that a rule makes of a value
  unfoldable pub converted_value : ConversionRule Float → Value Float → Result (Value Float)
  converted_value rule value =
      scaled rule.scale value >>= shifted rule.offset >>= rounded rule.precision

  abbrev pub normalized_as :
      RawSignal Float → ConversionRule Float → Value Float → NormalizedSignal Float
  normalized_as raw rule value = record {
    node_id = raw.node_id;
    value = value;
    value_type = rule.value_type;
    unit = rule.unit;
    quality = raw.quality;
    position = raw.position;
    source_timestamp = raw.source_timestamp;
    received_at = raw.received_at;
  }

  -- apply_conversion; `none` is None.
  unfoldable pub apply_conversion :
      RawSignal Float → ConversionRule Float → Result (Option (NormalizedSignal Float))
  apply_conversion raw rule =
      let converted =
        converted_value rule raw.value >>= λ value. ok (some (normalized_as raw rule value)) in
      if rule.drop_bad_quality && is_bad raw.quality then ok none else converted

  abbrev pub reply_converted :
      ℕ → Option (NormalizedSignal Float) → NatsEnvelope (NormalizedSignal Float)
  reply_converted id none = reply_error id "DroppedQuality"
  reply_converted id (some normalized) = reply_ok id normalized

  abbrev pub convert_by :
      ℕ
      → RawSignal Float
      → Option (ConversionRule Float)
      → Result (NatsEnvelope (NormalizedSignal Float))
  convert_by id raw none = ok (reply_error id "UnknownNode")
  convert_by id raw (some rule) = apply_conversion raw rule >>= λ o. ok (reply_converted id o)

  -- handle_convert_request
  unfoldable pub handle_convert_request :
      Incoming (RawSignal Float)
      → Dict (ConversionRule Float)
      → NatsEnvelope (NormalizedSignal Float)
  handle_convert_request request rules =
      or_error request.correlation_id (
        request.payload >>= λ raw. convert_by request.correlation_id raw (lookup raw.node_id rules))

-- A row of the query
pub record Row : Type 0 where
  pub unit : String
  pub value_type : String
  pub enterprise : String
  pub site : String
  pub area : String
  pub line : String
  pub cell : String
  pub equipment : String
  pub measurement : String
  pub semantic_type : String
  pub sensor : String
  pub feature : String
  pub property : String

abbrev pub reply_contextualized : ℕ → Option ContextualizeResult → NatsEnvelope ContextualizeResult
reply_contextualized id none = reply_error id "UnknownNode"
reply_contextualized id (some c) = reply_ok id c

-- The publisher: its MQTT connection, what it has published to a topic, and whether it asked for a
-- new connection
pub record Publisher (F : Type 0) : Type 0 where
  pub connected : Bool
  pub published : List (String × SosaObservation F)
  pub reconnect : Bool

-- The reply to an exception: a cancellation has none.
abbrev pub reply_raised : ℕ → Exc → Result (NatsEnvelope (Unit {0}))
reply_raised id e = if is_cancelled e then err e else ok (reply_error id (exc_name e))

-- What the client does at a publication: it returns or raises; whether what it raises is an MqttError,
-- and whether the message went out all the same, as when the broker's acknowledgement is late
pub record Client : Type 0 where
  pub answer : Result (Unit {0})
  pub is_mqtt_error : Bool
  pub sent : Bool

abbrev pub context_of : Row → UnsPath → ContextualizeResult
context_of row path = record {
  uns_topic = build_uns_topic path;
  uns_path = path;
  semantic_type = row.semantic_type;
  sensor_uri = row.sensor;
  feature_uri = row.feature;
  property_uri = row.property;
}

module _ {F : Type 0} where
  abbrev pub contextualize_row : NormalizedSignal F → Row → Result ContextualizeResult
  contextualize_row normalized row =
      if not (str_eq normalized.unit row.unit)
        || not (str_eq (type_name normalized.value_type) row.value_type)
      then err (Exc.value_error "normalized value does not match ontology unit/type")
      else uns_path row.enterprise row.site row.area row.line row.cell row.equipment row.measurement
        >>= λ path. ok (context_of row path)

  -- contextualize, of what the query finds
  unfoldable pub contextualize : NormalizedSignal F → List Row → Result (Option ContextualizeResult)
  contextualize normalized [] = ok none
  contextualize normalized (row ∷ rows) = contextualize_row normalized row >>= λ c. ok (some c)

  -- handle_contextualize_request, with the query of the graph
  unfoldable pub handle_contextualize_request :
      (query : String → Result (List Row))
      → Incoming (NormalizedSignal F)
      → NatsEnvelope ContextualizeResult
  handle_contextualize_request query request = or_error request.correlation_id (
      request.payload >>= λ normalized. query normalized.node_id >>= λ rows.
      contextualize normalized rows >>= λ o. ok (reply_contextualized request.correlation_id o))

  -- build_sosa_observation
  unfoldable pub build_sosa_observation : PublishRequest F → SosaObservation F
  build_sosa_observation req = record {
    value_type = req.value_type;
    made_by_sensor = req.sensor_uri;
    has_feature_of_interest = req.feature_uri;
    observed_property = req.property_uri;
    has_simple_result = req.value;
    result_time = req.source_timestamp;
    unit = req.unit;
    quality = req.quality;
    position = req.position;
    correlation_id = req.correlation_id;
  }

  -- What is published for a request, before what has been published
  abbrev pub with_observation :
      PublishRequest F → List (String × SosaObservation F) → List (String × SosaObservation F)
  with_observation req published = (req.uns_topic, build_sosa_observation req) ∷ published

  -- client.publish: an MqttError asks for a new connection.
  abbrev pub publish_observation :
      Client
      → Result (Unit {0})
      → ℕ
      → PublishRequest F
      → Publisher F
      → Result (NatsEnvelope (Unit {0})) × Publisher F
  publish_observation client (ok _) id req w = (
    ok (record { correlation_id = id; status = Status.ok; payload = none; error = none }),
    record w { published = with_observation req w.published },
  )
  publish_observation client (err e) id req w = (
    reply_raised id e,
    record w {
      published = if client.sent then with_observation req w.published else w.published;
      reconnect = client.is_mqtt_error || w.reconnect;
    },
  )

  abbrev pub publish_request :
      Client
      → ℕ
      → Result (PublishRequest F)
      → Publisher F
      → Result (NatsEnvelope (Unit {0})) × Publisher F
  publish_request client id (err e) w = (reply_raised id e, w)
  publish_request client id (ok req) w =
      if not w.connected
      then (ok (reply_error id "RuntimeError"), w)
      else publish_observation client client.answer id req w

  -- MqttPublisherWorker._handle, of a message that is an envelope, up to the reply
  unfoldable pub handle_publish_request :
      Client
      → Incoming (PublishRequest F)
      → Publisher F
      → Result (NatsEnvelope (Unit {0})) × Publisher F
  handle_publish_request client request w =
      publish_request client request.correlation_id request.payload w
