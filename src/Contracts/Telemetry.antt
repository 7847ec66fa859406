-- ===== src/Contracts/Telemetry.antt =====
-- libs/eirvah-contracts: signals.py, pipeline.py, measurement.py and sosa.py, the messages of the
-- telemetry path. Schema versions are left out; a time is a number of microseconds.
use zilina_eirvah_edge_impl.Prelude.{
  ℕ, ◌≡◌, refl, String, Bool, not, ◌||◌, Option, none, some, [], ◌∷◌, if◌then◌else◌,
}
use zilina_eirvah_edge_impl.Prelude.Exceptions.{Exc, Result, ok, err, ◌>>=◌}
use zilina_eirvah_edge_impl.Prelude.Numbers.{Floats, Value, double, int, bool, str}
use zilina_eirvah_edge_impl.Prelude.Dict.{Dict, lookup}
use zilina_eirvah_edge_impl.Contracts.Actuation.{SignalValueType}
use zilina_eirvah_edge_impl.Contracts.Uns.{UnsPath}

pub data Quality : Type 0 where
  good uncertain bad : Quality

pub record SourcePosition : Type 0 where
  pub producer : String
  pub epoch : ℕ
  pub sequence : ℕ

pub record RawSignal (F : Type 0) : Type 0 where
  pub source_endpoint : String
  pub node_id : String
  pub value : Value F
  pub value_type : SignalValueType
  pub quality : Quality
  pub position : Option SourcePosition
  pub source_timestamp : ℕ
  pub received_at : ℕ

pub record NormalizedSignal (F : Type 0) : Type 0 where
  pub node_id : String
  pub value : Value F
  pub value_type : SignalValueType
  pub unit : String
  pub quality : Quality
  pub position : Option SourcePosition
  pub source_timestamp : ℕ
  pub received_at : ℕ

pub record ContextualizeResult : Type 0 where
  pub uns_topic : String
  pub uns_path : UnsPath
  pub semantic_type : String
  pub sensor_uri : String
  pub feature_uri : String
  pub property_uri : String

pub record PublishRequest (F : Type 0) : Type 0 where
  pub uns_topic : String
  pub correlation_id : ℕ
  pub value : Value F
  pub value_type : SignalValueType
  pub unit : String
  pub quality : Quality
  pub semantic_type : String
  pub uns_path : UnsPath
  pub source_endpoint : String
  pub source_node_id : String
  pub position : Option SourcePosition
  pub source_timestamp : ℕ
  pub edge_ingress : ℕ
  pub sensor_uri : String
  pub feature_uri : String
  pub property_uri : String

-- SOSAObservation
pub record SosaObservation (F : Type 0) : Type 0 where
  pub value_type : SignalValueType
  pub made_by_sensor : String
  pub has_feature_of_interest : String
  pub observed_property : String
  pub has_simple_result : Value F
  pub result_time : ℕ
  pub unit : String
  pub quality : Quality
  pub position : Option SourcePosition
  pub correlation_id : ℕ

-- The arithmetic of the conversions: x * y, x + y, x - y, and the rounding of a number to a multiple of
-- a step, by decimal numbers
pub record Arithmetic (F : Type 0) : Type 0 where
  pub mul : F → F → F
  pub add : F → F → F
  pub sub : F → F → F
  pub round_to : (step : F) → F → F

pub record EngineeringPrecision (F : Type 0) : Type 0 where
  pub resolution : F
  pub minimum : F
  pub maximum : F
  pub encoding_error : F

module _ (floats : Floats) (arithmetic : Arithmetic floats.Float) where
  open floats use {Float, le, is_finite, of_int}

  -- a < b, of two finite numbers
  abbrev pub lt : Float → Float → Bool
  lt a b = not (le b a)

  -- min(a, b) and max(a, b): the first of two equal ones
  abbrev pub min_of : Float → Float → Float
  min_of a b = if lt b a then b else a

  abbrev pub max_of : Float → Float → Float
  max_of a b = if lt a b then b else a

  abbrev pub not_finite : {A : Type 0} → Result A
  not_finite = err (Exc.value_error "engineering value must be a finite number")

  abbrev pub or_not_finite : Option Float → Result Float
  or_not_finite none = not_finite
  or_not_finite (some x) = ok x

  abbrev pub finite_number : Value Float → Result Float
  finite_number (double x) = ok x
  finite_number (int n) = or_not_finite (of_int n)
  finite_number (bool b) = not_finite
  finite_number (str s) = not_finite

  abbrev pub measured : EngineeringPrecision Float → Float → Result Float
  measured policy number =
      if not (is_finite number)
      then not_finite
      else if lt number (arithmetic.sub policy.minimum policy.encoding_error)
          || lt (arithmetic.add policy.maximum policy.encoding_error) number
      then err (Exc.value_error "engineering value outside declared range")
      else ok (
          arithmetic.round_to policy.resolution
            (min_of policy.maximum (max_of policy.minimum number)))

  -- normalize_measurement
  unfoldable pub normalize_measurement : Value Float → EngineeringPrecision Float → Result Float
  normalize_measurement value policy = finite_number value >>= measured policy

-- A JSON document, as far as an observation needs it: a text, a signal's value, a number, and objects
-- with one text or with a position
pub data Json (F : Type 0) : Type 0 where
  plain : String → Json F
  result : Value F → Json F
  identifier : ℕ → Json F
  value_type_of : SignalValueType → Json F
  quality_of : Quality → Json F
  reference : String → Json F
  position_of : SourcePosition → Json F

module _ {F : Type 0} (isoformat : ℕ → String) (fromisoformat : String → Result ℕ) where
  abbrev pub add_position : Option SourcePosition → Dict (Json F)
  add_position none = []
  add_position (some p) = ("eirvah:position", Json.position_of p) ∷ []

  -- SOSAObservation.to_jsonld; the context is a constant.
  unfoldable pub to_jsonld : SosaObservation F → Dict (Json F)
  to_jsonld o =
      ("@type", Json.plain "sosa:Observation")
      ∷ ("eirvah:valueType", Json.value_type_of o.value_type)
      ∷ ("sosa:madeBySensor", Json.reference o.made_by_sensor)
      ∷ ("sosa:hasFeatureOfInterest", Json.reference o.has_feature_of_interest)
      ∷ ("sosa:observedProperty", Json.reference o.observed_property)
      ∷ ("sosa:hasSimpleResult", Json.result o.has_simple_result)
      ∷ ("sosa:resultTime", Json.plain (isoformat o.result_time))
      ∷ ("eirvah:unit", Json.plain o.unit)
      ∷ ("eirvah:quality", Json.quality_of o.quality)
      ∷ ("eirvah:correlationId", Json.identifier o.correlation_id)
      ∷ add_position o.position

  -- doc[key], of what the key's field accepts
  abbrev pub at_key : {A : Type 0} → (Json F → Option A) → Option (Json F) → Result A
  at_key f none = err (Exc.other_error "KeyError")
  at_key f (some j) = elim (f j) [ none ↦ err (Exc.other_error "ValidationError") | some a ↦ ok a ]

  abbrev pub as_text : Json F → Option String
  as_text (Json.plain s) = some s
  as_text _ = none

  abbrev pub as_result : Json F → Option (Value F)
  as_result (Json.result v) = some v
  as_result _ = none

  abbrev pub as_identifier : Json F → Option ℕ
  as_identifier (Json.identifier n) = some n
  as_identifier _ = none

  abbrev pub as_value_type : Json F → Option SignalValueType
  as_value_type (Json.value_type_of t) = some t
  as_value_type _ = none

  abbrev pub as_quality : Json F → Option Quality
  as_quality (Json.quality_of q) = some q
  as_quality _ = none

  abbrev pub as_reference : Json F → Option String
  as_reference (Json.reference s) = some s
  as_reference _ = none

  abbrev pub read_position : Option (Json F) → Result (Option SourcePosition)
  read_position none = ok none
  read_position (some (Json.position_of p)) = ok (some p)
  read_position (some _) = err (Exc.other_error "ValidationError")

  -- SOSAObservation.from_jsonld
  unfoldable pub from_jsonld : Dict (Json F) → Result (SosaObservation F)
  from_jsonld doc = at_key as_value_type (lookup "eirvah:valueType" doc) >>= λ value_type.
      read_position (lookup "eirvah:position" doc) >>= λ position.
      at_key as_reference (lookup "sosa:madeBySensor" doc) >>= λ sensor.
      at_key as_reference (lookup "sosa:hasFeatureOfInterest" doc) >>= λ feature.
      at_key as_reference (lookup "sosa:observedProperty" doc) >>= λ property.
      at_key as_result (lookup "sosa:hasSimpleResult" doc) >>= λ value.
      at_key as_text (lookup "sosa:resultTime" doc) >>= λ time.
      fromisoformat time >>= λ result_time. at_key as_text (lookup "eirvah:unit" doc) >>= λ unit.
      at_key as_quality (lookup "eirvah:quality" doc) >>= λ quality.
      at_key as_identifier (lookup "eirvah:correlationId" doc) >>= λ id. ok (record {
        value_type = value_type;
        made_by_sensor = sensor;
        has_feature_of_interest = feature;
        observed_property = property;
        has_simple_result = value;
        result_time = result_time;
        unit = unit;
        quality = quality;
        position = position;
        correlation_id = id;
      })

  -- An observation comes back from its document, with or without a position, if its time does from its
  -- text.
  pub from_jsonld-to_jsonld :
      (o : SosaObservation F)
      → fromisoformat (isoformat o.result_time) ≡ ok o.result_time
      → from_jsonld (to_jsonld o) ≡ ok o
  unfolding from_jsonld to_jsonld
  from_jsonld-to_jsonld o h = by_position o.position refl
    where
      by_position : (p : Option SourcePosition) → o.position ≡ p → from_jsonld (to_jsonld o) ≡ ok o
      by_position none e = rw (e, h) refl
      by_position (some p) e = rw (e, h) refl
