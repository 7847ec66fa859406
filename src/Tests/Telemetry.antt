-- ===== src/Tests/Telemetry.antt =====
-- The telemetry path on one signal.
use zilina_eirvah_edge_impl.Prelude.{
  ℕ, ◌+◌, ◌-◌, ◌*◌, ◌/◌, refl, String, true, false, none, some, List, [], ◌∷◌,
}
use zilina_eirvah_edge_impl.Prelude.Exceptions.{Exc, err, Result, ok}
use zilina_eirvah_edge_impl.Prelude.Numbers.{double}
use zilina_eirvah_edge_impl.Prelude.Dict.{Dict}
use zilina_eirvah_edge_impl.Contracts.Actuation.{SignalValueType}
use zilina_eirvah_edge_impl.Contracts.Envelope.{Status, Incoming}
use zilina_eirvah_edge_impl.Contracts.Uns.{
  UnsPath, uns_path, build_uns_topic, is_field, is_segment, all_fields, join,
}
use zilina_eirvah_edge_impl.Contracts.Telemetry.{
  Quality, RawSignal, PublishRequest, Arithmetic, normalize_measurement,
}
use zilina_eirvah_edge_impl.Telemetry.Workers.{
  ConversionRule, Row, Client, Publisher, build_sosa_observation, handle_publish_request,
}
use zilina_eirvah_edge_impl.Telemetry.Workers
use zilina_eirvah_edge_impl.Telemetry.Publisher.{Tells, handle_publish_request-Tells}
use zilina_eirvah_edge_impl.Telemetry.Pipeline.{World, run_pipeline}
use zilina_eirvah_edge_impl.Telemetry.Pipeline.Refinement.{
  Reaches, outcome, at_point, configured, run_pipeline-Reaches,
}
use zilina_eirvah_edge_impl.Telemetry.Meaning.{Means, worker_env, outcome-Means, asking}
use zilina_eirvah_edge_impl.Validator.{to_float}
use zilina_eirvah_edge_impl.Tests.{naturals}

abbrev arithmetic : Arithmetic ℕ
arithmetic = record {
  mul = λ a b. a * b;
  add = λ a b. a + b;
  sub = λ a b. a - b;
  round_to = λ step a. a / step * step;
}

abbrev capper_path : UnsPath
capper_path = record {
  enterprise = "uniza";
  site = "zilina";
  area = "packaging";
  line = "line_1";
  cell = "capping";
  equipment = "capper";
  measurement = "torque";
}

abbrev signal : RawSignal ℕ
signal = record {
  source_endpoint = "s7";
  node_id = "torque";
  value = double 7;
  value_type = SignalValueType.double_type;
  quality = Quality.good;
  position = some (record { producer = "s7"; epoch = 1; sequence = 4 });
  source_timestamp = 100;
  received_at = 101;
}

abbrev rules : Dict (ConversionRule ℕ)
rules =
    (
      "torque",
      record {
        node_id = "torque";
        value_type = SignalValueType.double_type;
        unit = "Nm";
        drop_bad_quality = true;
        scale = some 10;
        offset = none;
        precision =
            some (record { resolution = 2; minimum = 0; maximum = 100; encoding_error = 0 });
      },
    )
    ∷ []

abbrev row : Row
row = record {
  unit = "Nm";
  value_type = "double";
  enterprise = "uniza";
  site = "zilina";
  area = "packaging";
  line = "line_1";
  cell = "capping";
  equipment = "capper";
  measurement = "torque";
  semantic_type = "Torque";
  sensor = "TorqueSensor01";
  feature = "Capper";
  property = "TorqueProperty";
}

abbrev query : String → Result (List Row)
query node = ok (row ∷ [])

abbrev done : Incoming (Unit {0})
done = record { correlation_id = 7; status = Status.ok; error = none; payload = ok tt }

abbrev request : PublishRequest ℕ
request = record {
  uns_topic = "uniza/zilina/packaging/line_1/capping/capper/torque";
  correlation_id = 7;
  value = double 70;
  value_type = SignalValueType.double_type;
  unit = "Nm";
  quality = Quality.good;
  semantic_type = "Torque";
  uns_path = capper_path;
  source_endpoint = "s7";
  source_node_id = "torque";
  position = some (record { producer = "s7"; epoch = 1; sequence = 4 });
  source_timestamp = 100;
  edge_ingress = 101;
  sensor_uri = "TorqueSensor01";
  feature_uri = "Capper";
  property_uri = "TorqueProperty";
}

outcome-Means_example : Means naturals arithmetic rules query 7 signal request
unfolding Workers.handle_convert_request Workers.apply_conversion Workers.converted_value to_float
    normalize_measurement Workers.handle_contextualize_request Workers.contextualize uns_path
    all_fields is_field is_segment build_uns_topic join
outcome-Means_example =
    outcome-Means naturals arithmetic rules query 7 signal (ok (ok done)) request refl

abbrev fresh : World ℕ
fresh = record { requests = []; dead_letters = []; metrics = [] }

run_pipeline-Reaches_example :
    let env = worker_env naturals arithmetic rules query 7 signal (ok (ok done)) in
    Reaches env 7 signal fresh
      (outcome env (at_point 7 signal none none))
      (run_pipeline env (configured "a" "b" "c") (asking 7 (ok signal)) fresh)
run_pipeline-Reaches_example =
    run_pipeline-Reaches (worker_env naturals arithmetic rules query 7 signal (ok (ok done))) 7
      signal "a" "b" "c" fresh tt tt tt

abbrev publisher : Publisher ℕ
publisher = record { connected = true; published = []; reconnect = false }

-- A message that goes out and whose acknowledgement is late
abbrev late : Client
late = record { answer = err (Exc.other_error "MqttError"); is_mqtt_error = true; sent = true }

handle_publish_request-Tells_example :
    Tells late 7
      (ok request)
      publisher
      (handle_publish_request late (asking 7 (ok request)) publisher)
handle_publish_request-Tells_example =
    handle_publish_request-Tells late (asking 7 (ok request)) publisher
