-- ===== src/Lib.antt =====
-- The edge integration layer: the path of an actuation command from the broker to a device, the path
-- of a signal from a device to its topic, the simulated plant, and the agent between them.
--
-- A command comes in over AMQP, is bound to the broker's user and is signed (ingress evidence,
-- services/amqp-actuation-event-subscriber). The orchestrator
-- (services/actuation-control-orchestrator) asks the validator, then the signal publisher, and
-- publishes the result. The validator (services/actuation-event-validator) checks the evidence and
-- the policy of the command's topic, and signs an approval. The signal publisher
-- (services/actuation-signal-publisher) checks the approval, admits the command in its durable
-- ledger and writes the value to a device: a Modbus or S7 command mailbox, or an OPC UA node. The
-- devices are simulated (services/modbus-simulator, services/s7-simulator); their controls are in
-- libs/eirvah-controls, with the durable state that lets producers and consumers of inspections
-- restart. A signal goes the other way: services/uns-contextualizer-orchestrator sends it to the
-- data converter, the contextualizer and the MQTT publisher. The decision agent
-- (services/decision-agent-stub) asks for the rejection of a bottle whose inspection failed.
--
--   Prelude     tests, lists and options; Exceptions: calls that return or raise; Exec: calls that
--               also change a state, and triples about them; Numbers: Python's numbers; Dict
--   Sql         a table as a list of rows: delete, update, insert and select
--   Contracts   libs/eirvah-contracts: Actuation (actuation.py), Envelope (envelope.py),
--               Authorization (authorization.py: require_key, command_digest, _signature, _sign,
--               verify_evidence), Inspection (inspection.py: decode_inspection, encode_inspection),
--               Inspection.Receipts (inspection.py: sign_receipt, verify_receipt),
--               Uns (uns.py), Telemetry (signals.py, pipeline.py, sosa.py, measurement.py)
--   Ingress     the AMQP subscriber, service.py: build_nats_envelope and the turn of its loop
--   Ledger      ledger.py of the signal publisher: CommandLedger, one function per method
--   Writer      the signal publisher: Native (native.py, write_opcua_value), Handler (service.py,
--               SignalPublisherWorker._handle); World is its state, Order to Approval are the proofs
--   Orchestrator services/actuation-control-orchestrator, pipeline.py: run_actuation_pipeline
--   Recovery    libs/eirvah-controls, recovery.py: Positions (ProducerPositions), Journal
--               (SourceJournal), Advance and Consumer (ConsumerStore)
--   Agent       services/decision-agent-stub: Inspections and Rejections (inspection.py,
--               InspectionRule and RejectionTracker), State (state.py, StateTracker), Mode
--               (service.py, ProductionModeRule)
--   Observability libs/eirvah-observability, execution.py: EvidenceBuffer
--   Plant       the simulators: Modbus (RegisterBlock, SimulatorRuntime: mailboxes, turns, restart)
--               and S7 (palletizer, capper and mailbox); Traffic has the writer's frames
--   Telemetry   Workers (the three workers' service.py), Pipeline (pipeline.py and models.py of the
--               contextualizer orchestrator); Refinement, Meaning and Publisher are the proofs
--   Validator   service.py of the validator: load_policy, validate_request, ValidatorWorker._handle
--   Controls    libs/eirvah-controls: MotorControl, ValveControl, RejectControl, InspectionStream
--   Tests       concrete inputs
--
-- A method that may raise returns a Result; one that also changes a state is an Exec, which keeps
-- what was written before a raise. A method of the ledger is one transaction: it returns with new
-- rows or raises with the old ones. Every reading of the clock, every random number and every
-- answer of the database, of the journal of evidence and of a device is a parameter (Env), so that
-- a theorem about the writer is about any such answers. Floating-point numbers, SHA-256 and HMAC
-- are parameters (Floats, Arithmetic, Crypto, Timestamps), and so are the registers of the Modbus
-- library, the draws of random numbers, the texts of the journal and the query of the ontology.
-- Identifiers, digests and tokens are only compared, and are numbers; instants are natural numbers
-- in a fixed unit. A message is given as what its parts validate to; a command keeps the fields that
-- its model does not name. A cancellation is an exception that `except Exception` lets pass.
--
-- All functions are total. The wait for an acknowledgement polls as often as fits in its timeout,
-- which is the number `rounds` of Env, and then raises, as the source does.
--
-- Not modelled: the start of the services, metrics and logs, configuration files, the transports
-- (NATS, AMQP, MQTT, OPC UA, Modbus and S7 libraries), the device subscribers, the runtime of the
-- decision agent, the OPC UA simulator, the byte layout of the S7 telemetry blocks, the file of the
-- journal of evidence, and the scripts of experiments.
pub mod Prelude
pub mod Sql
pub mod Contracts
pub mod Ledger
pub mod Controls
pub mod Validator
pub mod Orchestrator
pub mod Recovery
pub mod Plant
pub mod Telemetry
pub mod Ingress
pub mod Observability
pub mod Agent
pub mod Writer
pub mod Tests
