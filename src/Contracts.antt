-- ===== src/Contracts.antt =====
-- libs/eirvah-contracts: the messages that the services exchange.
pub mod Actuation
pub mod Inspection
pub mod Uns
pub mod Telemetry
pub mod Envelope
pub mod Authorization
