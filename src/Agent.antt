-- ===== src/Agent.antt =====
-- services/decision-agent-stub/src/decision_agent_stub: the agent that asks for the rejection of a bottle
-- whose inspection failed, and follows it up.
pub mod State
pub mod Inspections
pub mod Mode
pub mod Rejections
