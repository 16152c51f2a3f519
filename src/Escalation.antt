-- ===== src/Escalation.antt =====
-- The escalation engine: cloud/escalation_worker, cloud/common/escalation.py,
-- cloud/common/on_call_resolver.py and cloud/common/incident_actions.py.
pub mod Loop
pub mod Config
pub mod Transition
pub mod Actions
pub mod Choice
pub mod Worker
pub mod Claims
