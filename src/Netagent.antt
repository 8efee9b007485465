-- ===== src/Netagent.antt =====
-- The node agent for off-subnet client NAT (src/netagent).
pub mod Plan
pub mod Annotation
pub mod Counts
pub mod Agent
