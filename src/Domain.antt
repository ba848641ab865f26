-- ===== src/Domain.antt =====
-- src/payment_communities/domain: policies, specifications, channels and nodes.
pub mod Policies
pub mod Predicates
pub mod Records
pub mod Channel
pub mod Node
