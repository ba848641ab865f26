-- ===== src/Protocols.antt =====
-- src/payment_communities/protocols: one child for each protocol module.
pub mod Revocation
pub mod Shachain
pub mod Anchors
pub mod Watchtower
pub mod Ptlc
pub mod Eltoo
pub mod Swaps
