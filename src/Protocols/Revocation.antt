-- ===== src/Protocols/Revocation.antt =====
-- src/payment_communities/protocols/revocation.py.
pub mod Store
pub mod Scripts
pub mod Breach
