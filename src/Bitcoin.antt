-- ===== src/Bitcoin.antt =====
-- src/payment_communities/bitcoin: scripts, their interpreter, and transactions.
pub mod Numbers
pub mod Integers
pub mod Curve
pub mod Scalars
pub mod Tagged
pub mod Taproot
pub mod Script
pub mod Contracts
pub mod Machine
pub mod Dispatch
pub mod Interpreter
pub mod Witness
pub mod Builder
pub mod Signatures
pub mod Verification
pub mod Transaction
pub mod Tests
