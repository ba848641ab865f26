-- ===== src/Network.antt =====
-- src/payment_communities/network: the graph of channels and the search for routes.
pub mod Graph
pub mod Queue
pub mod Routing
mod Tests
