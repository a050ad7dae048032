-- ===== src/GraphProtocol.antt =====
-- protocols/graph/src: the values of queries and results, and the exchange of queries.
pub mod Json
pub mod Binary
pub mod Messages
pub mod Queries
pub mod JsonForm
