-- ===== src/Graph.antt =====
-- apps/box/src/graph/gql-engine: the queries of the box's document stores.
pub mod Values
pub mod Filter
pub mod Objects
pub mod Resolvers
pub mod Engine
