-- ===== src/BoxGraph.antt =====
-- apps/box/src/graph/index.ts: what `registerGraph` sets up. `Collections` is `loadDB` and the messages on
-- the channel open-dbs, `Methods` is the two methods that answer queries.
pub mod Collections
pub mod Methods
