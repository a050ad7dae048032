-- ===== src/Tests.antt =====
-- Tests on concrete inputs: the theorems applied, with stand-ins for the libraries that are not here.
mod Later
mod Files
mod Protocol
mod Queries
mod Streams
mod StandIns
mod Messages
mod Client
mod Boxes
mod Calls
mod Graphs
