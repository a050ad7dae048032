-- ===== src/Bridge.antt =====
-- libraries/rn-fula: the streams between a React Native app and the web view that holds the client.
-- types/index.ts: the messages.
pub mod Buffers
pub mod Sender
pub mod Receiver
pub mod WebReceiver
pub mod Delivery
pub mod Generator
pub mod Reader
pub mod Calls
pub mod Component
use fula_archived.Prelude.{String, Bool, Text}
use fula_archived.FileSchema.Meta.{Meta}

pub data ChunkStatusType : Type 0 where
  start chunk end : ChunkStatusType

-- A `Chunk`, whose `type` is always `MessageType.StreamChunk`.
pub record StreamChunk : Type 0 where
  pub id : Text
  pub meta : Meta
  pub status : ChunkStatusType
  pub data_text : Text
