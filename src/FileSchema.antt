-- ===== src/FileSchema.antt =====
-- protocols/file/src/schema/index.ts: the messages of the file protocol and their codecs.
pub mod Meta
pub mod Chunk
pub mod Request
pub mod File
pub mod Ends
