-- ===== src/FileSchema/Chunk.antt =====
-- protocols/file/src/schema/index.ts: the message `Chunk` and its binary codec, `Chunk$Type`.
pub mod RoundTrip
use fula_archived.Prelude.{
  ℕ, Bool, Option, none, some, List, [], ◌∷◌, ◌++◌, Text, Bytes, is_empty, Result, ◌==◌,
  if◌then◌else◌,
}
use fula_archived.Wire.{Wire, varint, length_delimited, OnUnknown, Unknown}
use fula_archived.Wire.Loop.{Step, read_message, read_field, read_unknown, write_unknown}

pub record Chunk : Type 0 where
  pub id : Text
  pub skip : Option ℕ
  pub limit : Option ℕ
  pub unknown : List Unknown

-- `create()`
abbrev pub create : Chunk
create = record { id = []; skip = none; limit = none; unknown = [] }

abbrev pub keep : Unknown → Chunk → Chunk
keep u m = record m { unknown = m.unknown ++ u ∷ [] }

module _ (w : Wire) (options : OnUnknown) where
  -- The switch on the field number.
  unfoldable pub read_case : Step Chunk
  read_case n t m bs =
      if n == 1
      then read_field w.read_string (λ s. record m { id = s }) bs
      else if n == 2
      then read_field w.read_uint64 (λ k. record m { skip = some k }) bs
      else if n == 3
      then read_field w.read_uint64 (λ k. record m { limit = some k }) bs
      else read_unknown w options "Chunk" keep n t m bs

  -- `internalBinaryRead(reader, length, options, target)`
  unfoldable pub read : ℕ → Option Chunk → Bytes → Result (Chunk × Bytes)
  read len none bs = read_message w read_case len create bs
  read len (some target) bs = read_message w read_case len target bs

module _ (w : Wire) (keep_fields : Bool) where
  -- `internalBinaryWrite(message, writer, options)`: what is appended to the writer.
  unfoldable pub write : Chunk → Bytes
  write m =
      (if is_empty m.id then [] else w.tag 1 length_delimited ++ w.string m.id)
      ++ ((elim m.skip [ none ↦ [] | some k ↦ w.tag 2 varint ++ w.uint64 k ])
          ++ ((elim m.limit [ none ↦ [] | some k ↦ w.tag 3 varint ++ w.uint64 k ])
              ++ write_unknown w keep_fields m.unknown))
