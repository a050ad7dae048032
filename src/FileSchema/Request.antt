-- ===== src/FileSchema/Request.antt =====
-- protocols/file/src/schema/index.ts: the message `Request` and its binary codec, `Request$Type`.
pub mod RoundTrip
use fula_archived.Prelude.{
  ℕ, Bool, true, Option, none, some, List, [], ◌∷◌, ◌++◌, length, Text, Bytes, Result, ok, ◌>>=◌,
  ◌==◌, if◌then◌else◌,
}
use fula_archived.Wire.{Wire, length_delimited, OnUnknown, keep_unknown, Unknown}
use fula_archived.Wire.Loop.{
  Step, read_message, read_field, read_nested, read_unknown, write_nested, write_unknown,
}
use fula_archived.FileSchema.Meta
use fula_archived.FileSchema.Meta.{Meta}
use fula_archived.FileSchema.Chunk
use fula_archived.FileSchema.Chunk.{Chunk}

-- The `oneof` of a request; `absent` is `oneofKind: undefined`.
pub data RequestType : Type 0 where
  meta : Text → RequestType
  receive : Chunk → RequestType
  send : Meta → RequestType
  absent : RequestType

pub record Request : Type 0 where
  pub type : RequestType
  pub unknown : List Unknown

-- `create()`
abbrev pub create : Request
create = record { type = absent; unknown = [] }

abbrev pub keep : Unknown → Request → Request
keep u m = record m { unknown = m.unknown ++ u ∷ [] }

-- `(message.type as any).receive` and `.send`, the targets that a second occurrence is merged into.
abbrev pub receive_of : RequestType → Option Chunk
receive_of (receive c) = some c
receive_of t = none

abbrev pub send_of : RequestType → Option Meta
send_of (send m) = some m
send_of t = none

module _ (w : Wire) (options : OnUnknown) where
  -- The switch on the field number.
  unfoldable pub read_case : Step Request
  read_case n t m bs =
      if n == 1
      then read_field w.read_string (λ s. record m { type = meta s }) bs
      else if n == 2
      then read_nested w (λ len r. Chunk.read w options len (receive_of m.type) r)
          (λ c. record m { type = receive c }) bs
      else if n == 3
      then read_nested w (λ len r. Meta.read w options len (send_of m.type) r)
          (λ x. record m { type = send x }) bs
      else read_unknown w options "Request" keep n t m bs

  -- `internalBinaryRead(reader, length, options, target)`
  unfoldable pub read : ℕ → Option Request → Bytes → Result (Request × Bytes)
  read len none bs = read_message w read_case len create bs
  read len (some target) bs = read_message w read_case len target bs

module _ (w : Wire) where
  unfoldable pub write_type : Bool → RequestType → Bytes
  write_type keep_fields (meta s) = w.tag 1 length_delimited ++ w.string s
  write_type keep_fields (receive c) = write_nested w 2 (Chunk.write w keep_fields c)
  write_type keep_fields (send x) = write_nested w 3 (Meta.write w keep_fields x)
  write_type keep_fields absent = []

  -- `internalBinaryWrite(message, writer, options)`: what is appended to the writer.
  unfoldable pub write : Bool → Request → Bytes
  unfolding write_type
  write keep_fields m = write_type keep_fields m.type ++ write_unknown w keep_fields m.unknown

  -- `Request.toBinary` and `Request.fromBinary`, with the default options.
  unfoldable pub to_binary : Request → Bytes
  to_binary m = write true m

  unfoldable pub from_binary : Bytes → Result Request
  from_binary bs = do (m, r) ← read w keep_unknown (length bs) none bs; ok m
