-- ===== src/FileSchema/File.antt =====
-- protocols/file/src/schema/index.ts: the message `File` and its binary codec, `File$Type`.
pub mod RoundTrip
use fula_archived.Prelude.{
  ℕ, Bool, true, Option, none, some, List, [], ◌∷◌, ◌++◌, length, Text, Bytes, is_empty, Result, ok,
  ◌>>=◌, ◌==◌, if◌then◌else◌,
}
use fula_archived.Wire.{Wire, length_delimited, OnUnknown, keep_unknown, Unknown}
use fula_archived.Wire.Loop.{
  Step, read_message, read_field, read_nested, read_unknown, write_nested, write_unknown,
}
use fula_archived.FileSchema.Meta
use fula_archived.FileSchema.Meta.{Meta}

pub record File : Type 0 where
  pub meta : Option Meta
  pub content_path : Text
  pub unknown : List Unknown

-- `create()`
abbrev pub create : File
create = record { meta = none; content_path = []; unknown = [] }

abbrev pub keep : Unknown → File → File
keep u m = record m { unknown = m.unknown ++ u ∷ [] }

module _ (w : Wire) (options : OnUnknown) where
  -- The switch on the field number.
  unfoldable pub read_case : Step File
  read_case n t m bs =
      if n == 1
      then read_nested w (λ len r. Meta.read w options len m.meta r)
          (λ x. record m { meta = some x }) bs
      else if n == 2
      then read_field w.read_string (λ s. record m { content_path = s }) bs
      else read_unknown w options "File" keep n t m bs

  -- `internalBinaryRead(reader, length, options, target)`
  unfoldable pub read : ℕ → Option File → Bytes → Result (File × Bytes)
  read len none bs = read_message w read_case len create bs
  read len (some target) bs = read_message w read_case len target bs

module _ (w : Wire) where
  -- `internalBinaryWrite(message, writer, options)`: what is appended to the writer.
  unfoldable pub write : Bool → File → Bytes
  write keep_fields m =
      (elim m.meta [ none ↦ [] | some x ↦ write_nested w 1 (Meta.write w keep_fields x) ])
      ++ ((if is_empty m.content_path
            then []
            else w.tag 2 length_delimited ++ w.string m.content_path)
          ++ write_unknown w keep_fields m.unknown)

  -- `File.toBinary` and `File.fromBinary`, with the default options.
  unfoldable pub to_binary : File → Bytes
  to_binary m = write true m

  unfoldable pub from_binary : Bytes → Result File
  from_binary bs = do (m, r) ← read w keep_unknown (length bs) none bs; ok m
