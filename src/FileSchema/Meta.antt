-- ===== src/FileSchema/Meta.antt =====
-- protocols/file/src/schema/index.ts: the message `Meta` and its binary codec, `Meta$Type`.
pub mod RoundTrip
use fula_archived.Prelude.{
  ℕ, zero, Bool, true, false, Option, none, some, List, [], ◌∷◌, ◌++◌, Text, Bytes, ℤ, pos, is_zero,
  is_zero_ℤ, is_empty, length, Result, ok, ◌>>=◌, ◌==◌, if◌then◌else◌,
}
use fula_archived.Wire.{Wire, WireType, varint, length_delimited, OnUnknown, keep_unknown, Unknown}
use fula_archived.Wire.Loop.{Step, read_message, read_field, read_unknown, write_unknown}

pub record Meta : Type 0 where
  pub name : Text
  pub type : Text
  pub size : ℕ
  pub last_modified : ℤ
  pub preview : Option Bytes
  pub unknown : List Unknown

-- `create()`
abbrev pub create : Meta
create = record {
  name = [];
  type = [];
  size = 0;
  last_modified = pos 0;
  preview = none;
  unknown = [];
}

abbrev pub keep : Unknown → Meta → Meta
keep u m = record m { unknown = m.unknown ++ u ∷ [] }

module _ (w : Wire) (options : OnUnknown) where
  -- The switch on the field number.
  unfoldable pub read_case : Step Meta
  read_case n t m bs =
      if n == 1
      then read_field w.read_string (λ s. record m { name = s }) bs
      else if n == 2
      then read_field w.read_string (λ s. record m { type = s }) bs
      else if n == 3
      then read_field w.read_uint64 (λ k. record m { size = k }) bs
      else if n == 4
      then read_field w.read_int64 (λ z. record m { last_modified = z }) bs
      else if n == 5
      then read_field w.read_bytes (λ b. record m { preview = some b }) bs
      else read_unknown w options "Meta" keep n t m bs

  -- `internalBinaryRead(reader, length, options, target)`
  unfoldable pub read : ℕ → Option Meta → Bytes → Result (Meta × Bytes)
  read len none bs = read_message w read_case len create bs
  read len (some target) bs = read_message w read_case len target bs

module _ (w : Wire) (keep_fields : Bool) where
  -- `internalBinaryWrite(message, writer, options)`: what is appended to the writer.
  unfoldable pub write : Meta → Bytes
  write m =
      (if is_empty m.name then [] else w.tag 1 length_delimited ++ w.string m.name)
      ++ ((if is_empty m.type then [] else w.tag 2 length_delimited ++ w.string m.type)
          ++ ((if is_zero m.size then [] else w.tag 3 varint ++ w.uint64 m.size)
              ++ ((if is_zero_ℤ m.last_modified
                    then []
                    else w.tag 4 varint ++ w.int64 m.last_modified)
                  ++ ((elim m.preview [
                    | none ↦ []
                    | some b ↦ w.tag 5 length_delimited ++ w.bytes b
                  ])
                      ++ write_unknown w keep_fields m.unknown))))

module _ (w : Wire) where
  -- `Meta.toBinary` and `Meta.fromBinary`, with the default options.
  unfoldable pub to_binary : Meta → Bytes
  to_binary m = write w true m

  unfoldable pub from_binary : Bytes → Result Meta
  from_binary bs = do (m, r) ← read w keep_unknown (length bs) none bs; ok m
