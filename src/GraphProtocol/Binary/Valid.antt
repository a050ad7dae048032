-- ===== src/GraphProtocol/Binary/Valid.antt =====
-- struct.ts: what the wire format can hold of a `Value`.
use fula_archived.Prelude.{◌<◌, ◌^◌, true, false, Bytes, ◌++◌, length, Text, text_eq, All, ◌≡◌}
use fula_archived.Wire.{Wire, IsInt32}
use fula_archived.Wire.Loop.{write_nested, write_unknown}
use fula_archived.Wire.Chain.{IsStrange}
use fula_archived.GraphProtocol.Json.{
  Value, value, Kind, null_value, number_value, string_value, bool_value, struct_value, list_value,
  absent, Values, no_values, one_more, Fields, no_fields, field, proto_key,
}
use fula_archived.GraphProtocol.Json.RoundTrip.{has_field, join_fields}
use fula_archived.GraphProtocol.Binary.{write_value, write_fields, write_values}
use fula_archived.Wire.{length_delimited}

-- Each key is none of the keys before it, and not `__proto__`.
abbrev pub IsFreshBehind : Fields → Fields → Type 0
IsFreshBehind acc no_fields = Unit {0}
IsFreshBehind acc (field k v fs) =
    (text_eq k proto_key ≡ false)
    × (has_field k acc ≡ false)
    × IsFreshBehind (join_fields acc (field k v no_fields)) fs

module _ (w : Wire) where
  -- The bytes of an entry of a struct.
  abbrev pub entry_bytes : Text → Value → Bytes
  entry_bytes k v =
      (w.tag 1 length_delimited ++ w.string k) ++ write_nested w 2 (write_value w true v)

  unfoldable mutual
    pub IsValid : Value → Type 0
    IsValid (value k us) = IsValidKind k × All (IsStrange w 6) us

    pub IsValidKind : Kind → Type 0
    IsValidKind (null_value z) = IsInt32 z
    IsValidKind (number_value n) = n < 2 ^ 64
    IsValidKind (string_value s) = w.is_text s ≡ true
    IsValidKind (bool_value b) = Unit {0}
    IsValidKind (struct_value fs us) =
        AreValidFields fs
        × IsFreshBehind no_fields fs
        × All (IsStrange w 1) us
        × (length (write_fields w true fs ++ write_unknown w true us) < 2 ^ 32)
    IsValidKind (list_value vs us) =
        AreValid vs
        × All (IsStrange w 1) us
        × (length (write_values w true vs ++ write_unknown w true us) < 2 ^ 32)
    IsValidKind absent = Unit {0}

    pub AreValidFields : Fields → Type 0
    AreValidFields no_fields = Unit {0}
    AreValidFields (field k v fs) =
        (w.is_text k ≡ true)
        × IsValid v
        × (length (write_value w true v) < 2 ^ 32)
        × (length (entry_bytes k v) < 2 ^ 32)
        × AreValidFields fs

    pub AreValid : Values → Type 0
    AreValid no_values = Unit {0}
    AreValid (one_more v vs) = IsValid v × (length (write_value w true v) < 2 ^ 32) × AreValid vs
