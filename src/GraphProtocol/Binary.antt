-- ===== src/GraphProtocol/Binary.antt =====
-- protocols/graph/src/schema/google/protobuf/struct.ts: the binary codec of `Value`, `Struct` and
-- `ListValue`. Messages within messages are read to a depth, which the bytes bound.
pub mod Valid
pub mod RoundTrip
use fula_archived.Prelude.{
  ℕ, zero, suc, ℤ, pos, Bool, true, false, Option, none, some, List, [], ◌∷◌, ◌++◌, length, Text,
  Bytes, text_eq, Result, ok, err, stuck, message, ◌>>=◌, ◌==◌, if◌then◌else◌,
}
use fula_archived.Wire.{Wire, varint, bit64, length_delimited, OnUnknown, Unknown}
use fula_archived.Wire.Loop.{
  Step, read_message, read_field, read_nested, read_unknown, write_nested, write_unknown,
}
use fula_archived.GraphProtocol.Json.{
  Value, value, Kind, null_value, number_value, string_value, bool_value, struct_value, list_value,
  absent, Values, no_values, one_more, Fields, no_fields, field, put_field,
}

-- A `Struct` and a `ListValue` with their unknown fields.
abbrev pub Struct : Type 0
Struct = Fields × List Unknown

abbrev pub ListValue : Type 0
ListValue = Values × List Unknown

-- `create()` of the three.
abbrev pub create_value : Value
create_value = value absent []

abbrev pub create_struct : Struct
create_struct = (no_fields, [])

abbrev pub create_list : ListValue
create_list = (no_values, [])

-- `message.values.push(v)`
abbrev pub push_value : Value → Values → Values
push_value v no_values = one_more v no_values
push_value v (one_more u vs) = one_more u (push_value v vs)

abbrev pub with_kind : Kind → Value → Value
with_kind k (value old us) = value k us

abbrev pub keep_in_value : Unknown → Value → Value
keep_in_value u (value k us) = value k (us ++ u ∷ [])

abbrev pub keep_beside : {A : Type 0} → Unknown → A × List Unknown → A × List Unknown
keep_beside u (a, us) = (a, us ++ u ∷ [])

-- `(message.kind as any).structValue ?? create()` and `.listValue`.
abbrev pub struct_target : Value → Struct
struct_target (value (struct_value fs us) vs) = (fs, us)
struct_target v = create_struct

abbrev pub list_target : Value → ListValue
list_target (value (list_value xs us) vs) = (xs, us)
list_target v = create_list

-- The key and the value of a map's entry, as they arrive.
abbrev pub Entry : Type 0
Entry = Option Text × Option Value

abbrev pub key_or_empty : Option Text → Text
key_or_empty none = []
key_or_empty (some k) = k

abbrev pub value_or_new : Option Value → Value
value_or_new none = create_value
value_or_new (some v) = v

module _ (w : Wire) (options : OnUnknown) where
  module _ (inner : ℕ → Value → Bytes → Result (Value × Bytes)) where
    -- The switch of `binaryReadMap1`.
    unfoldable pub entry_case : Step Entry
    entry_case n t (k, v) bs =
        if n == 1
        then read_field w.read_string (λ s. (some s, v)) bs
        else if n == 2
        then read_nested w (λ len r. inner len create_value r) (λ x. (k, some x)) bs
        else err (message "unknown map entry field for field google.protobuf.Struct.fields")

    -- `map[key ?? ""] = val ?? Value.create()`
    abbrev pub put_entry : Entry → Struct → Struct
    put_entry (k, v) (fs, us) = (put_field (key_or_empty k) (value_or_new v) fs, us)

    -- The switches of the three messages.
    unfoldable pub struct_case : Step Struct
    unfolding entry_case
    struct_case n t m bs =
        if n == 1
        then read_nested w (λ len r. read_message w entry_case len (none, none) r)
            (λ e. put_entry e m) bs
        else read_unknown w options "google.protobuf.Struct" keep_beside n t m bs

    unfoldable pub list_case : Step ListValue
    list_case n t m bs =
        if n == 1
        then read_nested w (λ len r. inner len create_value r) (λ v. (push_value v m.0, m.1)) bs
        else read_unknown w options "google.protobuf.ListValue" keep_beside n t m bs

    unfoldable pub value_case : Step Value
    unfolding struct_case list_case
    value_case n t m bs =
        if n == 1
        then read_field w.read_int32 (λ z. with_kind (null_value z) m) bs
        else if n == 2
        then read_field w.read_double (λ x. with_kind (number_value x) m) bs
        else if n == 3
        then read_field w.read_string (λ s. with_kind (string_value s) m) bs
        else if n == 4
        then read_field w.read_bool (λ b. with_kind (bool_value b) m) bs
        else if n == 5
        then read_nested w (λ len r. read_message w struct_case len (struct_target m) r)
            (λ (fs, us). with_kind (struct_value fs us) m) bs
        else if n == 6
        then read_nested w (λ len r. read_message w list_case len (list_target m) r)
            (λ (xs, us). with_kind (list_value xs us) m) bs
        else read_unknown w options "google.protobuf.Value" keep_in_value n t m bs

  -- `Value.internalBinaryRead(reader, length, options, target)`
  unfoldable pub read_value : ℕ → ℕ → Value → Bytes → Result (Value × Bytes)
  unfolding value_case
  read_value zero len target bs = stuck
  read_value (suc depth) len target bs =
      read_message w (value_case (read_value depth)) len target bs

module _ (w : Wire) (keep_fields : Bool) where
  unfoldable mutual
    -- `internalBinaryWrite` of the three: what is appended to the writer.
    pub write_value : Value → Bytes
    write_value (value k us) = write_kind k ++ write_unknown w keep_fields us

    pub write_kind : Kind → Bytes
    write_kind (null_value z) = w.tag 1 varint ++ w.int32 z
    write_kind (number_value n) = w.tag 2 bit64 ++ w.double n
    write_kind (string_value s) = w.tag 3 length_delimited ++ w.string s
    write_kind (bool_value b) = w.tag 4 varint ++ w.bool b
    write_kind (struct_value fs us) =
        write_nested w 5 (write_fields fs ++ write_unknown w keep_fields us)
    write_kind (list_value vs us) =
        write_nested w 6 (write_values vs ++ write_unknown w keep_fields us)
    write_kind absent = []

    pub write_fields : Fields → Bytes
    write_fields no_fields = []
    write_fields (field k v fs) =
        write_nested w 1
          ((w.tag 1 length_delimited ++ w.string k) ++ write_nested w 2 (write_value v))
        ++ write_fields fs

    pub write_values : Values → Bytes
    write_values no_values = []
    write_values (one_more v vs) = write_nested w 1 (write_value v) ++ write_values vs
