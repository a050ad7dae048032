-- ===== src/GraphProtocol/Json.antt =====
-- protocols/graph/src/schema/google/protobuf/struct.ts: `Value`, `Struct` and `ListValue`, and their
-- translation from and to JSON. A number is its bits.
pub mod RoundTrip
use fula_archived.Prelude.{
  ℕ, ℤ, pos, Bool, true, false, List, [], ◌∷◌, Text, text_eq, Result, ok, err, message, ◌>>=◌,
  if◌then◌else◌,
}
use fula_archived.Wire.{Unknown}

-- `JsonValue`; an object is its entries.
mutual
  pub data Json : Type 0 where
    null : Json
    number : ℕ → Json
    string : Text → Json
    boolean : Bool → Json
    array : Items → Json
    object : Members → Json

  pub data Items : Type 0 where
    no_items : Items
    item : Json → Items → Items

  pub data Members : Type 0 where
    no_members : Members
    member : Text → Json → Members → Members

-- A `Value`, with its `oneof` and the fields that its reader did not know; `absent` is
-- `oneofKind: undefined`. `Fields` are the entries of a `Struct` and `Values` those of a `ListValue`, each
-- with the message's unknown fields beside them.
mutual
  pub data Value : Type 0 where
    value : Kind → List Unknown → Value

  pub data Kind : Type 0 where
    null_value : ℤ → Kind
    number_value : ℕ → Kind
    string_value : Text → Kind
    bool_value : Bool → Kind
    struct_value : Fields → List Unknown → Kind
    list_value : Values → List Unknown → Kind
    absent : Kind

  pub data Values : Type 0 where
    no_values : Values
    one_more : Value → Values → Values

  pub data Fields : Type 0 where
    no_fields : Fields
    field : Text → Value → Fields → Fields

-- The key `__proto__`, an assignment to which sets the prototype of an object.
abbrev pub proto_key : Text
proto_key = 95 ∷ 95 ∷ 112 ∷ 114 ∷ 111 ∷ 116 ∷ 111 ∷ 95 ∷ 95 ∷ []

-- An entry of a key that makes an entry.
unfoldable pub own_member : Text → Json → Members → Members
own_member k v no_members = member k v no_members
own_member k v (member key w ms) =
    let rest = own_member k v ms in if text_eq key k then member key v ms else member key w rest

unfoldable pub own_field : Text → Value → Fields → Fields
own_field k v no_fields = field k v no_fields
own_field k v (field key w fs) =
    let rest = own_field k v fs in if text_eq key k then field key v fs else field key w rest

-- `json[k] = v` and `target.fields[k] = v`, which makes no entry of the key `__proto__`.
unfoldable pub put_member : Text → Json → Members → Members
unfolding own_member
put_member k v ms = if text_eq k proto_key then ms else own_member k v ms

unfoldable pub put_field : Text → Value → Fields → Fields
unfolding own_field
put_field k v fs = if text_eq k proto_key then fs else own_field k v fs

unfoldable mutual
  -- `Value.toJson`, `internalJsonWrite`
  pub to_json : Value → Result Json
  to_json (value k unknown) = kind_to_json k

  pub kind_to_json : Kind → Result Json
  kind_to_json (null_value n) = ok null
  kind_to_json (number_value n) = ok (number n)
  kind_to_json (string_value s) = ok (string s)
  kind_to_json (bool_value b) = ok (boolean b)
  kind_to_json (list_value vs unknown) = do items ← items_to_json vs; ok (array items)
  kind_to_json (struct_value fs unknown) = do ms ← fields_to_json no_members fs; ok (object ms)
  kind_to_json absent = err (message "")

  -- `message.values.map(v => Value.toJson(v))`
  pub items_to_json : Values → Result Items
  items_to_json no_values = ok no_items
  items_to_json (one_more v vs) = do j ← to_json v; items ← items_to_json vs; ok (item j items)

  -- The loop over the entries of a struct.
  pub fields_to_json : Members → Fields → Result Members
  fields_to_json ms no_fields = ok ms
  fields_to_json ms (field k v fs) = do j ← to_json v; fields_to_json (put_member k j ms) fs

unfoldable mutual
  -- `Value.fromJson`, `internalJsonRead` without a target
  pub from_json : Json → Value
  from_json null = value (null_value (pos 0)) []
  from_json (number n) = value (number_value n) []
  from_json (string s) = value (string_value s) []
  from_json (boolean b) = value (bool_value b) []
  from_json (array items) = value (list_value (items_from_json items) []) []
  from_json (object ms) = value (struct_value (members_from_json no_fields ms) []) []

  -- `json.map(v => Value.fromJson(v))`
  pub items_from_json : Items → Values
  items_from_json no_items = no_values
  items_from_json (item j items) = one_more (from_json j) (items_from_json items)

  -- The loop over the entries of an object.
  pub members_from_json : Fields → Members → Fields
  members_from_json fs no_members = fs
  members_from_json fs (member k j ms) = members_from_json (put_field k (from_json j) fs) ms
