-- ===== src/GraphProtocol/Json/RoundTrip.antt =====
-- struct.ts: JSON that becomes a `Value` and JSON again.
use fula_archived.Prelude.{
  Bool, true, false, ◌||◌, Text, text_eq, ◌≡◌, refl, sym, ap, ◌∙◌, ok, ◌==◌, ℕ, [], ◌∷◌, arith,
}
use fula_archived.GraphProtocol.Json.{
  Json, null, number, string, boolean, array, object, Items, no_items, item, Members, no_members,
  member, Value, Fields, no_fields, field, put_member, put_field, own_member, own_field, proto_key,
  to_json, items_to_json, fields_to_json, from_json, items_from_json, members_from_json,
}

-- Has an object a key, and a struct?
abbrev pub has_member : Text → Members → Bool
has_member k no_members = false
has_member k (member key v ms) = text_eq key k || has_member k ms

abbrev pub has_field : Text → Fields → Bool
has_field k no_fields = false
has_field k (field key v fs) = text_eq key k || has_field k fs

-- Entries one behind the other.
abbrev join_members : Members → Members → Members
join_members no_members ns = ns
join_members (member k v ms) ns = member k v (join_members ms ns)

abbrev pub join_fields : Fields → Fields → Fields
join_fields no_fields gs = gs
join_fields (field k v fs) gs = field k v (join_fields fs gs)

join_members_assoc :
    (a b c : Members) → join_members (join_members a b) c ≡ join_members a (join_members b c)
join_members_assoc no_members b c = refl
join_members_assoc (member k v a) b c = ap (member k v) (join_members_assoc a b c)

pub join_fields_assoc :
    (a b c : Fields) → join_fields (join_fields a b) c ≡ join_fields a (join_fields b c)
join_fields_assoc no_fields b c = refl
join_fields_assoc (field k v a) b c = ap (field k v) (join_fields_assoc a b c)

join_members-nil : (a : Members) → join_members a no_members ≡ a
join_members-nil no_members = refl
join_members-nil (member k v a) = ap (member k v) (join_members-nil a)

pub join_fields-nil : (a : Fields) → join_fields a no_fields ≡ a
join_fields-nil no_fields = refl
join_fields-nil (field k v a) = ap (field k v) (join_fields-nil a)

or_left : (a b : Bool) → (a || b) ≡ false → a ≡ false
or_left true b h = h
or_left false b h = refl

or_right : (a b : Bool) → (a || b) ≡ false → b ≡ false
or_right true b h = cc
or_right false b h = h

-- A new key comes behind the others.
own_member_new :
    (k : Text) (v : Json) (ms : Members)
    → has_member k ms ≡ false
    → own_member k v ms ≡ join_members ms (member k v no_members)
unfolding own_member
own_member_new k v no_members h = refl
own_member_new k v (member key w ms) h =
    rw (or_left (text_eq key k) (has_member k ms) h)
      (ap (member key w) (own_member_new k v ms (or_right (text_eq key k) _ h)))

put_member_new :
    (k : Text) (v : Json) (ms : Members)
    → text_eq k proto_key ≡ false
    → has_member k ms ≡ false
    → put_member k v ms ≡ join_members ms (member k v no_members)
unfolding put_member
put_member_new k v ms e h = rw e (own_member_new k v ms h)

own_field_new :
    (k : Text) (v : Value) (fs : Fields)
    → has_field k fs ≡ false
    → own_field k v fs ≡ join_fields fs (field k v no_fields)
unfolding own_field
own_field_new k v no_fields h = refl
own_field_new k v (field key w fs) h =
    rw (or_left (text_eq key k) (has_field k fs) h)
      (ap (field key w) (own_field_new k v fs (or_right (text_eq key k) _ h)))

pub put_field_new :
    (k : Text) (v : Value) (fs : Fields)
    → text_eq k proto_key ≡ false
    → has_field k fs ≡ false
    → put_field k v fs ≡ join_fields fs (field k v no_fields)
unfolding put_field
put_field_new k v fs e h = rw e (own_field_new k v fs h)

==_sym : (a b : ℕ) → (a == b) ≡ (b == a)
==_sym a b = ground arith

text_eq_sym : (s t : Text) → text_eq s t ≡ text_eq t s
text_eq_sym [] [] = refl
text_eq_sym [] (y ∷ t) = refl
text_eq_sym (x ∷ s) [] = refl
text_eq_sym (x ∷ s) (y ∷ t) = rw (==_sym x y, text_eq_sym s t) refl

-- No key of an object is in a struct yet, or in another object.
abbrev Fresh : Fields → Members → Type 0
Fresh fs no_members = Unit {0}
Fresh fs (member k j ms) = (has_field k fs ≡ false) × Fresh fs ms

abbrev FreshMembers : Members → Members → Type 0
FreshMembers acc no_members = Unit {0}
FreshMembers acc (member k j ms) = (has_member k acc ≡ false) × FreshMembers acc ms

either_false : (a b : Bool) → a ≡ false → b ≡ false → (a || b) ≡ false
either_false true b h k = h
either_false false b h k = k

has_field-join :
    (key k : Text) (v : Value) (fs : Fields)
    → has_field key fs ≡ false
    → text_eq k key ≡ false
    → has_field key (join_fields fs (field k v no_fields)) ≡ false
has_field-join key k v no_fields h e = either_false (text_eq k key) false e refl
has_field-join key k v (field g w fs) h e =
    either_false (text_eq g key) _ (or_left (text_eq g key) (has_field key fs) h)
      (has_field-join key k v fs (or_right (text_eq g key) (has_field key fs) h) e)

has_member-join :
    (key k : Text) (v : Json) (ms : Members)
    → has_member key ms ≡ false
    → text_eq k key ≡ false
    → has_member key (join_members ms (member k v no_members)) ≡ false
has_member-join key k v no_members h e = either_false (text_eq k key) false e refl
has_member-join key k v (member g w ms) h e =
    either_false (text_eq g key) _ (or_left (text_eq g key) (has_member key ms) h)
      (has_member-join key k v ms (or_right (text_eq g key) (has_member key ms) h) e)

Fresh-join :
    (fs : Fields) (k : Text) (v : Value) (ms : Members)
    → Fresh fs ms
    → has_member k ms ≡ false
    → Fresh (join_fields fs (field k v no_fields)) ms
Fresh-join fs k v no_members f h = tt
Fresh-join fs k v (member key j ms) (f, g) h = (
  has_field-join key k v fs f (text_eq_sym k key ∙ or_left (text_eq key k) (has_member k ms) h),
  Fresh-join fs k v ms g (or_right (text_eq key k) (has_member k ms) h),
)

FreshMembers-join :
    (acc : Members) (k : Text) (v : Json) (ms : Members)
    → FreshMembers acc ms
    → has_member k ms ≡ false
    → FreshMembers (join_members acc (member k v no_members)) ms
FreshMembers-join acc k v no_members f h = tt
FreshMembers-join acc k v (member key j ms) (f, g) h = (
  has_member-join key k v acc f (text_eq_sym k key ∙ or_left (text_eq key k) (has_member k ms) h),
  FreshMembers-join acc k v ms g (or_right (text_eq key k) (has_member k ms) h),
)

unfoldable mutual
  -- No object has a key twice or the key `__proto__`.
  pub IsProper : Json → Type 0
  IsProper (array items) = AllProper items
  IsProper (object ms) = HasDistinctKeys ms
  IsProper j = Unit {0}

  pub AllProper : Items → Type 0
  AllProper no_items = Unit {0}
  AllProper (item j items) = IsProper j × AllProper items

  pub HasDistinctKeys : Members → Type 0
  HasDistinctKeys no_members = Unit {0}
  HasDistinctKeys (member k j ms) =
      (text_eq k proto_key ≡ false) × (has_member k ms ≡ false) × IsProper j × HasDistinctKeys ms

-- The entries of the struct that an object becomes.
abbrev translated : Members → Fields
translated no_members = no_fields
translated (member k j ms) = field k (from_json j) (translated ms)

members_from_json-translated :
    (ms : Members) (fs : Fields)
    → HasDistinctKeys ms
    → Fresh fs ms
    → members_from_json fs ms ≡ join_fields fs (translated ms)
unfolding members_from_json HasDistinctKeys
members_from_json-translated no_members fs d f = sym (join_fields-nil fs)
members_from_json-translated (member k j ms) fs (e, h, p, d) (f, g) =
    rw (put_field_new k (from_json j) fs e f) (
      members_from_json-translated ms (join_fields fs (field k (from_json j) no_fields)) d
        (Fresh-join fs k (from_json j) ms g h)
      ∙ join_fields_assoc fs (field k (from_json j) no_fields) (translated ms))

nothing_before : (ms : Members) → Fresh no_fields ms
nothing_before no_members = tt
nothing_before (member k j ms) = (refl, nothing_before ms)

nothing_before_member : (ms : Members) → FreshMembers no_members ms
nothing_before_member no_members = tt
nothing_before_member (member k j ms) = (refl, nothing_before_member ms)

mutual
  unfolding to_json from_json IsProper

  json_back : (j : Json) → IsProper j → to_json (from_json j) ≡ ok j
  json_back null p = refl
  json_back (number n) p = refl
  json_back (string s) p = refl
  json_back (boolean b) p = refl
  json_back (array items) p = rw (items_back items p) refl
  json_back (object ms) p =
      rw
        (
          members_from_json-translated ms no_fields p (nothing_before ms),
          members_back ms no_members p (nothing_before_member ms),
        )
        refl

  items_back : (items : Items) → AllProper items → items_to_json (items_from_json items) ≡ ok items
  items_back no_items p = refl
  items_back (item j items) (p, ps) = rw (json_back j p, items_back items ps) refl

  members_back :
      (ms acc : Members)
      → HasDistinctKeys ms
      → FreshMembers acc ms
      → fields_to_json acc (translated ms) ≡ ok (join_members acc ms)
  members_back no_members acc d f = ap ok (sym (join_members-nil acc))
  members_back (member k j ms) acc (e, h, p, d) (f, g) =
      rw (json_back j p, put_member_new k j acc e f)
        (members_back ms (join_members acc (member k j no_members)) d
            (FreshMembers-join acc k j ms g h)
          ∙ ap ok (join_members_assoc acc (member k j no_members) ms))

-- Query variables and results pass as JSON through a `Value`: `Value.toJson` of what `Value.fromJson`
-- makes of some JSON is this JSON, when no object in it has a key twice or the key `__proto__`.
pub to_json-from_json : (j : Json) → IsProper j → to_json (from_json j) ≡ ok j
to_json-from_json j p = json_back j p
