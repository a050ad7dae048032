-- ===== src/GraphProtocol/Binary/RoundTrip.antt =====
-- struct.ts: a `Value` that is written and read again.
use fula_archived.Prelude.{
  ℕ, zero, suc, ◌<◌, ◌≤◌, ◌^◌, true, none, some, List, [], ◌++◌, length, Bytes, Text, All, ◌≡◌,
  refl, ap, arith, Result, ok, length-append,
}
use fula_archived.Wire.{Wire, varint, bit64, length_delimited, keep_unknown, Unknown}
use fula_archived.Wire.Loop.{read_message, write_nested, write_unknown}
use fula_archived.Wire.Chain.{
  Chain, done, Chain-append, Chain-one, Chain-unknown, Reads-field, Reads-nested, IsStrange,
  read_message-Chain,
}
use fula_archived.GraphProtocol.Json.{
  Value, value, Kind, null_value, number_value, string_value, bool_value, struct_value, list_value,
  absent, Values, no_values, one_more, Fields, no_fields, field, put_field,
}
use fula_archived.GraphProtocol.Json.RoundTrip.{
  join_fields, join_fields-nil, join_fields_assoc, put_field_new,
}
use fula_archived.GraphProtocol.Binary.{
  create_value, create_struct, create_list, push_value, keep_in_value, keep_beside, put_entry,
  entry_case, struct_case, list_case, value_case, read_value, write_value, write_kind, write_fields,
  write_values,
}
use fula_archived.GraphProtocol.Binary.Valid.{
  IsFreshBehind, entry_bytes, IsValid, IsValidKind, AreValidFields, AreValid,
}

abbrev join_values : Values → Values → Values
join_values no_values ys = ys
join_values (one_more v xs) ys = one_more v (join_values xs ys)

join_values-nil : (a : Values) → join_values a no_values ≡ a
join_values-nil no_values = refl
join_values-nil (one_more v a) = ap (one_more v) (join_values-nil a)

push_value-join :
    (v : Value) (a b : Values) → join_values (push_value v a) b ≡ join_values a (one_more v b)
push_value-join v no_values b = refl
push_value-join v (one_more u a) b = ap (one_more u) (push_value-join v a b)

module _ (w : Wire) where
  pub nested_longer : (n : ℕ) (inner : Bytes) → length inner < length (write_nested w n inner)
  unfolding write_nested
  nested_longer n inner = omega (
    arith,
    length-append (w.tag n length_delimited) (w.uint32 (length inner) ++ inner),
    length-append (w.uint32 (length inner)) inner,
    w.tag_pos n length_delimited,
  )

  abbrev reads : ℕ → ℕ → Value → Bytes → Result (Value × Bytes)
  reads = read_value w keep_unknown

  unknown_in_value :
      (d : ℕ) (k : Kind) (us : List Unknown)
      → All (IsStrange w 6) us
      → Chain w
          (value_case w keep_unknown (reads d))
          (value k [])
          (write_unknown w true us)
          (value k us)
  unfolding value_case
  unknown_in_value d k us h =
      Chain-unknown w _ 6 "google.protobuf.Value" keep_in_value (value k)
        (λ n t m bs far. ground arith) (λ u vs. refl) us [] h

  unknown_in_struct :
      (d : ℕ) (fs : Fields) (us : List Unknown)
      → All (IsStrange w 1) us
      → Chain w (struct_case w keep_unknown (reads d)) (fs, []) (write_unknown w true us) (fs, us)
  unfolding struct_case
  unknown_in_struct d fs us h =
      Chain-unknown w _ 1 "google.protobuf.Struct" keep_beside (λ vs. (fs, vs))
        (λ n t m bs far. ground arith) (λ u vs. refl) us [] h

  unknown_in_list :
      (d : ℕ) (xs : Values) (us : List Unknown)
      → All (IsStrange w 1) us
      → Chain w (list_case w keep_unknown (reads d)) (xs, []) (write_unknown w true us) (xs, us)
  unfolding list_case
  unknown_in_list d xs us h =
      Chain-unknown w _ 1 "google.protobuf.ListValue" keep_beside (λ vs. (xs, vs))
        (λ n t m bs far. ground arith) (λ u vs. refl) us [] h

  -- An entry of a struct, whose value is read back.
  entry-Chain :
      (d : ℕ) (k : Text) (v : Value)
      → w.is_text k ≡ true
      → length (write_value w true v) < 2 ^ 32
      → ((rest : Bytes)
          → reads d (length (write_value w true v)) create_value (write_value w true v ++ rest)
            ≡ ok (v, rest))
      → Chain w
          (entry_case w keep_unknown (reads d))
          (none, none)
          (entry_bytes w k v)
          (some k, some v)
  unfolding entry_case
  entry-Chain d k v t small back =
      Chain-append w _ _
        (Chain-one w _ (
          Reads-field w _ (none, none) 1 length_delimited w.read_string (λ s. (some s, none)) k
            (w.string k) (omega arith, omega arith) (λ bs. refl) (λ rest. w.string_back k rest t)))
        (Chain-one w _ (
          Reads-nested w _ (some k, none) 2 (λ len r. reads d len create_value r)
            (λ x. (some k, some x)) v (write_value w true v) (omega arith, omega arith) small
            (λ bs. refl) back))

  mutual
    unfolding write_value write_kind write_fields write_values IsValid IsValidKind AreValidFields
        AreValid value_case struct_case list_case read_value

    value_back :
        (v : Value) (d : ℕ) (rest : Bytes)
        → IsValid w v
        → length (write_value w true v) < d
        → reads d (length (write_value w true v)) create_value (write_value w true v ++ rest)
          ≡ ok (v, rest)
    value_back (value k us) zero rest p h = absurd (omega arith)
    value_back (value k us) (suc d) rest (p, q) h =
        read_message-Chain w (value_case w keep_unknown (reads d)) rest (
          Chain-append w _ _
            (kind-Chain k d p
              (omega (arith, length-append (write_kind w true k) (write_unknown w true us))))
            (unknown_in_value d k us q))

    kind-Chain :
        (k : Kind) (d : ℕ)
        → IsValidKind w k
        → length (write_kind w true k) ≤ d
        → Chain w
            (value_case w keep_unknown (reads d))
            create_value
            (write_kind w true k)
            (value k [])
    kind-Chain (null_value z) d p h = Chain-one w _ (
        Reads-field w _ create_value 1 varint w.read_int32 (λ a. value (null_value a) []) z
          (w.int32 z) (omega arith, omega arith) (λ bs. refl) (λ rest. w.int32_back z rest p))
    kind-Chain (number_value n) d p h = Chain-one w _ (
        Reads-field w _ create_value 2 bit64 w.read_double (λ a. value (number_value a) []) n
          (w.double n) (omega arith, omega arith) (λ bs. refl) (λ rest. w.double_back n rest p))
    kind-Chain (string_value s) d p h = Chain-one w _ (
        Reads-field w _ create_value 3 length_delimited w.read_string
          (λ a. value (string_value a) []) s (w.string s) (omega arith, omega arith) (λ bs. refl)
          (λ rest. w.string_back s rest p))
    kind-Chain (bool_value b) d p h = Chain-one w _ (
        Reads-field w _ create_value 4 varint w.read_bool (λ a. value (bool_value a) []) b
          (w.bool b) (omega arith, omega arith) (λ bs. refl) (λ rest. w.bool_back b rest))
    kind-Chain (struct_value fs us) d (p, fresh, q, small) h =
        let inner = write_fields w true fs ++ write_unknown w true us in
        let room : length (write_fields w true fs) < d = omega (
          arith,
          nested_longer 5 inner,
          length-append (write_fields w true fs) (write_unknown w true us),
        ) in
        Chain-one w _ (
          Reads-nested w _ create_value 5
            (λ len r. read_message w (struct_case w keep_unknown (reads d)) len create_struct r)
            (λ (a, b). value (struct_value a b) []) (fs, us) inner (omega arith, omega arith) small
            (λ bs. refl)
            (λ rest. read_message-Chain w (struct_case w keep_unknown (reads d)) rest (
              Chain-append w _ _ (fields-Chain fs no_fields d p fresh room)
                (unknown_in_struct d fs us q))))
    kind-Chain (list_value vs us) d (p, q, small) h =
        let inner = write_values w true vs ++ write_unknown w true us in
        let room : length (write_values w true vs) < d = omega (
          arith,
          nested_longer 6 inner,
          length-append (write_values w true vs) (write_unknown w true us),
        ) in
        Chain-one w _ (
          Reads-nested w _ create_value 6
            (λ len r. read_message w (list_case w keep_unknown (reads d)) len create_list r)
            (λ (a, b). value (list_value a b) []) (vs, us) inner (omega arith, omega arith) small
            (λ bs. refl)
            (λ rest. read_message-Chain w (list_case w keep_unknown (reads d)) rest (
              Chain-append w _ _ (values-Chain vs no_values d p room) (unknown_in_list d vs us q))))
    kind-Chain absent d p h = done

    fields-Chain :
        (fs acc : Fields) (d : ℕ)
        → AreValidFields w fs
        → IsFreshBehind acc fs
        → length (write_fields w true fs) < d
        → Chain w
            (struct_case w keep_unknown (reads d))
            (acc, [])
            (write_fields w true fs)
            (join_fields acc fs, [])
    fields-Chain no_fields acc d p f h = rw (join_fields-nil acc) done
    fields-Chain (field k v fs) acc d (t, p, small, fits, ps) (e, f, g) h =
        let entry = entry_bytes w k v in
        let whole : length (write_nested w 1 entry ++ write_fields w true fs) < d = h in
        let room : length (write_value w true v) < d = omega (
          arith,
          whole,
          length-append (write_nested w 1 entry) (write_fields w true fs),
          nested_longer 1 entry,
          length-append (w.tag 1 length_delimited ++ w.string k)
              (write_nested w 2 (write_value w true v)),
          nested_longer 2 (write_value w true v),
        ) in
        let room_behind : length (write_fields w true fs) < d =
          omega (arith, whole, length-append (write_nested w 1 entry) (write_fields w true fs)) in
        let first : Chain w (struct_case w keep_unknown (reads d)) (acc, [])
            (write_nested w 1 entry) (put_field k v acc, []) =
          Chain-one w _ (
            Reads-nested w _ (acc, []) 1
              (λ len r. read_message w (entry_case w keep_unknown (reads d)) len (none, none) r)
              (λ e. put_entry w keep_unknown (reads d) e (acc, [])) (some k, some v) entry
              (omega arith, omega arith) fits (λ bs. refl)
              (λ rest.
                read_message-Chain w (entry_case w keep_unknown (reads d)) rest
                  (entry-Chain d k v t small (λ rest'. value_back v d rest' p room)))) in
        Chain-append w _ _ first (
          rw (put_field_new k v acc e f, ← join_fields_assoc acc (field k v no_fields) fs)
            (fields-Chain fs (join_fields acc (field k v no_fields)) d ps g room_behind))

    values-Chain :
        (vs acc : Values) (d : ℕ)
        → AreValid w vs
        → length (write_values w true vs) < d
        → Chain w
            (list_case w keep_unknown (reads d))
            (acc, [])
            (write_values w true vs)
            (join_values acc vs, [])
    values-Chain no_values acc d p h = rw (join_values-nil acc) done
    values-Chain (one_more v vs) acc d (p, small, ps) h =
        let whole : length (write_nested w 1 (write_value w true v) ++ write_values w true vs) < d =
          h in
        let room : length (write_value w true v) < d = omega (
          arith,
          whole,
          length-append (write_nested w 1 (write_value w true v)) (write_values w true vs),
          nested_longer 1 (write_value w true v),
        ) in
        let room_behind : length (write_values w true vs) < d = omega (
          arith,
          whole,
          length-append (write_nested w 1 (write_value w true v)) (write_values w true vs),
        ) in
        Chain-append w _ _
          (Chain-one w _ (
            Reads-nested w _ (acc, []) 1 (λ len r. reads d len create_value r)
              (λ x. (push_value x acc, [])) v (write_value w true v) (omega arith, omega arith)
              small (λ bs. refl) (λ rest. value_back v d rest p room)))
          (rw (← push_value-join v acc vs) (values-Chain vs (push_value v acc) d ps room_behind))

  -- A `Value` that the wire format can hold, with its structs and lists to any depth, is read back
  -- from what is written of it, whatever follows, when the reader may go as deep as the
  -- value has bytes. No struct in it has a key twice or the key `__proto__`.
  pub read_value-write_value :
      (v : Value) (depth : ℕ) (rest : Bytes)
      → IsValid w v
      → length (write_value w true v) < depth
      → read_value w keep_unknown depth
          (length (write_value w true v))
          create_value
          (write_value w true v ++ rest)
        ≡ ok (v, rest)
  read_value-write_value = value_back
