-- ===== src/FileSchema/Meta/RoundTrip.antt =====
-- schema/index.ts: `Meta.fromBinary` after `Meta.toBinary`.
use fula_archived.Prelude.{
  append-nil, ℕ, zero, suc, true, Option, none, some, List, [], ◌∷◌, ◌++◌, length, Text, Bytes, All,
  ℤ, pos, negsuc, is_zero, is_zero_ℤ, is_empty, ◌≡◌, refl, ap, arith, ok,
}
use fula_archived.Wire.{Wire, varint, length_delimited, keep_unknown, Unknown, IsSafe, IsSafeInt}
use fula_archived.Wire.Loop.{write_unknown}
use fula_archived.Wire.Chain.{
  Chain, done, Chain-append, Chain-one, Chain-unless, Chain-unknown, Reads-field, IsStrange,
  read_message-Chain,
}
use fula_archived.FileSchema.Meta.{
  Meta, create, keep, read_case, read, write, to_binary, from_binary,
}

pub eq-nil_of_is_empty : (s : Text) → is_empty s ≡ true → [] ≡ s
eq-nil_of_is_empty [] h = refl
eq-nil_of_is_empty (x ∷ s) h = cc

pub eq-zero_of_is_zero : (n : ℕ) → is_zero n ≡ true → 0 ≡ n
eq-zero_of_is_zero zero h = refl
eq-zero_of_is_zero (suc n) h = cc

eq-pos_of_is_zero_ℤ : (z : ℤ) → is_zero_ℤ z ≡ true → pos 0 ≡ z
eq-pos_of_is_zero_ℤ (pos n) h = ap pos (eq-zero_of_is_zero n h)
eq-pos_of_is_zero_ℤ (negsuc n) h = cc

module _ (w : Wire) where
  -- What the wire format can hold: strings that UTF-8 keeps, numbers that JavaScript holds, and
  -- unknown fields that are well formed and are none of the five.
  pub record IsValid (m : Meta) : Type 0 where
    pub name : w.is_text m.name ≡ true
    pub type : w.is_text m.type ≡ true
    pub size : IsSafe m.size
    pub last_modified : IsSafeInt m.last_modified
    pub unknown : All (IsStrange w 5) m.unknown

  module _ (m : Meta) (v : IsValid m) where
    -- The message while its fields arrive.
    abbrev partial : Text → Text → ℕ → ℤ → Option Bytes → List Unknown → Meta
    partial a b c d e f = record {
      name = a;
      type = b;
      size = c;
      last_modified = d;
      preview = e;
      unknown = f;
    }

    preview_field :
        (o : Option Bytes)
        → Chain w
            (read_case w keep_unknown)
            (partial m.name m.type m.size m.last_modified none [])
            (elim o [ none ↦ [] | some b ↦ w.tag 5 length_delimited ++ w.bytes b ])
            (partial m.name m.type m.size m.last_modified o [])
    unfolding read_case
    preview_field none = done
    preview_field (some b) = Chain-one w _ (
        Reads-field w _ _ 5 length_delimited w.read_bytes
          (λ b. partial m.name m.type m.size m.last_modified (some b) []) b (w.bytes b)
          (omega arith) (λ bs. refl) (λ rest. w.bytes_back b rest))

    unknown_fields :
        Chain w
          (read_case w keep_unknown)
          (partial m.name m.type m.size m.last_modified m.preview [])
          (write_unknown w true m.unknown)
          m
    unfolding read_case
    unknown_fields =
        Chain-unknown w _ 5 "Meta" keep (partial m.name m.type m.size m.last_modified m.preview)
          (λ n t k bs h. ground arith) (λ u us. refl) m.unknown [] v.unknown

    Chain-write : Chain w (read_case w keep_unknown) create (write w true m) m
    unfolding read_case write
    Chain-write =
        Chain-append w _ _
          (Chain-unless w _ (is_empty m.name)
            (λ h. ap (λ a. partial a [] 0 (pos 0) none []) (eq-nil_of_is_empty m.name h))
            (λ _.
              Reads-field w _ create 1 length_delimited w.read_string
                (λ a. partial a [] 0 (pos 0) none []) m.name (w.string m.name) (omega arith)
                (λ bs. refl) (λ rest. w.string_back m.name rest v.name)))
          (Chain-append w _ _
            (Chain-unless w _ (is_empty m.type)
              (λ h. ap (λ b. partial m.name b 0 (pos 0) none []) (eq-nil_of_is_empty m.type h))
              (λ _.
                Reads-field w _ _ 2 length_delimited w.read_string
                  (λ b. partial m.name b 0 (pos 0) none []) m.type (w.string m.type) (omega arith)
                  (λ bs. refl) (λ rest. w.string_back m.type rest v.type)))
            (Chain-append w _ _
              (Chain-unless w _ (is_zero m.size)
                (λ h.
                  ap (λ c. partial m.name m.type c (pos 0) none []) (eq-zero_of_is_zero m.size h))
                (λ _.
                  Reads-field w _ _ 3 varint w.read_uint64
                    (λ c. partial m.name m.type c (pos 0) none []) m.size (w.uint64 m.size)
                    (omega arith) (λ bs. refl) (λ rest. w.uint64_back m.size rest v.size)))
              (Chain-append w _ _
                (Chain-unless w _ (is_zero_ℤ m.last_modified)
                  (λ h.
                    ap (λ d. partial m.name m.type m.size d none [])
                      (eq-pos_of_is_zero_ℤ m.last_modified h))
                  (λ _.
                    Reads-field w _ _ 4 varint w.read_int64
                      (λ d. partial m.name m.type m.size d none []) m.last_modified
                      (w.int64 m.last_modified) (omega arith) (λ bs. refl)
                      (λ rest. w.int64_back m.last_modified rest v.last_modified)))
                (Chain-append w _ _ (preview_field m.preview) unknown_fields))))

  -- A `Meta` that the wire format can hold is read back from what `Meta` writes of it, unknown
  -- fields included, and the reader stops where the message ends, whatever follows.
  pub meta_read-write :
      (m : Meta) (rest : Bytes)
      → IsValid m
      → read w keep_unknown (length (write w true m)) none (write w true m ++ rest) ≡ ok (m, rest)
  unfolding read
  meta_read-write m rest v = read_message-Chain w (read_case w keep_unknown) rest (Chain-write m v)

  pub meta_from_binary-to_binary : (m : Meta) → IsValid m → from_binary w (to_binary w m) ≡ ok m
  unfolding from_binary to_binary
  meta_from_binary-to_binary m v =
      let back : read w keep_unknown (length (write w true m)) none (write w true m) ≡ ok (m, []) =
        rw append-nil at (meta_read-write m [] v) in
      rw back
