-- ===== src/FileSchema/Chunk/RoundTrip.antt =====
-- schema/index.ts: `Chunk.fromBinary` after `Chunk.toBinary`.
use fula_archived.Prelude.{
  ℕ, true, Option, none, some, List, [], ◌++◌, length, Text, Bytes, All, is_empty, ◌≡◌, refl, ap,
  arith, ok,
}
use fula_archived.Wire.{Wire, varint, length_delimited, keep_unknown, Unknown, IsSafe}
use fula_archived.Wire.Chain.{
  Chain, done, Chain-append, Chain-one, Chain-unless, Chain-unknown, Reads-field, IsStrange,
  read_message-Chain,
}
use fula_archived.FileSchema.Meta.RoundTrip.{eq-nil_of_is_empty}
use fula_archived.FileSchema.Chunk.{Chunk, create, keep, read_case, read, write}

abbrev pub IsSafeOption : Option ℕ → Type 0
IsSafeOption none = Unit {0}
IsSafeOption (some n) = IsSafe n

module _ (w : Wire) where
  -- What the wire format can hold.
  pub record IsValid (m : Chunk) : Type 0 where
    pub id : w.is_text m.id ≡ true
    pub skip : IsSafeOption m.skip
    pub limit : IsSafeOption m.limit
    pub unknown : All (IsStrange w 3) m.unknown

  module _ (m : Chunk) (v : IsValid m) where
    -- The message while its fields arrive.
    abbrev partial : Text → Option ℕ → Option ℕ → List Unknown → Chunk
    partial a b c f = record { id = a; skip = b; limit = c; unknown = f }

    skip_field :
        (o : Option ℕ)
        → IsSafeOption o
        → Chain w
            (read_case w keep_unknown)
            (partial m.id none none [])
            (elim o [ none ↦ [] | some k ↦ w.tag 2 varint ++ w.uint64 k ])
            (partial m.id o none [])
    unfolding read_case
    skip_field none h = done
    skip_field (some k) h = Chain-one w _ (
        Reads-field w _ _ 2 varint w.read_uint64 (λ b. partial m.id (some b) none []) k (w.uint64 k)
          (omega arith) (λ bs. refl) (λ rest. w.uint64_back k rest h))

    limit_field :
        (o : Option ℕ)
        → IsSafeOption o
        → Chain w
            (read_case w keep_unknown)
            (partial m.id m.skip none [])
            (elim o [ none ↦ [] | some k ↦ w.tag 3 varint ++ w.uint64 k ])
            (partial m.id m.skip o [])
    unfolding read_case
    limit_field none h = done
    limit_field (some k) h = Chain-one w _ (
        Reads-field w _ _ 3 varint w.read_uint64 (λ b. partial m.id m.skip (some b) []) k
          (w.uint64 k) (omega arith) (λ bs. refl) (λ rest. w.uint64_back k rest h))

    Chain-write : Chain w (read_case w keep_unknown) create (write w true m) m
    unfolding read_case write
    Chain-write =
        Chain-append w _ _
          (Chain-unless w _ (is_empty m.id)
            (λ h. ap (λ a. partial a none none []) (eq-nil_of_is_empty m.id h))
            (λ _.
              Reads-field w _ create 1 length_delimited w.read_string (λ a. partial a none none [])
                m.id (w.string m.id) (omega arith) (λ bs. refl)
                (λ rest. w.string_back m.id rest v.id)))
          (Chain-append w _ _ (skip_field m.skip v.skip) (
            Chain-append w _ _ (limit_field m.limit v.limit) (
              Chain-unknown w _ 3 "Chunk" keep (partial m.id m.skip m.limit)
                (λ n t k bs h. ground arith) (λ u us. refl) m.unknown [] v.unknown)))

  -- A `Chunk` that the wire format can hold is read back from what `Chunk` writes of it: an absent
  -- `skip` or `limit` stays absent, and a 0 stays a 0.
  pub chunk_read-write :
      (m : Chunk) (rest : Bytes)
      → IsValid m
      → read w keep_unknown (length (write w true m)) none (write w true m ++ rest) ≡ ok (m, rest)
  unfolding read
  chunk_read-write m rest v = read_message-Chain w (read_case w keep_unknown) rest (Chain-write m v)
