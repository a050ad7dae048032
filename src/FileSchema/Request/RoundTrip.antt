-- ===== src/FileSchema/Request/RoundTrip.antt =====
-- schema/index.ts: `Request.fromBinary` after `Request.toBinary`.
use fula_archived.Prelude.{
  ◌<◌, ◌^◌, true, none, List, [], ◌++◌, length, Bytes, All, ◌≡◌, refl, arith, ok, append-nil,
}
use fula_archived.Wire.{Wire, length_delimited, keep_unknown, Unknown}
use fula_archived.Wire.Chain.{
  Chain, done, Chain-append, Chain-one, Chain-unknown, Reads-field, Reads-nested, IsStrange,
  read_message-Chain,
}
use fula_archived.FileSchema.Meta
use fula_archived.FileSchema.Meta.{Meta}
use fula_archived.FileSchema.Chunk
use fula_archived.FileSchema.Chunk.{Chunk}
use fula_archived.FileSchema.Request.{
  RequestType, meta, receive, send, absent, Request, create, keep, read_case, read, write_type,
  write, to_binary, from_binary,
}

module _ (w : Wire) where
  -- A message within fits the length that is written before it.
  abbrev pub IsValidType : RequestType → Type 0
  IsValidType (meta s) = w.is_text s ≡ true
  IsValidType (receive c) = Chunk.RoundTrip.IsValid w c × (length (Chunk.write w true c) < 2 ^ 32)
  IsValidType (send m) = Meta.RoundTrip.IsValid w m × (length (Meta.write w true m) < 2 ^ 32)
  IsValidType absent = Unit {0}

  pub record IsValid (m : Request) : Type 0 where
    pub type : IsValidType m.type
    pub unknown : All (IsStrange w 3) m.unknown

  abbrev partial : RequestType → List Unknown → Request
  partial t f = record { type = t; unknown = f }

  type_field :
      (t : RequestType)
      → IsValidType t
      → Chain w (read_case w keep_unknown) create (write_type w true t) (partial t [])
  unfolding read_case write_type
  type_field (meta s) h = Chain-one w _ (
      Reads-field w _ create 1 length_delimited w.read_string (λ a. partial (meta a) []) s
        (w.string s) (omega arith) (λ bs. refl) (λ rest. w.string_back s rest h))
  type_field (receive c) (h, small) = Chain-one w _ (
      Reads-nested w _ create 2 (λ len r. Chunk.read w keep_unknown len none r)
        (λ a. partial (receive a) []) c (Chunk.write w true c) (omega arith) small (λ bs. refl)
        (λ rest. Chunk.RoundTrip.chunk_read-write w c rest h))
  type_field (send m) (h, small) = Chain-one w _ (
      Reads-nested w _ create 3 (λ len r. Meta.read w keep_unknown len none r)
        (λ a. partial (send a) []) m (Meta.write w true m) (omega arith) small (λ bs. refl)
        (λ rest. Meta.RoundTrip.meta_read-write w m rest h))
  type_field absent h = done

  read-write :
      (m : Request) (rest : Bytes)
      → IsValid m
      → read w keep_unknown (length (write w true m)) none (write w true m ++ rest) ≡ ok (m, rest)
  unfolding read read_case write
  read-write m rest v = read_message-Chain w (read_case w keep_unknown) rest (
      Chain-append w _ _ (type_field m.type v.type) (
        Chain-unknown w _ 3 "Request" keep (partial m.type) (λ n t k bs h. ground arith)
          (λ u us. refl) m.unknown [] v.unknown))

  -- The box reads from the bytes of a request the request that the client wrote: the id that a meta
  -- request asks for, the chunk of a receive request, the meta of a file that is sent, or none. The
  -- conditions: UTF-8 can encode the texts in the request, so that they have no lone surrogates; its
  -- numbers (size, date, skip and limit) are safe integers, below 2 ^ 53 without their sign; the
  -- bytes of a chunk or a meta within it are fewer than 2 ^ 32; and the fields that the reader did not
  -- know have numbers and payloads of the wire format, and numbers that their message does not have.
  pub from_binary-to_binary : (m : Request) → IsValid m → from_binary w (to_binary w m) ≡ ok m
  unfolding from_binary to_binary
  from_binary-to_binary m v =
      let back : read w keep_unknown (length (write w true m)) none (write w true m) ≡ ok (m, []) =
        rw append-nil at (read-write m [] v) in
      rw back
