-- ===== src/FileSchema/Ends.antt =====
-- schema/index.ts: every reader ends, on whatever bytes it is given.
use fula_archived.Prelude.{
  ℕ, Option, none, some, length, Bytes, refl, ◌≢◌, Result, ok, err, stuck, ◌>>=◌, ◌==◌, Bool, true,
  false, if◌then◌else◌,
}
use fula_archived.Wire.{Wire, WireType, OnUnknown, keep_unknown}
use fula_archived.Wire.Settles.{
  Settles, Settles-ne-stuck, read_field-Settles, read_unknown-Settles, read_nested-Settles,
  read_message-Settles,
}
use fula_archived.FileSchema.Meta
use fula_archived.FileSchema.Meta.{Meta}
use fula_archived.FileSchema.Chunk
use fula_archived.FileSchema.Chunk.{Chunk}
use fula_archived.FileSchema.Request
use fula_archived.FileSchema.Request.{Request}
use fula_archived.FileSchema.File
use fula_archived.FileSchema.File.{File}

-- A case of a switch.
either :
    {M : Type 0} (n : ℕ) (b : Bool) (x y : Result (M × Bytes))
    → Settles n x
    → Settles n y
    → Settles n (if b then x else y)
either n true x y p q = p
either n false x y p q = q

module _ (w : Wire) (u : OnUnknown) where
  meta_case :
      (n : ℕ) (t : WireType) (m : Meta) (bs : Bytes)
      → Settles (length bs) (Meta.read_case w u n t m bs)
  unfolding Meta.read_case
  meta_case n t m bs =
      either _ (n == 1) _ _ (read_field-Settles w.read_string _ bs w.string_moves) (
        either _ (n == 2) _ _ (read_field-Settles w.read_string _ bs w.string_moves) (
          either _ (n == 3) _ _ (read_field-Settles w.read_uint64 _ bs w.uint64_moves) (
            either _ (n == 4) _ _ (read_field-Settles w.read_int64 _ bs w.int64_moves) (
              either _ (n == 5) _ _ (read_field-Settles w.read_bytes _ bs w.bytes_moves)
                (read_unknown-Settles w u "Meta" Meta.keep n t m bs)))))

  meta_Settles :
      (len : ℕ) (o : Option Meta) (bs : Bytes) → Settles (length bs) (Meta.read w u len o bs)
  unfolding Meta.read
  meta_Settles len none bs =
      read_message-Settles w (Meta.read_case w u) meta_case len Meta.create bs
  meta_Settles len (some m) bs = read_message-Settles w (Meta.read_case w u) meta_case len m bs

  chunk_case :
      (n : ℕ) (t : WireType) (m : Chunk) (bs : Bytes)
      → Settles (length bs) (Chunk.read_case w u n t m bs)
  unfolding Chunk.read_case
  chunk_case n t m bs =
      either _ (n == 1) _ _ (read_field-Settles w.read_string _ bs w.string_moves) (
        either _ (n == 2) _ _ (read_field-Settles w.read_uint64 _ bs w.uint64_moves) (
          either _ (n == 3) _ _ (read_field-Settles w.read_uint64 _ bs w.uint64_moves)
            (read_unknown-Settles w u "Chunk" Chunk.keep n t m bs)))

  chunk_Settles :
      (len : ℕ) (o : Option Chunk) (bs : Bytes) → Settles (length bs) (Chunk.read w u len o bs)
  unfolding Chunk.read
  chunk_Settles len none bs =
      read_message-Settles w (Chunk.read_case w u) chunk_case len Chunk.create bs
  chunk_Settles len (some m) bs = read_message-Settles w (Chunk.read_case w u) chunk_case len m bs

  request_case :
      (n : ℕ) (t : WireType) (m : Request) (bs : Bytes)
      → Settles (length bs) (Request.read_case w u n t m bs)
  unfolding Request.read_case
  request_case n t m bs =
      either _ (n == 1) _ _ (read_field-Settles w.read_string _ bs w.string_moves) (
        either _ (n == 2) _ _ (read_nested-Settles w _ _ bs (λ len r. chunk_Settles len _ r)) (
          either _ (n == 3) _ _ (read_nested-Settles w _ _ bs (λ len r. meta_Settles len _ r))
            (read_unknown-Settles w u "Request" Request.keep n t m bs)))

  request_Settles :
      (len : ℕ) (o : Option Request) (bs : Bytes) → Settles (length bs) (Request.read w u len o bs)
  unfolding Request.read
  request_Settles len none bs =
      read_message-Settles w (Request.read_case w u) request_case len Request.create bs
  request_Settles len (some m) bs =
      read_message-Settles w (Request.read_case w u) request_case len m bs

  file_case :
      (n : ℕ) (t : WireType) (m : File) (bs : Bytes)
      → Settles (length bs) (File.read_case w u n t m bs)
  unfolding File.read_case
  file_case n t m bs =
      either _ (n == 1) _ _ (read_nested-Settles w _ _ bs (λ len r. meta_Settles len _ r)) (
        either _ (n == 2) _ _ (read_field-Settles w.read_string _ bs w.string_moves)
          (read_unknown-Settles w u "File" File.keep n t m bs))

  file_Settles :
      (len : ℕ) (o : Option File) (bs : Bytes) → Settles (length bs) (File.read w u len o bs)
  unfolding File.read
  file_Settles len none bs =
      read_message-Settles w (File.read_case w u) file_case len File.create bs
  file_Settles len (some m) bs = read_message-Settles w (File.read_case w u) file_case len m bs

done-ne-stuck : {M : Type 0} (x : Result (M × Bytes)) → x ≢ stuck → (x >>= λ (m, r). ok m) ≢ stuck
done-ne-stuck (ok a) h e = cc
done-ne-stuck (err a) h e = cc
done-ne-stuck stuck h e = absurd (h refl)

-- On any bytes at all, valid or not, the box's `Request.fromBinary` and `File.fromBinary` end: they
-- return a message or throw.
pub from_binary_ends :
    (w : Wire) (bs : Bytes) → (Request.from_binary w bs ≢ stuck) × (File.from_binary w bs ≢ stuck)
unfolding Request.from_binary File.from_binary
from_binary_ends w bs = (
  done-ne-stuck _ (Settles-ne-stuck _ _ (request_Settles w keep_unknown (length bs) none bs)),
  done-ne-stuck _ (Settles-ne-stuck _ _ (file_Settles w keep_unknown (length bs) none bs)),
)
