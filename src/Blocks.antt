-- ===== src/Blocks.antt =====
-- The loop over blocks of 16 KiB that protocols/file/src/handlers/save.ts (`sendFile`) and
-- libraries/fula-client/src/index.ts (`receiveDecryptedFile`) both have, over the bytes of a file.
pub mod Pieces
pub mod Cipher
pub mod RoundTrip
pub mod Whole
pub mod Unsealed
use fula_archived.Prelude.{
  ℕ, zero, suc, ◌+◌, ◌-◌, ◌*◌, Bool, true, false, ◌||◌, List, [], ◌∷◌, length, take, drop, Bytes,
  Result, ok, stuck, ◌>>=◌, ltb, ◌==◌,
}

abbrev pub encryption_block_size : ℕ
encryption_block_size = 16 * 1024

-- `content.slice(from, to)`, which stops at the end of the content.
unfoldable pub slice : ℕ → ℕ → Bytes → Bytes
slice from to content = take (to - from) (drop from content)

module _ (size : ℕ) (op : Bool → Bytes → Result Bytes) (content : Bytes) where
  -- `while (startP < fileSize || startP == 0)`: `op` is told whether the block ends behind the
  -- file, `fileSize - endP < 0`. Both bounds go on by `size`.
  unfoldable pub each_block : ℕ → ℕ → ℕ → Result (List Bytes)
  each_block zero start_p end_p = stuck
  each_block (suc fuel) start_p end_p = elim (ltb start_p (length content) || start_p == 0) [
    | false ↦ ok []
    | true ↦ do
      out ← op (ltb (length content) end_p) (slice start_p end_p content)
      rest ← each_block fuel (start_p + size) (end_p + size)
      ok (out ∷ rest)
  ]
