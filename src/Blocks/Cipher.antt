-- ===== src/Blocks/Cipher.antt =====
-- `aes-js`, as save.ts and fula-client/src/index.ts use it, and what they do to one block with it.
use fula_archived.Prelude.{
  ℕ, ◌+◌, ◌*◌, ◌/◌, ◌%◌, Bool, Option, some, List, length, concat, Bytes, ◌≡◌, Result, ok, ◌>>=◌,
  call, if◌then◌else◌,
}
use fula_archived.Blocks.{encryption_block_size, each_block}

-- `new aes.ModeOfOperation.cbc(symKey, iv)`, made anew for each block, and `aes.padding.pkcs7`.
-- Encryption works on multiples of 16 bytes, keeps the length and is undone by decryption; padding
-- fills up to the next multiple of 16 bytes, by 16 bytes where there is one already.
pub record Cipher : Type 0 where
  pub encrypt : Bytes → Option Bytes
  pub decrypt : Bytes → Option Bytes
  pub pad : Bytes → Bytes
  pub strip : Bytes → Option Bytes
  pub encrypted :
      (x : Bytes)
      → length x % 16 ≡ 0
      → (y : Bytes) × (encrypt x ≡ some y) × (length y ≡ length x) × (decrypt y ≡ some x)
  pub length-pad : (x : Bytes) → length (pad x) ≡ (length x / 16 + 1) * 16
  pub strip-pad : (x : Bytes) → strip (pad x) ≡ some x

module _ (c : Cipher) where
  -- The branch of `sendFile` with a key.
  unfoldable pub seal : Bool → Bytes → Result Bytes
  seal last block = if last then call (c.encrypt (c.pad block)) else call (c.encrypt block)

  -- The body of the loop of `receiveDecryptedFile`.
  unfoldable pub unseal : Bool → Bytes → Result Bytes
  unseal last block =
      if last
      then (do padded ← call (c.decrypt block); call (c.strip padded))
      else call (c.decrypt block)

-- The branch of `sendFile` without a key.
unfoldable pub plain_block : Bool → Bytes → Result Bytes
plain_block last block = ok block

-- A round takes a block, and there is one round for an empty file.
abbrev pub rounds : Bytes → ℕ
rounds content = length content / encryption_block_size + 2

-- The messages of `sendFile` behind its request, with a key or without.
unfoldable pub send_blocks : Option Cipher → Bytes → Result (List Bytes)
send_blocks (some c) content =
    each_block encryption_block_size (seal c) content (rounds content) 0 encryption_block_size
send_blocks _ content =
    each_block encryption_block_size plain_block content (rounds content) 0 encryption_block_size

-- The decryption of `receiveDecryptedFile`, on the content that it received.
unfoldable pub decrypt_content : Cipher → Bytes → Result Bytes
decrypt_content c content = do
  blocks ←
      each_block encryption_block_size (unseal c) content (rounds content) 0 encryption_block_size
  ok (concat blocks)
