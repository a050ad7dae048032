-- ===== src/Blocks/Unsealed.antt =====
-- Files that save.ts sends without a key.
use fula_archived.Prelude.{
  ℕ, zero, suc, ◌+◌, ◌/◌, ◌≤◌, ◌<◌, none, List, [], ◌∷◌, length, take, drop, concat, Bytes, ◌≡◌,
  refl, sym, arith, ok, length-drop, take-append-drop, ◌⊎◌, inl, inr,
}
use fula_archived.Blocks.{encryption_block_size}
use fula_archived.Blocks.Cipher.{plain_block, send_blocks, rounds}
use fula_archived.Blocks.Pieces.{pieces, pieces_nil, pieces_more, each_block_start}

nonempty? : (xs : Bytes) → (xs ≡ []) ⊎ (0 < length xs)
nonempty? [] = inl refl
nonempty? (x ∷ xs) = inr (omega arith)

-- Without a key, each block is itself.
plain_pieces :
    (fuel : ℕ) (left : Bytes)
    → 0 < fuel
    → (0 < length left → length left / 16384 + 2 ≤ fuel)
    → (ys : List Bytes) × (pieces encryption_block_size plain_block fuel left ≡ ok ys)
      × (concat ys ≡ left)
plain_pieces zero left h k = absurd (omega arith)
plain_pieces (suc fuel) left h k = elim (nonempty? left) [
  | inl e ↦ ([], rw e (pieces_nil encryption_block_size _ fuel), sym e)
  | inr j ↦
      (let (ys, e, w) =
          plain_pieces fuel (drop 16384 left) (omega (arith, k j))
            (λ i. omega (arith, k j, i, length-drop 16384 left)) in
        (
          take 16384 left ∷ ys,
          pieces_more encryption_block_size _ fuel left (take 16384 left) ys j
              (unfold plain_block in refl) e,
          rw w (take-append-drop 16384 left),
        ))
]

-- Without a key, `sendFile` sends all of any file, and the messages joined are the file.
pub concat-send_blocks :
    (content : Bytes)
    → (ys : List Bytes) × (send_blocks none content ≡ ok ys) × (concat ys ≡ content)
concat-send_blocks content =
    let (ys, e, w) =
      plain_pieces (length content / 16384 + 1) (drop 16384 content) (omega arith)
        (λ i. omega (arith, i, length-drop 16384 content)) in
    let at_start : rounds content ≡ suc (length content / 16384 + 1) = omega arith in
    (
      take 16384 content ∷ ys,
      unfold send_blocks in
          rw at_start (
            each_block_start encryption_block_size plain_block content (length content / 16384 + 1)
              (take 16384 content) ys (omega arith) (unfold plain_block in refl) e),
      rw w (take-append-drop 16384 content),
    )
