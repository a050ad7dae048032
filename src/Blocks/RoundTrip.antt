-- ===== src/Blocks/RoundTrip.antt =====
-- Decryption of an encrypted file, over block sizes that are multiples of 16.
use fula_archived.Prelude.{
  ℕ, zero, suc, ◌+◌, ◌*◌, ◌/◌, ◌≤◌, ◌<◌, some, List, [], ◌∷◌, ◌++◌, length, take, drop, concat,
  Bytes, ◌≡◌, refl, sym, ap, ◌∙◌, arith, ok, length-drop, length-take, length-append, drop_all,
  take_all, append-nil, append_assoc, lt→ltb, le→ltb,
}
use fula_archived.Blocks.Cipher.{Cipher, seal, unseal}
use fula_archived.Blocks.Pieces.{pieces, pieces_nil, pieces_more, drop-drop}

take-length : (k : ℕ) (y rest : Bytes) → length y ≡ k → take k (y ++ rest) ≡ y
take-length zero [] rest e = refl
take-length zero (x ∷ y) rest e = absurd (omega (arith, e))
take-length (suc k) [] rest e = absurd (omega (arith, e))
take-length (suc k) (x ∷ y) rest e = ap (λ r. x ∷ r) (take-length k y rest (omega (arith, e)))

drop-length : (k : ℕ) (y rest : Bytes) → length y ≡ k → drop k (y ++ rest) ≡ rest
drop-length zero [] rest e = refl
drop-length zero (x ∷ y) rest e = absurd (omega (arith, e))
drop-length (suc k) [] rest e = absurd (omega (arith, e))
drop-length (suc k) (x ∷ y) rest e = drop-length k y rest (omega (arith, e))

take-drop : (j k : ℕ) (xs : Bytes) → take (j + k) xs ≡ take j xs ++ take k (drop j xs)
take-drop zero k xs = ap (λ m. take m xs) (omega arith)
take-drop (suc j) k [] = take_all (suc j + k) [] (omega arith) ∙ sym (take_all k [] (omega arith))
take-drop (suc j) k (x ∷ xs) =
    let e : suc j + k ≡ suc (j + k) = omega arith in rw e (ap (λ r. x ∷ r) (take-drop j k xs))

module _ (c : Cipher) (n : ℕ) where
  abbrev pub size : ℕ
  size = 16 * suc n

  -- What is left is encrypted to `ys` in `f` rounds, and those are decrypted to `zs` in `g`.
  abbrev pub Trips : ℕ → ℕ → Bytes → List Bytes → List Bytes → Type 0
  Trips f g left ys zs =
      (pieces size (seal c) f left ≡ ok ys) × (pieces size (unseal c) g (concat ys) ≡ ok zs)

  pub Trips-nil : (f g : ℕ) → Trips (suc f) (suc g) [] [] []
  Trips-nil f g = (pieces_nil size _ f, pieces_nil size _ g)

  -- A full block is neither padded nor stripped.
  Trips-full :
      (f g : ℕ) (left y : Bytes) (ys zs : List Bytes)
      → size ≤ length left
      → c.encrypt (take size left) ≡ some y
      → length y ≡ size
      → c.decrypt y ≡ some (take size left)
      → Trips f g (drop size left) ys zs
      → Trips (suc f) (suc g) left (y ∷ ys) (take size left ∷ zs)
  Trips-full f g left y ys zs h e full d (p, q) =
      let long : size ≤ length (y ++ concat ys) = omega (arith, length-append y (concat ys)) in
      (
        pieces_more size _ f left y ys (omega arith)
            (rw (le→ltb (length left) size h) (unfold seal in rw e)) p,
        pieces_more size _ g (y ++ concat ys) (take size left) zs (omega arith)
            (rw (le→ltb (length (y ++ concat ys)) size long, take-length size y (concat ys) full)
              (unfold unseal in rw d))
            (rw (drop-length size y (concat ys) full) q),
      )

  -- The length of `q` blocks, and the rounds that they take.
  abbrev pub blocks : ℕ → ℕ
  blocks zero = 0
  blocks (suc q) = size + blocks q

  abbrev pub after : ℕ → ℕ → ℕ
  after zero f = f
  after (suc q) f = suc (after q f)

  -- The full blocks before a tail.
  pub Trips-prefix :
      (q f g : ℕ) (left : Bytes) (ys zs : List Bytes)
      → blocks q ≤ length left
      → Trips f g (drop (blocks q) left) ys zs
      → (ys' zs' : List Bytes) × Trips (after q f) (after q g) left ys' zs'
        × (concat zs' ≡ take (blocks q) left ++ concat zs)
        × (length (concat ys') ≡ blocks q + length (concat ys))
  Trips-prefix zero f g left ys zs h t = (ys, zs, t, refl, omega arith)
  Trips-prefix (suc q) f g left ys zs h t =
      let full : length (take size left) ≡ size = omega (arith, length-take size left) in
      let (y, enc, l, dec) = c.encrypted (take size left) (omega (arith, full)) in
      let (ys', zs', t', w, k) =
        Trips-prefix q f g (drop size left) ys zs (omega (arith, length-drop size left))
          (rw (drop-drop size (blocks q) left) t) in
      (
        y ∷ ys',
        take size left ∷ zs',
        Trips-full (after q f) (after q g) left y ys' zs' (omega arith) enc (l ∙ full) dec t',
        rw (w, take-drop size (blocks q) left, append_assoc),
        omega (arith, length-append y (concat ys'), k, l, full),
      )

  -- A message shorter than a block is stripped.
  pub short_back :
      (g : ℕ) (left y : Bytes)
      → 0 < length y
      → length y < size
      → c.decrypt y ≡ some (c.pad left)
      → pieces size (unseal c) (suc (suc g)) (y ++ []) ≡ ok (left ∷ [])
  short_back g left y h short dec = rw (append-nil y) (
      pieces_more size _ (suc g) y left [] h
        (rw (lt→ltb (length y) size short, take_all size y (omega arith))
          (unfold unseal in rw (dec, c.strip-pad left)))
        (rw (drop_all size y (omega arith)) (pieces_nil size _ g)))

  -- A last block that is left over: padded, it is shorter than a block.
  pub Trips-short :
      (f g : ℕ) (left : Bytes)
      → 0 < length left
      → length left < 16 * n
      → (y : Bytes) × (length y ≡ (length left / 16 + 1) * 16)
        × Trips (suc (suc f)) (suc (suc g)) left (y ∷ []) (left ∷ [])
  Trips-short f g left h k =
      let padded : length (c.pad left) ≡ (length left / 16 + 1) * 16 = c.length-pad left in
      let (y, enc, l, dec) = c.encrypted (c.pad left) (omega (arith, padded)) in
      let short : length y < size = omega (arith, padded, l) in
      (
        y,
        l ∙ padded,
        (
          pieces_more size _ (suc f) left y [] h
              (rw (lt→ltb (length left) size (omega arith), take_all size left (omega arith))
                (unfold seal in rw enc))
              (rw (drop_all size left (omega arith)) (pieces_nil size _ f)),
          short_back g left y (omega (arith, l, padded)) short dec,
        ),
      )

  -- One whose padding fills the block.
  pub Trips-filled :
      (f g : ℕ) (left : Bytes)
      → 0 < length left
      → 16 * n ≤ length left
      → length left < size
      → (y : Bytes) × (length y ≡ size)
        × Trips (suc (suc f)) (suc (suc g)) left (y ∷ []) (c.pad left ∷ [])
  Trips-filled f g left h j k =
      let padded : length (c.pad left) ≡ (length left / 16 + 1) * 16 = c.length-pad left in
      let filled : length (c.pad left) ≡ size = omega (arith, padded) in
      let (y, enc, l, dec) = c.encrypted (c.pad left) (omega (arith, padded)) in
      (
        y,
        l ∙ filled,
        (
          pieces_more size _ (suc f) left y [] h
              (rw (lt→ltb (length left) size k, take_all size left (omega arith))
                (unfold seal in rw enc))
              (rw (drop_all size left (omega arith)) (pieces_nil size _ f)),
          rw (append-nil y) (
              pieces_more size _ (suc g) y (c.pad left) [] (omega (arith, l, filled))
                (rw
                  (
                    le→ltb (length y) size (omega (arith, l, filled)),
                    take_all size y (omega (arith, l, filled)),
                  )
                  (unfold unseal in rw dec))
                (rw (drop_all size y (omega (arith, l, filled))) (pieces_nil size _ g))),
        ),
      )
