-- ===== src/Blocks/Whole.antt =====
-- What the client makes of an encrypted file that save.ts sends: blocks of 16 KiB.
use fula_archived.Prelude.{
  ℕ, zero, suc, ◌+◌, ◌*◌, ◌/◌, ◌%◌, ◌≤◌, ◌<◌, some, List, [], ◌∷◌, ◌++◌, length, take, drop, concat,
  Bytes, ◌≡◌, refl, sym, ap, ◌∙◌, arith, ok, length-drop, length-take, length-append, take_all,
  take-append-drop, append-nil, ◌⊎◌, inl, inr,
}
use fula_archived.Blocks.{encryption_block_size}
use fula_archived.Blocks.Cipher.{Cipher, seal, unseal, send_blocks, decrypt_content, rounds}
use fula_archived.Blocks.Pieces.{pieces_nil, each_block_start, each_block_some}
use fula_archived.Blocks.RoundTrip.{
  blocks, after, Trips, Trips-nil, Trips-prefix, Trips-short, Trips-filled, short_back,
}

after≡ : (c : Cipher) (q f : ℕ) → after c 1023 q f ≡ q + f
after≡ c zero f = omega arith
after≡ c (suc q) f = omega (arith, after≡ c q f)

blocks≡ : (c : Cipher) (q : ℕ) → blocks c 1023 q ≡ q * 16384
blocks≡ c zero = omega arith
blocks≡ c (suc q) = omega (arith, blocks≡ c q)

take_none : (xs : Bytes) → take 0 xs ≡ []
take_none xs = refl

nonempty? : (xs : Bytes) → (xs ≡ []) ⊎ (0 < length xs)
nonempty? [] = inl refl
nonempty? (x ∷ xs) = inr (omega arith)

zero_or_more : (n : ℕ) → (n ≡ 0) ⊎ (0 < n)
zero_or_more zero = inl refl
zero_or_more (suc n) = inr (omega arith)

module _ (c : Cipher) (content : Bytes) where
  -- Both loops, when the content is not empty.
  whole :
      (f g : ℕ) (ys zs : List Bytes)
      → 0 < length content
      → 0 < length (concat ys)
      → rounds content ≡ f
      → rounds (concat ys) ≡ g
      → Trips c 1023 f g content ys zs
      → (send_blocks (some c) content ≡ ok ys) × (decrypt_content c (concat ys) ≡ ok (concat zs))
  whole f g ys zs h k ef eg (p, q) = (
    unfold send_blocks in
        each_block_some encryption_block_size (seal c) content (rounds content) ys (omega arith)
          (omega arith) h (rw ef p),
    unfold decrypt_content in
        rw (
          each_block_some encryption_block_size (unseal c) (concat ys) (rounds (concat ys)) zs
            (omega arith) (omega arith) k (rw eg q)),
  )

  -- From a last block that is done, the whole.
  from_tail :
      (g : ℕ) (ys zs : List Bytes)
      → 0 < length content
      → (0 < length (concat ys)) ⊎ (1 ≤ length content / 16384)
      → length (concat ys) / 16384 + 2 ≡ g
      → Trips c 1023 2 g (drop (blocks c 1023 (length content / 16384)) content) ys zs
      → (ys' : List Bytes) × (send_blocks (some c) content ≡ ok ys')
        × (decrypt_content c (concat ys')
            ≡ ok (take (blocks c 1023 (length content / 16384)) content ++ concat zs))
  from_tail g ys zs h k eg t =
      let q = length content / 16384 in
      let b : blocks c 1023 q ≡ q * 16384 = blocks≡ c q in
      let (ys', zs', t', w, l) = Trips-prefix c 1023 q 2 g content ys zs (omega (arith, b)) t in
      let nonempty : 0 < length (concat ys') = elim k [
        | inl j ↦ omega (arith, l, j)
        | inr j ↦ omega (arith, l, b, j)
      ] in
      let (sent, back) =
        whole (after c 1023 q 2) (after c 1023 q g) ys' zs' h nonempty (omega (arith, after≡ c q 2))
          (omega (arith, after≡ c q g, l, b, eg)) t' in
      (ys', sent, back ∙ rw w)

  send_nothing :
      (y : Bytes)
      → c.encrypt (c.pad []) ≡ some y
      → length y ≡ 16
      → c.decrypt y ≡ some (c.pad [])
      → (send_blocks (some c) [] ≡ ok (y ∷ [])) × (decrypt_content c (concat (y ∷ [])) ≡ ok [])
  unfolding send_blocks
  send_nothing y enc l dec =
      let few : rounds [] ≡ 2 = omega arith in
      let few_back : rounds (y ++ []) ≡ 2 = omega (arith, length-append y [], l) in
      (
        rw few (
            unfold send_blocks in
            each_block_start encryption_block_size (seal c) [] 1 y [] (omega arith)
              (unfold seal in rw enc) (pieces_nil encryption_block_size _ 0)),
        unfold decrypt_content in
            rw (
              few_back,
              each_block_some encryption_block_size (unseal c) (y ++ []) 2 ([] ∷ []) (omega arith)
                  (omega arith) (omega (arith, length-append y [], l))
                  (short_back c 1023 0 [] y (omega (arith, l)) (omega (arith, l)) dec),
            ),
      )

  send_empty :
      content ≡ []
      → (ys : List Bytes) × (send_blocks (some c) content ≡ ok ys)
        × (decrypt_content c (concat ys) ≡ ok content)
  send_empty e =
      let padded : length (c.pad []) ≡ 16 = omega (arith, c.length-pad []) in
      let (y, enc, l, dec) = c.encrypted (c.pad []) (omega (arith, padded)) in
      let (sent, back) = send_nothing y enc (l ∙ padded) dec in
      (y ∷ [], ap (send_blocks (some c)) e ∙ sent, back ∙ ap ok (sym e))

  -- What is behind the full blocks.
  abbrev tail : Bytes
  tail = drop (blocks c 1023 (length content / 16384)) content

  length-tail : length tail ≡ length content % 16384
  length-tail =
      let b : blocks c 1023 (length content / 16384) ≡ length content / 16384 * 16384 =
        blocks≡ c _ in
      omega (arith, length-drop (blocks c 1023 (length content / 16384)) content, b)

  length_zero : (xs : Bytes) → length xs ≡ 0 → xs ≡ []
  length_zero xs h = sym (take_all 0 xs (omega arith)) ∙ take_none xs

  -- A size that is a whole number of blocks.
  send_exact :
      0 < length content
      → length content % 16384 ≡ 0
      → (ys : List Bytes) × (send_blocks (some c) content ≡ ok ys)
        × (decrypt_content c (concat ys) ≡ ok content)
  send_exact k e =
      let none_left : tail ≡ [] = length_zero tail (length-tail ∙ e) in
      let (ys, sent, back) =
        from_tail 2 [] [] k (inr (omega (arith, e, k))) (omega arith)
          (rw none_left (Trips-nil c 1023 1 1)) in
      (
        ys,
        sent,
        back ∙ rw (← none_left, take-append-drop (blocks c 1023 (length content / 16384)) content),
      )

  send_short :
      0 < length content % 16384
      → length content % 16384 < 16368
      → (ys : List Bytes) × (send_blocks (some c) content ≡ ok ys)
        × (decrypt_content c (concat ys) ≡ ok content)
  send_short k h =
      let (y, l, t) =
        Trips-short c 1023 0 0 tail (omega (arith, length-tail)) (omega (arith, length-tail)) in
      let (ys, sent, back) =
        from_tail 2 (y ∷ []) (tail ∷ []) (omega (arith, k))
          (inl (omega (arith, length-append y [], l)))
          (omega (arith, length-append y [], l, length-tail)) t in
      (
        ys,
        sent,
        back
            ∙ rw (
              append-nil tail,
              take-append-drop (blocks c 1023 (length content / 16384)) content,
            ),
      )

  -- Let the file's size modulo 16384 be below 16368. Then `sendFile` with a key sends all of the
  -- file in some messages, and `receiveDecryptedFile` gives exactly the file back from those
  -- messages joined. This holds for the empty file too.
  pub decrypt_content-send_blocks :
      length content % 16384 < 16368
      → (ys : List Bytes) × (send_blocks (some c) content ≡ ok ys)
        × (decrypt_content c (concat ys) ≡ ok content)
  decrypt_content-send_blocks h = elim (nonempty? content) [
    | inl e ↦ send_empty e
    | inr k ↦ elim (zero_or_more (length content % 16384)) [
      | inl e ↦ send_exact k e
      | inr j ↦ send_short j h
    ]
  ]

  -- Let the file's size modulo 16384 be 16368 or more. Then `sendFile` with a key sends the file,
  -- and `receiveDecryptedFile` returns from the messages joined the file's whole blocks of 16 KiB
  -- and behind them the padded rest of the file, with the padding left on: a content that is longer
  -- than the file and is a whole number of blocks.
  pub decrypt_content_padded :
      16368 ≤ length content % 16384
      → (ys : List Bytes) × (out : Bytes) × (send_blocks (some c) content ≡ ok ys)
        × (decrypt_content c (concat ys) ≡ ok out)
        × (out
            ≡ take (length content / 16384 * 16384) content
              ++ c.pad (drop (length content / 16384 * 16384) content))
        × (length content < length out)
        × (length out ≡ (length content / 16384 + 1) * 16384)
  decrypt_content_padded h =
      let (y, l, t) =
        Trips-filled c 1023 0 1 tail (omega (arith, length-tail)) (omega (arith, length-tail))
          (omega (arith, length-tail)) in
      let (ys, sent, back) =
        from_tail 3 (y ∷ []) (c.pad tail ∷ []) (omega (arith, h))
          (inl (omega (arith, length-append y [], l))) (omega (arith, length-append y [], l)) t in
      let size_out : length
            (take (blocks c 1023 (length content / 16384)) content ++ (c.pad tail ++ []))
          ≡ (length content / 16384 + 1) * 16384 =
        omega (
          arith,
          length-append (take (blocks c 1023 (length content / 16384)) content) (c.pad tail ++ []),
          length-append (c.pad tail) [],
          c.length-pad tail,
          length-tail,
          length-take (blocks c 1023 (length content / 16384)) content,
          blocks≡ c (length content / 16384),
        ) in
      (
        ys,
        _,
        sent,
        back,
        ap (λ r. take (blocks c 1023 (length content / 16384)) content ++ r)
              (append-nil (c.pad tail))
            ∙ ap (λ k. take k content ++ c.pad (drop k content))
                (blocks≡ c (length content / 16384)),
        omega (arith, size_out),
        size_out,
      )
