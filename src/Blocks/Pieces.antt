-- ===== src/Blocks/Pieces.antt =====
-- The block loop by what is left of the content, in place of two bounds.
use fula_archived.Prelude.{
  ℕ, zero, suc, ◌+◌, ◌-◌, ◌≤◌, ◌<◌, Bool, true, ◌||◌, List, [], ◌∷◌, length, take, drop, Bytes, ◌≡◌,
  refl, sym, ap, ◌∙◌, arith, Result, ok, stuck, ◌>>=◌, ltb, ◌==◌, length-drop,
}
use fula_archived.Blocks.{slice, each_block}

drop-nil : (n : ℕ) → drop {A = ℕ} n [] ≡ []
drop-nil zero = refl
drop-nil (suc n) = refl

pub drop-drop : (n k : ℕ) (xs : Bytes) → drop k (drop n xs) ≡ drop (n + k) xs
drop-drop zero k xs = ap (λ j. drop j xs) (omega arith)
drop-drop (suc n) k [] = rw (drop-nil k, drop-nil (suc n + k))
drop-drop (suc n) k (x ∷ xs) =
    let e : suc n + k ≡ suc (n + k) = omega arith in rw e (drop-drop n k xs)

-- The test of the last block, by what is left.
ltb_left :
    (start_p left total size : ℕ)
    → left ≡ total - start_p
    → start_p < total
    → ltb total (start_p + size) ≡ ltb left size
ltb_left start_p left total size h k = ground arith

module _ (size : ℕ) (op : Bool → Bytes → Result Bytes) where
  -- The blocks of what is left, when the first block is done.
  pub pieces : ℕ → Bytes → Result (List Bytes)
  pieces zero left = stuck
  pieces (suc fuel) [] = ok []
  pieces (suc fuel) (x ∷ xs) = do
    out ← op (ltb (length (x ∷ xs)) size) (take size (x ∷ xs))
    rest ← pieces fuel (drop size (x ∷ xs))
    ok (out ∷ rest)

  pub pieces_nil : (fuel : ℕ) → pieces (suc fuel) [] ≡ ok []
  unfolding pieces
  pieces_nil fuel = refl

  pub pieces_more :
      (fuel : ℕ) (left : Bytes) (out : Bytes) (rest : List Bytes)
      → 0 < length left
      → op (ltb (length left) size) (take size left) ≡ ok out
      → pieces fuel (drop size left) ≡ ok rest
      → pieces (suc fuel) left ≡ ok (out ∷ rest)
  unfolding pieces
  pieces_more fuel [] out rest h e f = absurd (omega arith)
  pieces_more fuel (x ∷ xs) out rest h e f = rw (e, f)

  module _ (content : Bytes) where
    each_block_stop :
        (fuel start_p end_p : ℕ)
        → length content ≤ start_p
        → 0 < start_p
        → each_block size op content (suc fuel) start_p end_p ≡ ok []
    unfolding each_block
    each_block_stop fuel start_p end_p h k = ground arith

    each_block_go :
        (fuel start_p end_p : ℕ)
        → (ltb start_p (length content) || start_p == 0) ≡ true
        → each_block size op content (suc fuel) start_p end_p ≡ (
            op (ltb (length content) end_p) (slice start_p end_p content) >>= λ out.
            each_block size op content fuel (start_p + size) (end_p + size) >>= λ rest.
            ok (out ∷ rest))
    unfolding each_block
    each_block_go fuel start_p end_p h = rw (h, each_block)

    slice-take :
        (start_p : ℕ) → slice start_p (start_p + size) content ≡ take size (drop start_p content)
    unfolding slice
    slice-take start_p = ap (λ k. take k (drop start_p content)) (omega arith)

    slice_start : slice 0 size content ≡ take size content
    unfolding slice
    slice_start = ap (λ k. take k content) (omega arith)

    -- One round of each loop.
    rounds_agree :
        (fuel start_p : ℕ) (left : Bytes)
        → 0 < start_p
        → drop start_p content ≡ left
        → each_block size op content fuel (start_p + size) (start_p + size + size)
          ≡ pieces fuel (drop (start_p + size) content)
        → each_block size op content (suc fuel) start_p (start_p + size) ≡ pieces (suc fuel) left
    unfolding pieces
    rounds_agree fuel start_p [] h e ih =
        each_block_stop fuel start_p _ (omega (arith, ap length e, length-drop start_p content)) h
    rounds_agree fuel start_p (x ∷ xs) h e ih =
        let size_left : length (x ∷ xs) ≡ length content - start_p =
          ap length (sym e) ∙ length-drop start_p content in
        each_block_go fuel start_p (start_p + size) (ground arith)
        ∙ rw
            (
              slice-take start_p,
              ih,
              ← drop-drop start_p size content,
              e,
              ltb_left start_p (length (x ∷ xs)) (length content) size size_left (omega arith),
            )
            refl

    -- Behind the first block the two loops agree.
    each_block-pieces :
        (fuel start_p : ℕ)
        → 0 < start_p
        → each_block size op content fuel start_p (start_p + size)
          ≡ pieces fuel (drop start_p content)
    each_block-pieces zero start_p h = unfold each_block pieces in refl
    each_block-pieces (suc fuel) start_p h =
        rounds_agree fuel start_p (drop start_p content) h refl
          (each_block-pieces fuel (start_p + size) (omega arith))

    -- The whole loop: the first block is done whatever the content, and the others while any is left.
    pub each_block_start :
        (fuel : ℕ) (out : Bytes) (rest : List Bytes)
        → 0 < size
        → op (ltb (length content) size) (take size content) ≡ ok out
        → pieces fuel (drop size content) ≡ ok rest
        → each_block size op content (suc fuel) 0 size ≡ ok (out ∷ rest)
    each_block_start fuel out rest h e f =
        let at_size : 0 + size ≡ size = omega arith in
        each_block_go fuel 0 size (ground arith)
        ∙ rw (slice_start, e, at_size, each_block-pieces fuel size h, f)

    -- On a content that is not empty the two loops agree from the start.
    each_block_nonempty :
        (fuel : ℕ) (left : Bytes)
        → 0 < size
        → left ≡ content
        → 0 < length content
        → each_block size op content (suc fuel) 0 size ≡ pieces (suc fuel) left
    unfolding pieces
    each_block_nonempty fuel [] h e k = absurd (omega (arith, ap length e))
    each_block_nonempty fuel (x ∷ xs) h e k =
        let at_size : 0 + size ≡ size = omega arith in
        each_block_go fuel 0 size (ground arith)
        ∙ rw (slice_start, at_size, each_block-pieces fuel size h, ← e)

    pub each_block_some :
        (fuel : ℕ) (out : List Bytes)
        → 0 < fuel
        → 0 < size
        → 0 < length content
        → pieces fuel content ≡ ok out
        → each_block size op content fuel 0 size ≡ ok out
    each_block_some zero out f h k e = absurd (omega arith)
    each_block_some (suc fuel) out f h k e = each_block_nonempty fuel content h refl k ∙ e
