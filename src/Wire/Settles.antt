-- ===== src/Wire/Settles.antt =====
-- The loops of the readers end on every input: they return a message or throw.
use fula_archived.Prelude.{
  ℕ, zero, suc, ◌+◌, ◌≤◌, ◌<◌, length, Bytes, ◌≢◌, arith, String, Result, ok, err, stuck, ◌>>=◌,
  inl, inr, Bool-cases, Option-cases, ltb,
}
use fula_archived.Wire.{
  Wire, WireType, Reader, MovesOn, OnUnknown, throw_unknown, discard_unknown, keep_unknown, Unknown,
}
use fula_archived.Wire.Loop.{Step, read_loop, read_message, read_field, read_nested, read_unknown}

-- A message with at most `n` bytes left behind it, or an exception.
abbrev pub Settles : {M : Type 0} → ℕ → Result (M × Bytes) → Type 0
Settles n (ok (m, r)) = length r ≤ n
Settles n (err e) = Unit {0}
Settles n stuck = ⊥

pub Settles-mono :
    {M : Type 0} (n k : ℕ) (x : Result (M × Bytes)) → n ≤ k → Settles n x → Settles k x
Settles-mono n k (ok (m, r)) h s = omega arith
Settles-mono n k (err e) h s = tt
Settles-mono n k stuck h s = s

pub Settles-ne-stuck : {M : Type 0} (n : ℕ) (x : Result (M × Bytes)) → Settles n x → x ≢ stuck
Settles-ne-stuck n (ok a) s e = cc
Settles-ne-stuck n (err a) s e = cc
Settles-ne-stuck n stuck s e = absurd s

pub read_field-Settles :
    {A M : Type 0} (read : Reader A) (put : A → M) (bs : Bytes)
    → MovesOn read
    → Settles (length bs) (read_field read put bs)
unfolding read_field
read_field-Settles read put bs moves = elim (Option-cases (read bs)) [
  | inl e ↦ rw e tt
  | inr ((a, r), e) ↦ rw e (moves bs a r e)
]

module _ (w : Wire) {M : Type 0} where
  pub read_unknown-Settles :
      (u : OnUnknown) (name : String) (add : Unknown → M → M) (n : ℕ) (t : WireType) (m : M)
      (bs : Bytes)
      → Settles (length bs) (read_unknown w u name add n t m bs)
  unfolding read_unknown
  read_unknown-Settles throw_unknown name add n t m bs = tt
  read_unknown-Settles discard_unknown name add n t m bs = elim (Option-cases (w.skip t bs)) [
    | inl e ↦ rw e tt
    | inr ((d, r), e) ↦ rw e (w.skip_moves t bs d r e)
  ]
  read_unknown-Settles keep_unknown name add n t m bs = elim (Option-cases (w.skip t bs)) [
    | inl e ↦ rw e tt
    | inr ((d, r), e) ↦ rw e (w.skip_moves t bs d r e)
  ]

  put_nested :
      {A : Type 0} (put : A → M) (n : ℕ) (x : Result (A × Bytes))
      → Settles n x
      → Settles n (x >>= λ (a, r). ok (put a, r))
  put_nested put n (ok (a, r)) s = s
  put_nested put n (err e) s = tt
  put_nested put n stuck s = s

  pub read_nested-Settles :
      {A : Type 0} (read : ℕ → Bytes → Result (A × Bytes)) (put : A → M) (bs : Bytes)
      → ((len : ℕ) (r : Bytes) → Settles (length r) (read len r))
      → Settles (length bs) (read_nested w read put bs)
  unfolding read_nested
  read_nested-Settles read put bs inner = elim (Option-cases (w.read_uint32 bs)) [
    | inl e ↦ rw e tt
    | inr ((len, r), e) ↦ rw e (
        Settles-mono (length r) (length bs) _ (w.uint32_moves bs len r e)
          (put_nested put (length r) (read len r) (inner len r)))
  ]

  module _ (step : Step M)
      (settles : (n : ℕ) (t : WireType) (m : M) (bs : Bytes)
        → Settles (length bs) (step n t m bs)) where
    loop_on :
        (start len fuel n : ℕ) (x : Result (M × Bytes))
        → ((m : M) (r : Bytes)
            → length r < fuel
            → Settles (length r) (read_loop w step start len fuel m r))
        → Settles n x
        → n < fuel
        → Settles n (x >>= λ (m, r). read_loop w step start len fuel m r)
    loop_on start len fuel n (ok (m, r)) ih s h =
        Settles-mono (length r) n _ s (ih m r (omega arith))
    loop_on start len fuel n (err e) ih s h = tt
    loop_on start len fuel n stuck ih s h = s

    read_loop-Settles :
        (start len fuel : ℕ) (m : M) (bs : Bytes)
        → length bs < fuel
        → Settles (length bs) (read_loop w step start len fuel m bs)
    unfolding read_loop
    read_loop-Settles start len zero m bs h = absurd (omega arith)
    read_loop-Settles start len (suc fuel) m bs h =
        elim (Bool-cases (ltb start (len + length bs))) [
          | inl more ↦ elim (Option-cases (w.read_tag bs)) [
            | inl e ↦ rw (more, e, read_loop) tt
            | inr (((n, t), r), e) ↦
                rw (more, e, read_loop)
                  (Settles-mono (length r) (length bs) _ (omega (arith, w.tag_moves bs (n, t) r e))
                    (loop_on start len fuel (length r) (step n t m r)
                      (λ m' r'. read_loop-Settles start len fuel m' r') (settles n t m r)
                      (omega (arith, w.tag_moves bs (n, t) r e))))
          ]
          | inr stop ↦ rw (stop, read_loop) (omega arith)
        ]

    pub read_message-Settles :
        (len : ℕ) (m : M) (bs : Bytes) → Settles (length bs) (read_message w step len m bs)
    unfolding read_message
    read_message-Settles len m bs =
        read_loop-Settles (length bs) len (suc (length bs)) m bs (omega arith)
