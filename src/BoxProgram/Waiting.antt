-- ===== src/BoxProgram/Waiting.antt =====
-- apps/box/src/utils.ts: how often `connectWithBackOff` tries, and how long it waits.
use fula_archived.Prelude.{
  ℕ, zero, suc, ◌+◌, ◌*◌, ◌/◌, ◌<◌, Option, none, some, ◌≡◌, refl, ap, ◌∙◌, arith, Result, ok, err,
  message, lt→ltb, Option-cases, inl, inr,
}
use fula_archived.BoxProgram.{try_from, connect_with_back_off}

-- The seconds of sleep before a try: 5 and 10 and so on.
unfoldable pub waited : ℕ → ℕ
waited zero = 0
waited (suc k) = waited k + 5 * suc k

waited_closed : (k : ℕ) → 2 * waited k ≡ 5 * (k * suc k)
unfolding waited
waited_closed zero = omega arith
waited_closed (suc k) = grind (arith, waited_closed k)

waited≡ : (k : ℕ) → waited k ≡ 5 * (k * suc k) / 2
waited≡ k = omega (arith, waited_closed k)

module _ {Node : Type 0} (attempt : ℕ → Option Node) where
  -- The first try from a number on that succeeds, among so many.
  unfoldable pub first_success : ℕ → ℕ → Option (ℕ × Node)
  first_success zero k = none
  first_success (suc left) k = elim (attempt k) [
    | some n ↦ some (k, n)
    | none ↦ first_success left (suc k)
  ]

  abbrev pub outcome : Option (ℕ × Node) → Result Node × ℕ
  outcome none = (err (message "Can Not Connect to IPFS"), 25250)
  outcome (some (k, n)) = (ok n, 5 * (k * suc k) / 2)

  last_try : (fuel : ℕ) → try_from attempt (suc fuel) 100 (5 * suc 100) (waited 100) ≡ outcome none
  unfolding try_from waited
  last_try fuel = refl

  more :
      (fuel k : ℕ)
      → try_from attempt fuel (k + 1) (5 * suc k + 5) (waited k + 5 * suc k)
        ≡ try_from attempt fuel (suc k) (5 * suc (suc k)) (waited (suc k))
  unfolding waited
  more fuel k =
      let one : k + 1 ≡ suc k = omega arith in
      let five : 5 * suc k + 5 ≡ 5 * suc (suc k) = omega arith in rw (one, five) refl

  try_from-outcome :
      (k left fuel : ℕ)
      → left + k ≡ 100
      → left < fuel
      → try_from attempt fuel k (5 * suc k) (waited k) ≡ outcome (first_success left k)
  unfolding try_from first_success
  try_from-outcome k left zero h f = absurd (omega arith)
  try_from-outcome k zero (suc fuel) h f = let end : k ≡ 100 = omega arith in rw end (last_try fuel)
  try_from-outcome k (suc left) (suc fuel) h f = elim (Option-cases (attempt k)) [
    | inr (n, e) ↦
        rw (lt→ltb k 100 (omega arith), e, first_success) (ap (λ t. (ok n, t)) (waited≡ k))
    | inl e ↦
        rw (lt→ltb k 100 (omega arith), e, first_success)
          (more fuel k ∙ try_from-outcome (suc k) left fuel (omega arith) (omega arith))
  ]

  -- `connectWithBackOff` gives the node of the first of its 100 tries that succeeds, and has slept for 5, 10, 15
  -- seconds and so on between the tries, 5 k (k + 1) / 2 seconds before try k. When all of them fail it throws, and has slept
  -- for 25250 seconds.
  pub connect_with_back_off-first_success :
      connect_with_back_off attempt ≡ outcome (first_success 100 0)
  unfolding connect_with_back_off waited
  connect_with_back_off-first_success = try_from-outcome 0 100 101 refl (omega arith)
