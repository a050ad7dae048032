-- ===== src/AsyncLater/Later/Invariant.antt =====
-- iterate-later.ts: how the heap of promises and the queue stand for a channel, and that the
-- two callbacks keep it so.
use fula_archived.Prelude.{
  ℕ, zero, suc, ◌+◌, ◌≤◌, true, false, Option, none, some, List, [], ◌∷◌, ◌++◌, length,
  if◌then◌else◌, ◌≡◌, refl, ap, ◌⊎◌, inl, inr, arith, Bool-cases, length-append,
}
use mathlib.Core.Path.{fun_ext}
use fula_archived.AsyncLater.Later.{
  Item, completed, Later, resolve, iterate_later, next, complete, pop,
}
use fula_archived.AsyncLater.Later.Channel.{Channel, empty, send, shut}

-- The ids of `n` promises from `k` on, the youngest first: the shape of the queue.
abbrev pub down : ℕ → ℕ → List ℕ
down k zero = []
down k (suc n) = (k + n) ∷ down k n

pub pop-down : (k n : ℕ) → pop (down k (suc n)) ≡ some (k, down (suc k) n)
unfolding pop
pop-down k zero = ground arith
pop-down k (suc n) = ground (arith, pop-down k n)

pub length-down : (k n : ℕ) → length (down k n) ≡ n
length-down k zero = refl
length-down k (suc n) = ap suc (length-down k n)

-- The promises from `first` on are queued, but for the first of them if it is awaited.
abbrev pub Queued : ℕ → ℕ → Option ℕ → List ℕ → Type 0
Queued first n awaiting queue =
    (awaiting ≡ none) × (queue ≡ down first n)
    ⊎ ((m : ℕ) × (n ≡ suc m) × (awaiting ≡ some first) × (queue ≡ down (suc first) m))

Queued-cons :
    (first n n' fresh : ℕ) (awaiting : Option ℕ) (queue : List ℕ)
    → fresh ≡ first + n
    → n' ≡ suc n
    → Queued first n awaiting queue
    → Queued first n' awaiting (fresh ∷ queue)
Queued-cons first n n' fresh awaiting queue e d (inl (a, q)) = inl (a, rw d (ground arith))
Queued-cons first n n' fresh awaiting queue e d (inr (m, same, a, q)) =
    inr (suc m, omega arith, a, ground arith)

Queued-same :
    (first n n' : ℕ) (awaiting : Option ℕ) (queue : List ℕ)
    → n' ≡ n
    → Queued first n awaiting queue
    → Queued first n' awaiting queue
Queued-same first n n' awaiting queue e q = rw e q

module _ {ℓ} {T : Type ℓ} where
  -- The cells from `k` on hold the items of a list.
  abbrev pub Holds : (ℕ → Option (Item T)) → ℕ → List (Item T) → Type ℓ
  Holds cells k [] = Unit
  Holds cells k (x ∷ xs) = (cells k ≡ some x) × Holds cells (suc k) xs

  Holds-resolve :
      (cells : ℕ → Option (Item T)) (i k : ℕ) (x : Item T) (xs : List (Item T))
      → k + length xs ≤ i
      → Holds cells k xs
      → Holds (resolve i x cells) k xs
  Holds-resolve cells i k x [] h p = tt
  Holds-resolve cells i k x (y ∷ xs) h p =
      (ground arith, Holds-resolve cells i (suc k) x xs (omega arith) p.1)

  Holds-append :
      (cells : ℕ → Option (Item T)) (k i : ℕ) (x : Item T) (xs : List (Item T))
      → i ≡ k + length xs
      → Holds cells k xs
      → cells i ≡ some x
      → Holds cells k (xs ++ x ∷ [])
  Holds-append cells k i x [] e h p = let same : k ≡ i = omega arith in (rw same p, tt)
  Holds-append cells k i x (y ∷ xs) e h p =
      (h.0, Holds-append cells (suc k) i x xs (omega arith) h.1 p)

  -- A promise that is settled ignores its resolve callback.
  resolve_settled :
      (cells : ℕ → Option (Item T)) (i : ℕ) (x y : Item T)
      → cells i ≡ some y
      → resolve i x cells ≡ cells
  resolve_settled cells i x y e = fun_ext (λ j. ground arith)

  -- The promises that the consumer has not received: the settled ones, and the one in line.
  abbrev pub total : Channel T → ℕ
  total c = length c.waiting + (if c.is_open then 1 else 0)

  -- The state stands for the channel.
  pub record Represents (s : Later T) (c : Channel T) : Type ℓ where
    pub first : ℕ
    pub held : Holds s.cells first c.waiting
    pub counted : s.fresh ≡ first + total c
    pub line : suc s.next_in_line ≡ s.fresh
    pub queued : Queued first (total c) s.awaiting s.queue
    pub unused : (j : ℕ) → s.fresh ≤ j → s.cells j ≡ none
    pub pending : c.is_open ≡ true → s.cells s.next_in_line ≡ none
    pub settled : c.is_open ≡ false → (y : Item T) × (s.cells s.next_in_line ≡ some y)
    pub over : s.finished ≡ c.is_over

  pub Represents-iterate_later : Represents iterate_later empty
  unfolding iterate_later
  Represents-iterate_later = record {
    first = 0;
    held = tt;
    counted = omega arith;
    line = omega arith;
    queued = inl (refl, refl);
    unused = λ j h. refl;
    pending = λ h. refl;
    settled = λ h. cc;
    over = refl;
  }

  module _ {s : Later T} {c : Channel T} (r : Represents s c) where
    fresh_open : c.is_open ≡ true → s.fresh ≡ r.first + length c.waiting + 1
    fresh_open h = ground (arith, r.counted)

    fresh_shut : c.is_open ≡ false → s.fresh ≡ r.first + length c.waiting
    fresh_shut h = ground (arith, r.counted)

    -- The promise in line stands behind all that is waiting.
    in_line : c.is_open ≡ true → s.next_in_line ≡ r.first + length c.waiting
    in_line h = omega (arith, r.line, fresh_open h)

    length-send : (x : Item T) → length (c.waiting ++ x ∷ []) ≡ length c.waiting + 1
    length-send x = omega (arith, length-append c.waiting (x ∷ []))

    total_open : c.is_open ≡ true → total c ≡ length c.waiting + 1
    total_open h = rw h

    total_shut : c.is_open ≡ false → total c ≡ length c.waiting
    total_shut h = rw h (omega arith)

    unused_next : (x : Item T) (j : ℕ) → s.fresh ≤ j → resolve s.next_in_line x s.cells j ≡ none
    unused_next x j k = ground (arith, r.unused j, r.line)

    -- Settling the promise in line with `x`.
    Holds-sent :
        (x : Item T)
        → c.is_open ≡ true
        → Holds (resolve s.next_in_line x s.cells) r.first (c.waiting ++ x ∷ [])
    Holds-sent x h =
        Holds-append (resolve s.next_in_line x s.cells) r.first s.next_in_line x c.waiting
          (in_line h)
          (Holds-resolve s.cells s.next_in_line r.first x c.waiting (omega (arith, in_line h))
            r.held)
          (ground (arith, r.pending h))

    pub Represents-next : (x : Item T) → Represents (next x s) (send x c)
    unfolding next send
    Represents-next x = elim (Bool-cases c.is_open) [
      | inl h ↦ rw h (record {
        first = r.first;
        held = Holds-sent x h;
        counted = omega (arith, length-send x, fresh_open h);
        line = omega arith;
        queued =
            Queued-cons r.first (total c) _ s.fresh s.awaiting s.queue r.counted
              (omega (arith, length-send x, total_open h)) r.queued;
        unused = λ j k. unused_next x j (omega arith);
        pending = λ _. unused_next x s.fresh (omega arith);
        settled = λ k. cc;
        over = r.over;
      })
      | inr h ↦
          let (y, e) = r.settled h in
          rw (h, resolve_settled s.cells s.next_in_line x y e)
            (record {
              first = r.first;
              held = r.held;
              counted = omega (arith, fresh_shut h);
              line = omega arith;
              queued =
                  Queued-cons r.first (total c) _ s.fresh s.awaiting s.queue r.counted
                    (omega (arith, total_shut h)) r.queued;
              unused = λ j k. r.unused j (omega arith);
              pending = λ _. r.unused s.fresh (omega arith);
              settled = λ k. cc;
              over = r.over;
            })
    ]

    pub Represents-complete : Represents (complete s) (shut c)
    unfolding complete shut
    Represents-complete = elim (Bool-cases c.is_open) [
      | inl h ↦ rw h (record {
        first = r.first;
        held = Holds-sent completed h;
        counted = omega (arith, length-send completed, fresh_open h);
        line = r.line;
        queued =
            Queued-same r.first (total c) _ s.awaiting s.queue
              (omega (arith, length-send completed, total_open h)) r.queued;
        unused = λ j k. unused_next completed j k;
        pending = λ k. cc;
        settled = λ _. (completed, ground (arith, r.pending h));
        over = r.over;
      })
      | inr h ↦
          let (y, e) = r.settled h in
          rw (h, resolve_settled s.cells s.next_in_line completed y e)
            (record {
              first = r.first;
              held = r.held;
              counted = omega (arith, fresh_shut h);
              line = r.line;
              queued =
                  Queued-same r.first (total c) _ s.awaiting s.queue (omega (arith, total_shut h))
                    r.queued;
              unused = r.unused;
              pending = λ k. cc;
              settled = λ _. (y, e);
              over = r.over;
            })
    ]
