-- ===== src/AsyncLater/Later/Rounds.antt =====
-- iterate-later.ts: the loop of the generator, round by round, against the channel.
use fula_archived.Prelude.{
  ℕ, zero, suc, ◌+◌, ◌*◌, ◌≤◌, Bool, true, false, none, some, List, [], ◌∷◌, length, ◌≡◌, refl, inl,
  inr, arith, ap, Error,
}
use fula_archived.AsyncLater.Later.{
  Item, value, rejected, completed, Poll, yielded, thrown, blocked, ended, Later, pop, advance,
  poll,
}
use fula_archived.AsyncLater.Later.Channel.{Channel, receive_from, receive}
use fula_archived.AsyncLater.Later.Invariant.{down, pop-down, length-down, total, Represents}

pop_queued :
    (first n : ℕ) (queue : List ℕ)
    → queue ≡ down first (suc n)
    → pop queue ≡ some (first, down (suc first) n)
pop_queued first n queue e = rw e (pop-down first n)

-- One round of the generator's loop, on each of its branches.
module _ {ℓ} {T : Type ℓ} (fuel : ℕ) (s : Later T) where
  advance_blocked :
      (i : ℕ) → s.awaiting ≡ some i → s.cells i ≡ none → advance (suc fuel) s ≡ (s, blocked)
  unfolding advance
  advance_blocked i a e = ground arith

  advance_value :
      (i : ℕ) (v : T)
      → s.awaiting ≡ some i
      → s.cells i ≡ some (value v)
      → advance (suc fuel) s ≡ (record s { awaiting = none }, yielded v)
  unfolding advance
  advance_value i v a e = ground arith

  advance_rejected :
      (i : ℕ) (x : Error)
      → s.awaiting ≡ some i
      → s.cells i ≡ some (rejected x)
      → advance (suc fuel) s ≡ (record s { awaiting = none; finished = true }, thrown x)
  unfolding advance
  advance_rejected i x a e = ground arith

  advance_completed :
      (i : ℕ)
      → s.awaiting ≡ some i
      → s.cells i ≡ some completed
      → advance (suc fuel) s ≡ advance fuel (record s { awaiting = none })
  unfolding advance
  advance_completed i a e = ground arith

  advance-pop :
      (i : ℕ) (q : List ℕ)
      → s.awaiting ≡ none
      → pop s.queue ≡ some (i, q)
      → advance (suc fuel) s ≡ advance fuel (record s { queue = q; awaiting = some i })
  unfolding advance
  advance-pop i q a e = ground arith

  advance_ended :
      s.awaiting ≡ none
      → s.queue ≡ []
      → advance (suc fuel) s ≡ (record s { finished = true }, ended)
  unfolding advance pop
  advance_ended a e = ground arith

module _ {ℓ} {T : Type ℓ} (s : Later T) where
  poll_over : s.finished ≡ true → poll s ≡ (s, ended)
  unfolding poll
  poll_over h = ground arith

  poll_live : s.finished ≡ false → poll s ≡ advance (2 * length s.queue + 4) s
  unfolding poll
  poll_live h = ground arith

module _ {ℓ} {T : Type ℓ} where
  -- The state and the answer of a poll, against those of the channel.
  abbrev pub Answers : Later T × Poll T → Channel T × Poll T → Type ℓ
  Answers (s, p) (c, q) = Represents s c × (p ≡ q)

  abbrev channel : List (Item T) → Bool → Bool → Channel T
  channel xs is_open is_over = record { waiting = xs; is_open = is_open; is_over = is_over }

  -- The promise that the generator waits for is received.
  Represents-received :
      (s : Later T) (x : Item T) (xs : List (Item T)) (is_open over over' : Bool) (m : ℕ)
      (fin : Bool) (r : Represents s (channel (x ∷ xs) is_open over))
      → total (channel (x ∷ xs) is_open over) ≡ suc m
      → s.queue ≡ down (suc r.first) m
      → fin ≡ over'
      → Represents (record s { awaiting = none; finished = fin }) (channel xs is_open over')
  Represents-received s x xs is_open over over' m fin r t q e = record {
    first = suc r.first;
    held = r.held.1;
    counted = omega (arith, r.counted);
    line = r.line;
    queued = let left : total (channel xs is_open over') ≡ m = omega arith in inl (refl, rw left q);
    unused = r.unused;
    pending = r.pending;
    settled = r.settled;
    over = e;
  }

  abbrev Awaits : List (Item T) → Bool → Type ℓ
  Awaits xs is_open =
      (fuel : ℕ) (s : Later T) (m : ℕ) (r : Represents s (channel xs is_open false))
      → total (channel xs is_open false) ≡ suc m
      → s.awaiting ≡ some r.first
      → s.queue ≡ down (suc r.first) m
      → 2 * length xs + 2 ≤ fuel
      → Answers (advance fuel s) (receive_from is_open xs)

  -- Nothing is awaited: the generator pops the oldest promise, or ends on an empty queue.
  advance_idle :
      (xs : List (Item T)) (is_open : Bool)
      → Awaits xs is_open
      → (n fuel : ℕ) (s : Later T) (r : Represents s (channel xs is_open false))
      → total (channel xs is_open false) ≡ n
      → s.awaiting ≡ none
      → s.queue ≡ down r.first n
      → 2 * length xs + 3 ≤ fuel
      → Answers (advance fuel s) (receive_from is_open xs)
  advance_idle xs is_open awaits n zero s r t a q f = absurd (omega arith)
  advance_idle [] true awaits zero (suc fuel) s r t a q f = absurd (omega arith)
  advance_idle (x ∷ xs) is_open awaits zero (suc fuel) s r t a q f = absurd (omega arith)
  advance_idle [] false awaits zero (suc fuel) s r t a q f = rw (advance_ended fuel s a q) (
      unfold receive_from in
      (
        record {
          first = r.first;
          held = r.held;
          counted = r.counted;
          line = r.line;
          queued = r.queued;
          unused = r.unused;
          pending = r.pending;
          settled = r.settled;
          over = refl;
        },
        refl,
      ))
  advance_idle xs is_open awaits (suc m) (suc fuel) s r t a q f =
      rw (advance-pop fuel s r.first (down (suc r.first) m) a (pop_queued r.first m s.queue q)) (
        awaits fuel (record s { queue = down (suc r.first) m; awaiting = some r.first }) m
          (record {
            first = r.first;
            held = r.held;
            counted = r.counted;
            line = r.line;
            queued = inr (m, t, refl, refl);
            unused = r.unused;
            pending = r.pending;
            settled = r.settled;
            over = r.over;
          })
          t refl refl (omega arith))

  -- The marker is passed over.
  skip_marker :
      (xs : List (Item T)) (is_open : Bool)
      → Awaits xs is_open
      → (fuel : ℕ) (s : Later T) (m : ℕ) (r : Represents s (channel (completed ∷ xs) is_open false))
      → total (channel (completed ∷ xs) is_open false) ≡ suc m
      → s.awaiting ≡ some r.first
      → s.queue ≡ down (suc r.first) m
      → 2 * length (completed ∷ xs) + 2 ≤ suc fuel
      → Answers (advance (suc fuel) s) (receive_from is_open (completed ∷ xs))
  unfolding receive_from Represents-received
  skip_marker xs is_open awaits fuel s m r t a q f =
      rw (advance_completed fuel s r.first a r.held.0) (
        advance_idle xs is_open awaits m fuel (record s { awaiting = none })
          (Represents-received s completed xs is_open false false m s.finished r t q r.over)
          (omega arith) refl q (omega arith))

  advance_awaiting : (xs : List (Item T)) (is_open : Bool) → Awaits xs is_open
  advance_awaiting xs is_open zero s m r t a q f = absurd (omega arith)
  advance_awaiting [] false (suc fuel) s m r t a q f = absurd (omega arith)
  advance_awaiting [] true (suc fuel) s m r t a q f =
      let same : s.next_in_line ≡ r.first = omega (arith, r.line, r.counted) in
      rw (advance_blocked fuel s r.first a (rw same at (r.pending refl)))
        (unfold receive_from in (r, refl))
  advance_awaiting (value v ∷ xs) is_open (suc fuel) s m r t a q f =
      rw (advance_value fuel s r.first v a r.held.0) (
        unfold receive_from in
        (Represents-received s (value v) xs is_open false false m s.finished r t q r.over, refl))
  advance_awaiting (rejected e ∷ xs) is_open (suc fuel) s m r t a q f =
      rw (advance_rejected fuel s r.first e a r.held.0) (
        unfold receive_from in
        (Represents-received s (rejected e) xs is_open false true m true r t q refl, refl))
  advance_awaiting (completed ∷ xs) is_open (suc fuel) s m r t a q f =
      skip_marker xs is_open (advance_awaiting xs is_open) fuel s m r t a q f

  Answers-poll :
      (s : Later T) (xs : List (Item T)) (is_open is_over : Bool)
      → Represents s (channel xs is_open is_over)
      → Answers (poll s) (receive (channel xs is_open is_over))
  unfolding receive
  Answers-poll s xs is_open true r = rw (poll_over s r.over) (r, refl)
  Answers-poll s xs is_open false r = rw (poll_live s r.over) (elim r.queued [
    | inl (a, q) ↦
        advance_idle xs is_open (advance_awaiting xs is_open) _ _ s r refl a q
          (omega (arith, ap length q, length-down r.first (total (channel xs is_open false))))
    | inr (m, t, a, q) ↦
        advance_awaiting xs is_open _ s m r t a q
          (omega (arith, ap length q, length-down (suc r.first) m))
  ])

  -- A poll gives what the channel gives, and the states stay in step.
  pub Represents-poll :
      (s : Later T) (c : Channel T) → Represents s c → Answers (poll s) (receive c)
  Represents-poll s c r = Answers-poll s c.waiting c.is_open c.is_over r
