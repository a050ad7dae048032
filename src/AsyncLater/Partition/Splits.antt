-- ===== src/AsyncLater/Partition/Splits.antt =====
-- partition.ts: the first half is the values before the index, the second half is the others.
use fula_archived.Prelude.{
  ℕ, zero, suc, ◌+◌, ◌<◌, true, false, List, [], ◌∷◌, ◌++◌, map, length, take, drop, ◌≡◌, arith, ok,
  append-nil, append_assoc,
}
use mathlib.Core.List.{map-append}
use fula_archived.AsyncLater.Later.{value, Later, iterate_later, next, complete}
use fula_archived.AsyncLater.Later.Channel.{Channel, send, shut}
use fula_archived.AsyncLater.Later.Invariant.{
  Represents, Represents-iterate_later, Represents-next, Represents-complete,
}
use fula_archived.AsyncLater.Later.Delivery.{collect, closed, collect-closed}
use fula_archived.AsyncLater.Partition.{Halves, deal, deal_all, partition}

module _ {ℓ} {T : Type ℓ} where
  abbrev pub open_with : List T → Channel T
  open_with vs = record { waiting = map value vs; is_open = true; is_over = false }

  pub Represents-push :
      (s : Later T) (vs : List T) (v : T)
      → Represents s (open_with vs)
      → Represents (next (value v) s) (open_with (vs ++ v ∷ []))
  unfolding send
  Represents-push s vs v r = simp map-append (Represents-next r (value v))

  pub Represents-close :
      (s : Later T) (vs : List T)
      → Represents s (open_with vs)
      → Represents (complete s) (closed vs)
  unfolding shut
  Represents-close s vs r = Represents-complete r

  -- Completing again changes nothing.
  Represents-close_again :
      (s : Later T) (vs : List T) → Represents s (closed vs) → Represents (complete s) (closed vs)
  unfolding shut
  Represents-close_again s vs r = Represents-complete r

  module _ (index : ℕ) where
    deal_before :
        (v : T) (h : Halves T)
        → h.current < index
        → deal index v h ≡ record h { current = suc h.current; first = next (value v) h.first }
    unfolding deal
    deal_before v h lt = ground arith

    deal_at :
        (v : T) (h : Halves T)
        → h.current ≡ index
        → deal index v h ≡ record {
          current = suc h.current;
          first = complete h.first;
          second = next (value v) h.second;
        }
    unfolding deal
    deal_at v h e = ground arith

    deal_after :
        (v : T) (h : Halves T)
        → index < h.current
        → deal index v h ≡ record h { current = suc h.current; second = next (value v) h.second }
    unfolding deal
    deal_after v h lt = ground arith

    -- What the two iterables stand for when all is dealt.
    abbrev Splits : Halves T → List T → List T → Type ℓ
    Splits h xs ys = Represents h.first (closed xs) × Represents h.second (closed ys)

    deal_rest :
        (vs : List T) (h : Halves T) (xs ys : List T)
        → index < h.current
        → Represents h.first (closed xs)
        → Represents h.second (open_with ys)
        → Splits (deal_all index vs h) xs (ys ++ vs)
    unfolding deal_all
    deal_rest [] h xs ys lt r q =
        (Represents-close_again h.first xs r, rw append-nil (Represents-close h.second ys q))
    deal_rest (v ∷ vs) h xs ys lt r q =
        rw (deal_after v h lt, deal_all)
          (simp append_assoc at (
            deal_rest vs (record h { current = suc h.current; second = next (value v) h.second }) xs
              (ys ++ v ∷ []) (omega arith) r (Represents-push h.second ys v q)))

    deal_split :
        (k : ℕ) (vs : List T) (h : Halves T) (xs : List T)
        → index ≡ h.current + k
        → Represents h.first (open_with xs)
        → Represents h.second (open_with [])
        → Splits (deal_all index vs h) (xs ++ take k vs) (drop k vs)
    unfolding deal_all
    deal_split zero [] h xs e r q =
        (rw append-nil (Represents-close h.first xs r), Represents-close h.second [] q)
    deal_split (suc k) [] h xs e r q =
        (rw append-nil (Represents-close h.first xs r), Represents-close h.second [] q)
    deal_split zero (v ∷ vs) h xs e r q =
        rw (deal_at v h (omega arith), append-nil, deal_all)
          (deal_rest vs _ xs (v ∷ []) (omega arith) (Represents-close h.first xs r)
            (Represents-push h.second [] v q))
    deal_split (suc k) (v ∷ vs) h xs e r q =
        rw (deal_before v h (omega arith), deal_all)
          (simp append_assoc at (
            deal_split k vs (record h { current = suc h.current; first = next (value v) h.first })
              (xs ++ v ∷ []) (omega arith) (Represents-push h.first xs v r) q))

  -- Reading the two iterables of `partition` to their ends gives the values before the index and
  -- those from the index on, for enough rounds of the readers' loops.
  pub partition_split :
      (index fuel : ℕ) (vs : List T)
      → length (take index vs) < fuel
      → length (drop index vs) < fuel
      → (collect fuel (partition index vs).first ≡ ok (take index vs))
        × (collect fuel (partition index vs).second ≡ ok (drop index vs))
  unfolding partition
  partition_split index fuel vs h k =
      let (r, q) =
        deal_split index index vs
          (record { current = 0; first = iterate_later; second = iterate_later }) [] (omega arith)
          Represents-iterate_later Represents-iterate_later in
      (collect-closed (take index vs) fuel _ r h, collect-closed (drop index vs) fuel _ q k)
