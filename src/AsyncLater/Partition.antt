-- ===== src/AsyncLater/Partition.antt =====
-- libraries/async-later/src/partition.ts: one iterable, split at an index into two that arrive later.
pub mod Splits
use fula_archived.Prelude.{ℕ, suc, List, [], ◌∷◌, ◌==◌, ltb, if◌then◌else◌}
use fula_archived.AsyncLater.Later.{Later, value, iterate_later, next, complete}

-- The two iterables, and the count of the values seen.
pub record Halves {ℓ} (T : Type ℓ) : Type ℓ where
  pub current : ℕ
  pub first : Later T
  pub second : Later T

module _ {ℓ} {T : Type ℓ} (index : ℕ) where
  abbrev pub complete_at_index : Halves T → Halves T
  complete_at_index h = if h.current == index then record h { first = complete h.first } else h

  -- One round of the `for await` loop.
  unfoldable pub deal : T → Halves T → Halves T
  deal v h =
      let g = complete_at_index h in
      let dealt =
        if ltb g.current index
        then record g { first = next (value v) g.first }
        else record g { second = next (value v) g.second } in
      record dealt { current = suc dealt.current }

  unfoldable pub deal_all : List T → Halves T → Halves T
  deal_all [] h = record h { first = complete h.first; second = complete h.second }
  deal_all (v ∷ vs) h = deal_all vs (deal v h)

  -- `partition`, when the iterable has given `vs` and has ended.
  unfoldable pub partition : List T → Halves T
  partition vs = deal_all vs (record { current = 0; first = iterate_later; second = iterate_later })
