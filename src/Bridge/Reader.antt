-- ===== src/Bridge/Reader.antt =====
-- libraries/rn-fula/src/rn-client/utils.ts: `fileReader2`, `getFileName` and `generateUUID`.
use fula_archived.Prelude.{
  ℕ, zero, suc, ◌+◌, ◌-◌, ◌≤◌, ◌<◌, false, List, [], ◌∷◌, ◌++◌, length, take, drop, concat,
  get_elem?, Option, none, some, Text, All, ◌≡◌, refl, sym, ap, ◌∙◌, arith, Result, ok, stuck,
  ◌>>=◌, ltb, leb, ◌==◌, if◌then◌else◌, Bool-cases, inl, inr, ltb→lt, drop_all, length-take,
  take-append-drop,
}
use fula_archived.FulaClient.Files.{Random}

-- `content.slice(from, to)` of a string.
abbrev pub slice_text : Text → ℕ → ℕ → Text
slice_text s from to = take (to - from) (drop from s)

-- The loop of `fileReader2` from `byteStart` and `byteEnd` on.
unfoldable pub read_slices : Text → ℕ → ℕ → ℕ → ℕ → Result (List Text)
read_slices content amount zero start stop = stuck
read_slices content amount (suc fuel) start stop =
    let rest =
      read_slices content amount fuel stop
        (if leb (length content) (stop + amount) then length content else stop + amount) in
    let more = (do ss ← rest; ok (slice_text content start stop ∷ ss)) in
    if ltb start (length content) then more else ok []

-- `fileReader2` behind its first value, on the file's base64; a round takes a unit or more.
unfoldable pub file_slices : Text → ℕ → Result (List Text)
unfolding read_slices
file_slices content amount = read_slices content amount (length content + 1) 0 amount

-- The part behind the last of some separators: `split(sep).pop()`.
unfoldable pub behind_last : ℕ → Text → Text → Text
behind_last sep part [] = part
behind_last sep part (c ∷ s) = behind_last sep (if c == sep then [] else part ++ c ∷ []) s

-- `getFileName(str)`
unfoldable pub get_file_name : Text → Text
unfolding behind_last
get_file_name s = behind_last b'/' [] (behind_last 92 [] s)

-- The 60 letters and digits of `generateUUID`.
abbrev pub uuid_alphabet : Text
uuid_alphabet =
    48 ∷ 49 ∷ 50 ∷ 51 ∷ 52 ∷ 53 ∷ 54 ∷ 55 ∷ 56 ∷ 57 ∷ 97 ∷ 98 ∷ 99 ∷ 100 ∷ 101 ∷ 102 ∷ 103 ∷ 104
    ∷ 105 ∷ 106 ∷ 107 ∷ 108 ∷ 109 ∷ 110 ∷ 111 ∷ 112 ∷ 113 ∷ 114 ∷ 115 ∷ 116 ∷ 117 ∷ 118 ∷ 119 ∷ 120
    ∷ 121 ∷ 122 ∷ 65 ∷ 66 ∷ 67 ∷ 68 ∷ 69 ∷ 70 ∷ 71 ∷ 72 ∷ 73 ∷ 74 ∷ 75 ∷ 76 ∷ 77 ∷ 78 ∷ 79 ∷ 80 ∷ 81
    ∷ 82 ∷ 83 ∷ 84 ∷ 85 ∷ 86 ∷ 88 ∷ 90 ∷ []

abbrev pub unit_at : Option ℕ → Text
unit_at none = []
unit_at (some c) = c ∷ []

-- `generateUUID(digits)`, from the draws of `Math.random`; what is out of the text adds nothing.
unfoldable pub generate_uuid : (r : Random) → (ℕ → r.Draw) → ℕ → Text
generate_uuid r draws zero = []
generate_uuid r draws (suc digits) =
    unit_at (get_elem? uuid_alphabet (r.floor_times (draws 0) (length uuid_alphabet)))
    ++ generate_uuid r (λ i. draws (suc i)) digits

get_elem?-lt : (s : Text) (i : ℕ) → i < length s → (c : ℕ) × (get_elem? s i ≡ some c)
get_elem?-lt [] i h = absurd (omega arith)
get_elem?-lt (c ∷ s) zero h = (c, refl)
get_elem?-lt (c ∷ s) (suc i) h = get_elem?-lt s i (omega arith)

-- An id that `generateUUID` makes has as many characters as it was asked for.
pub length-generate_uuid :
    (r : Random) (draws : ℕ → r.Draw) (digits : ℕ) → length (generate_uuid r draws digits) ≡ digits
unfolding generate_uuid
length-generate_uuid r draws zero = refl
length-generate_uuid r draws (suc digits) =
    let (c, e) =
      get_elem?-lt uuid_alphabet (r.floor_times (draws 0) 60)
        (r.in_range (draws 0) 60 (omega arith)) in
    rw e (ap suc (length-generate_uuid r (λ i. draws (suc i)) digits))

-- A text without a separator.
abbrev pub Without : ℕ → Text → Type 0
Without sep = All (λ c. (c == sep) ≡ false)

Without-append :
    (sep c : ℕ) (s : Text) → Without sep s → (c == sep) ≡ false → Without sep (s ++ c ∷ [])
Without-append sep c [] v e = (e, tt)
Without-append sep c (d ∷ s) (v, vs) e = (v, Without-append sep c s vs e)

behind_last-Without :
    (sep : ℕ) (part s : Text) → Without sep part → Without sep (behind_last sep part s)
unfolding behind_last
behind_last-Without sep part [] v = v
behind_last-Without sep part (c ∷ s) v = elim (Bool-cases (c == sep)) [
  | inl e ↦ rw e (behind_last-Without sep [] s tt)
  | inr e ↦ rw e (behind_last-Without sep (part ++ c ∷ []) s (Without-append sep c part v e))
]

-- What is kept of a part that has none of another separator has none of it either.
behind_last-other :
    (sep other : ℕ) (part s : Text)
    → Without other part
    → Without other s
    → Without other (behind_last sep part s)
unfolding behind_last
behind_last-other sep other part [] v w = v
behind_last-other sep other part (c ∷ s) v (w, ws) = elim (Bool-cases (c == sep)) [
  | inl e ↦ rw e (behind_last-other sep other [] s tt ws)
  | inr e ↦
      rw e (behind_last-other sep other (part ++ c ∷ []) s (Without-append other c part v w) ws)
]

-- The name that `getFileName` takes from a path has neither a slash nor a backslash in it.
pub get_file_name-Without : (s : Text) → Without 47 (get_file_name s) × Without 92 (get_file_name s)
unfolding get_file_name
get_file_name-Without s = (
  behind_last-Without 47 [] (behind_last 92 [] s) tt,
  behind_last-other 47 92 [] (behind_last 92 [] s) tt (behind_last-Without 92 [] s tt),
)

drop-drop : (m n k : ℕ) (s : Text) → k ≡ m + n → drop n (drop m s) ≡ drop k s
drop-drop zero n k s e = ap (λ j. drop j s) (omega (arith, e))
drop-drop (suc m) zero k [] e = let f : k ≡ suc m = omega (arith, e) in rw f refl
drop-drop (suc m) (suc n) k [] e = let f : k ≡ suc (m + suc n) = omega (arith, e) in rw f refl
drop-drop (suc m) n zero (c ∷ s) e = absurd (omega (arith, e))
drop-drop (suc m) n (suc k) (c ∷ s) e = drop-drop m n k s (omega (arith, e))

past : (a b : ℕ) → ltb a b ≡ false → b ≤ a
past a b h = ground arith

module _ (content : Text) (amount : ℕ) (positive : 0 < amount) where
  -- Slices that are whole from a place on, and not too long.
  abbrev Slices : ℕ → Result (List Text) → Type 0
  Slices start r =
      (ss : List Text) × (r ≡ ok ss)
      × (concat ss ≡ drop start content)
      × All (λ s. length s ≤ amount) ss

  abbrev next_stop : ℕ → ℕ
  next_stop stop = if leb (length content) (stop + amount) then length content else stop + amount

  next_stop_bounds :
      (stop : ℕ)
      → (stop < length content → stop < next_stop stop) × (next_stop stop ≤ stop + amount)
  next_stop_bounds stop = ground arith

  one_slice :
      (start stop : ℕ) (r : Result (List Text))
      → start < stop
      → stop ≤ start + amount
      → Slices stop r
      → Slices start (do ss ← r; ok (slice_text content start stop ∷ ss))
  one_slice start stop r h k (ss, e, whole, small) = (
    slice_text content start stop ∷ ss,
    rw e refl,
    rw whole (
        ap (λ t. slice_text content start stop ++ t)
          (sym (drop-drop start (stop - start) stop content (omega arith)))
        ∙ take-append-drop (stop - start) (drop start content)),
    (omega (arith, length-take (stop - start) (drop start content)), small),
  )

  read_slices-Slices :
      (fuel start stop : ℕ)
      → 0 < fuel
      → length content < fuel + start
      → (start < length content → start < stop)
      → stop ≤ start + amount
      → Slices start (read_slices content amount fuel start stop)
  unfolding read_slices
  read_slices-Slices zero start stop z f h k = absurd (omega arith)
  read_slices-Slices (suc fuel) start stop z f h k =
      elim (Bool-cases (ltb start (length content))) [
        | inl e ↦
            (let less = ltb→lt start (length content) e in
              let (grows, near) = next_stop_bounds stop in
              rw e (
                one_slice start stop _ (h less) k (
                  read_slices-Slices fuel stop (next_stop stop) (omega (arith, less))
                    (omega (arith, h less)) grows near)))
        | inr e ↦ rw e ([], refl, sym (drop_all start content (past start (length content) e)), tt)
      ]

  -- `fileReader2` ends on every file when it is asked for slices of one character or more: the slices
  -- that it yields, joined, are the file's content, and none is longer than asked for.
  pub file_slices-Slices :
      (ss : List Text) × (file_slices content amount ≡ ok ss)
      × (concat ss ≡ content)
      × All (λ s. length s ≤ amount) ss
  unfolding file_slices
  file_slices-Slices =
      read_slices-Slices (length content + 1) 0 amount (omega arith) (omega arith) (λ h. positive)
        (omega arith)
