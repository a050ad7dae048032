-- ===== src/FulaClient/Peers.antt =====
-- index.ts of libraries/fula-client: `connect`, on an array of peers or on a text of them.
use fula_archived.Prelude.{
  ℕ, Bool, true, false, ◌&&◌, ◌||◌, List, [], ◌∷◌, ◌++◌, is_empty, Text, All, ◌≡◌, refl, ap, ◌∙◌,
  Result, ◌==◌, leb, if◌then◌else◌,
}
use fula_archived.FulaClient.{FulaConnection}
use fula_archived.FulaClient.Streams.{Libp2p, connect}

-- The white space and the line ends of the language.
unfoldable pub is_space : ℕ → Bool
is_space c =
    (leb 9 c && leb c 13)
    || (c == 32
        || (c == 160
            || (c == 5760
                || ((leb 8192 c && leb c 8202)
                    || (c == 8232
                        || (c == 8233
                            || (c == 8239 || (c == 8287 || (c == 12288 || c == 65279)))))))))

-- `trim()`, from the front and from the end.
unfoldable pub trim_start : Text → Text
trim_start [] = []
trim_start (c ∷ s) = let rest = trim_start s in if is_space c then rest else c ∷ s

unfoldable pub trim_end : Text → Text
trim_end [] = []
trim_end (c ∷ s) = let rest = trim_end s in if is_empty rest && is_space c then [] else c ∷ rest

abbrev pub comma : ℕ
comma = 44

abbrev pub onto_first : ℕ → List Text → List Text
onto_first c [] = (c ∷ []) ∷ []
onto_first c (s ∷ ss) = (c ∷ s) ∷ ss

-- `split(',')`
unfoldable pub split_commas : Text → List Text
split_commas [] = [] ∷ []
split_commas (c ∷ s) =
    let rest = split_commas s in if c == comma then [] ∷ rest else onto_first c rest

-- `string[] | string`
pub data Peers : Type 0 where
  listed : List Text → Peers
  written : Text → Peers

unfoldable pub connect_peers : Libp2p → Peers → Result FulaConnection
unfolding split_commas trim_start trim_end
connect_peers p (listed ids) = connect p ids
connect_peers p (written s) = connect p (split_commas (trim_end (trim_start s)))

-- Ids with commas in between.
abbrev pub joined : Text → List Text → Text
joined i [] = i
joined i (k ∷ is) = i ++ comma ∷ joined k is

abbrev pub IsPlain : Text → Type 0
IsPlain = All (λ c. (is_space c ≡ false) × ((c == comma) ≡ false))

abbrev NoSpace : Text → Type 0
NoSpace = All (λ c. is_space c ≡ false)

NoSpace-IsPlain : (i : Text) → IsPlain i → NoSpace i
NoSpace-IsPlain [] v = tt
NoSpace-IsPlain (c ∷ i) (v, vs) = (v.0, NoSpace-IsPlain i vs)

NoSpace-append : (i s : Text) → NoSpace i → NoSpace s → NoSpace (i ++ s)
NoSpace-append [] s v x = x
NoSpace-append (c ∷ i) s (v, vs) x = (v, NoSpace-append i s vs x)

NoSpace-joined : (i : Text) (is : List Text) → IsPlain i → All IsPlain is → NoSpace (joined i is)
unfolding is_space
NoSpace-joined i [] v vs = NoSpace-IsPlain i v
NoSpace-joined i (k ∷ is) v (v2, vs) =
    NoSpace-append i (comma ∷ joined k is) (NoSpace-IsPlain i v) (refl, NoSpace-joined k is v2 vs)

trim_start-NoSpace : (s : Text) → NoSpace s → trim_start s ≡ s
unfolding trim_start
trim_start-NoSpace [] v = refl
trim_start-NoSpace (c ∷ s) (v, vs) = rw v refl

and_false : (a b : Bool) → b ≡ false → (a && b) ≡ false
and_false true b e = e
and_false false b e = refl

trim_end-NoSpace : (s : Text) → NoSpace s → trim_end s ≡ s
unfolding trim_end
trim_end-NoSpace [] v = refl
trim_end-NoSpace (c ∷ s) (v, vs) =
    rw (and_false (is_empty (trim_end s)) (is_space c) v) (ap (λ r. c ∷ r) (trim_end-NoSpace s vs))

split_commas-plain : (i : Text) → IsPlain i → split_commas i ≡ i ∷ []
unfolding split_commas
split_commas-plain [] v = refl
split_commas-plain (c ∷ i) (v, vs) = rw (v.1, split_commas-plain i vs) refl

split_commas-append : (i s : Text) → IsPlain i → split_commas (i ++ comma ∷ s) ≡ i ∷ split_commas s
unfolding split_commas
split_commas-append [] s v = refl
split_commas-append (c ∷ i) s (v, vs) = rw (v.1, split_commas-append i s vs) refl

split_commas-joined :
    (i : Text) (is : List Text) → IsPlain i → All IsPlain is → split_commas (joined i is) ≡ i ∷ is
split_commas-joined i [] v vs = split_commas-plain i v
split_commas-joined i (k ∷ is) v (v2, vs) =
    split_commas-append i (joined k is) v ∙ ap (λ r. i ∷ r) (split_commas-joined k is v2 vs)

-- `connect` does with a text of one id or more, written with commas in between, what it does with the
-- array of these ids, when no id has a comma or white space in it.
pub connect_peers-joined :
    (p : Libp2p) (i : Text) (is : List Text)
    → IsPlain i
    → All IsPlain is
    → connect_peers p (written (joined i is)) ≡ connect_peers p (listed (i ∷ is))
unfolding connect_peers
connect_peers-joined p i is v vs =
    ap (λ s. connect p (split_commas (trim_end s)))
      (trim_start-NoSpace (joined i is) (NoSpace-joined i is v vs))
    ∙ ap (λ s. connect p (split_commas s))
        (trim_end-NoSpace (joined i is) (NoSpace-joined i is v vs))
    ∙ ap (connect p) (split_commas-joined i is v vs)
