-- ===== src/BoxGraph/Collections/Opened.antt =====
-- apps/box/src/graph/index.ts: which stores the box opens, and how often.
use fula_archived.Prelude.{
  ℕ, ◌+◌, Bool, true, false, ◌||◌, Option, none, some, List, [], ◌∷◌, ◌++◌, length, length-append,
  Text, text_eq, text_eq_refl, ◌≡◌, refl, ap, ◌∙◌, runtime, ◌⊎◌, ok, err, ◌==◌, inl, inr,
  Option-cases, Bool-cases, arith, subst,
}
use fula_archived.BoxGraph.Collections.{
  Shared, array_above_zero, find, put, names, open_db, finish_load, load_db, load_all,
}

-- Is a name among some?
abbrev pub is_among : Text → List Text → Bool
is_among name [] = false
is_among name (k ∷ r) = text_eq k name || is_among name r

-- No name stands twice.
abbrev pub Distinct : List Text → Type 0
Distinct [] = Unit {0}
Distinct (k ∷ r) = (is_among k r ≡ false) × Distinct r

test_sym : (a b : ℕ) → (a == b) ≡ (b == a)
test_sym a b = ground arith

text_eq_sym : (s t : Text) → text_eq s t ≡ text_eq t s
text_eq_sym [] [] = refl
text_eq_sym [] (y ∷ t) = refl
text_eq_sym (x ∷ s) [] = refl
text_eq_sym (x ∷ s) (y ∷ t) = rw (test_sym x y, text_eq_sym s t) refl

or_false_both : (a b : Bool) → a ≡ false → b ≡ false → (a || b) ≡ false
or_false_both true b e f = e
or_false_both false b e f = f

or_left : (a b : Bool) → (a || b) ≡ false → a ≡ false
or_left true b h = h
or_left false b h = refl

or_right : (a b : Bool) → (a || b) ≡ false → b ≡ false
or_right true b h = cc
or_right false b h = h

is_among_append :
    (name k : Text) (r : List Text)
    → is_among name r ≡ false
    → text_eq k name ≡ false
    → is_among name (r ++ k ∷ []) ≡ false
is_among_append name k [] e f = or_false_both (text_eq k name) false f refl
is_among_append name k (x ∷ r) e f =
    or_false_both (text_eq x name) (is_among name (r ++ k ∷ [])) (or_left _ _ e)
      (is_among_append name k r (or_right _ _ e) f)

Distinct-append :
    (k : Text) (r : List Text) → Distinct r → is_among k r ≡ false → Distinct (r ++ k ∷ [])
Distinct-append k [] d e = (refl, tt)
Distinct-append k (x ∷ r) (new, d) e = (
  is_among_append x k r new (text_eq_sym k x ∙ or_left _ _ e),
  Distinct-append k r d (or_right _ _ e),
)

module _ {Db : Type 0} where
  -- The box has asked for each of its collections once, and for nothing else.
  pub record IsOnce (s : Shared Db) : Type 0 where
    pub all_listed : names s.collections ≡ s.asked
    pub distinct : Distinct s.asked

  find-none :
      (name : Text) (r : List (Text × Db)) → find name r ≡ none → is_among name (names r) ≡ false
  unfolding find
  find-none name [] e = refl
  find-none name ((k, db) ∷ r) e = elim (Bool-cases (text_eq k name)) [
    | inl h ↦ (let bad : some db ≡ none = rw h at e in cc)
    | inr h ↦ rw h (find-none name r (rw h at e))
  ]

  put_new :
      (name : Text) (db : Db) (r : List (Text × Db))
      → is_among name (names r) ≡ false
      → names (put name db r) ≡ names r ++ name ∷ []
  unfolding put
  put_new name db [] e = refl
  put_new name db ((k, old) ∷ r) e = elim (Bool-cases (text_eq k name)) [
    | inl h ↦ (let bad : true ≡ false = rw h at e in cc)
    | inr h ↦ rw h (ap (λ q. k ∷ q) (put_new name db r (rw h at e)))
  ]

  module _ (docs : Text → ℕ → Option Db) {Peer : Type 0} (peers : List Peer)
      (literal : Text → Bool) where
    never_above : {A : Type 0} (xs : List A) → array_above_zero literal xs ≡ false
    unfolding array_above_zero
    never_above [] = refl
    never_above (x ∷ []) = refl
    never_above (x ∷ y ∷ xs) = refl

    abbrev pub opened_as : Text → Db → Shared Db → Shared Db
    opened_as name db s = record s {
      collections = put name db s.collections;
      asked = s.asked ++ name ∷ [];
    }

    finish_load-some :
        (name : Text) (s : Shared Db) (db : Db)
        → docs name (length s.asked) ≡ some db
        → finish_load docs peers literal name s ≡ ok (db, opened_as name db s)
    unfolding finish_load open_db
    finish_load-some name s db e = rw (e, never_above peers) refl

    finish_load-none :
        (name : Text) (s : Shared Db)
        → docs name (length s.asked) ≡ none
        → finish_load docs peers literal name s ≡ err runtime
    unfolding finish_load open_db
    finish_load-none name s e = rw e refl

    opened_as-IsOnce :
        (name : Text) (db : Db) (s : Shared Db)
        → find name s.collections ≡ none
        → IsOnce s
        → IsOnce (opened_as name db s)
    opened_as-IsOnce name db s e v =
        let new = find-none name s.collections e in
        record {
          all_listed = put_new name db s.collections new ∙ ap (λ r. r ++ name ∷ []) v.all_listed;
          distinct = Distinct-append name s.asked v.distinct (rw v.all_listed at new);
        }

    -- What a call of `loadDB` may leave.
    abbrev Kept : Shared Db → Shared Db → Type 0
    Kept s s' = IsOnce s' × (s'.published ≡ s.published)

    load_db-Kept :
        (name : Text) (s : Shared Db)
        → IsOnce s
        → ((db : Db) × (s' : Shared Db) × (load_db docs peers literal name s ≡ ok (db, s'))
            × Kept s s')
          ⊎ (load_db docs peers literal name s ≡ err runtime)
    unfolding load_db
    load_db-Kept name s v = elim (Option-cases (find name s.collections)) [
      | inr (db, e) ↦ inl (db, s, rw (e, load_db) refl, (v, refl))
      | inl e ↦ elim (Option-cases (docs name (length s.asked))) [
        | inl f ↦ inr (rw (e, load_db) (finish_load-none name s f))
        | inr (db, f) ↦ inl (
          db,
          opened_as name db s,
          rw (e, load_db) (finish_load-some name s db f),
          (opened_as-IsOnce name db s e v, refl),
        )
      ]
    ]

    -- A box has asked OrbitDB once for each of its collections and for nothing else. However often and for
    -- whichever names `loadDB` is then called, one call after the other, if all of the calls succeed
    -- then that is still so: what the box has asked for are its collections, and no name stands there
    -- twice. No message is published, since the text of an array of peers, which are objects, is no
    -- number above 0.
    pub load_all-IsOnce :
        (ns : List Text) (s s' : Shared Db)
        → IsOnce s
        → load_all docs peers literal ns s ≡ ok s'
        → IsOnce s' × (s'.published ≡ s.published)
    unfolding load_all
    load_all-IsOnce [] s s' v e = subst (λ t. IsOnce t × (t.published ≡ s.published)) (cc) (v, refl)
    load_all-IsOnce (n ∷ ns) s s' v e = elim (load_db-Kept n s v) [
      | inr f ↦ (let bad : err runtime ≡ ok s' = rw f at e in cc)
      | inl (db, s1, f, k) ↦
          (let (v2, same) = load_all-IsOnce ns s1 s' k.0 (rw f at e) in (v2, same ∙ k.1))
    ]

    find-put : (name : Text) (db : Db) (r : List (Text × Db)) → find name (put name db r) ≡ some db
    unfolding find put
    find-put name db [] = rw (text_eq_refl name) refl
    find-put name db ((k, old) ∷ r) = elim (Bool-cases (text_eq k name)) [
      | inl h ↦ rw (h, h) refl
      | inr h ↦ rw (h, h) (find-put name db r)
    ]

    -- Two calls of `loadDB` for a new collection overlap: both have looked into the table before one of
    -- them has filled it. Then the box opens the store twice, the two callers get different
    -- handles if OrbitDB makes them anew, and the table keeps the second.
    pub finish_load_overlap :
        (name : Text) (s : Shared Db) (a b : Db)
        → find name s.collections ≡ none
        → docs name (length s.asked) ≡ some a
        → docs name (length s.asked + 1) ≡ some b
        → (load_db docs peers literal name s ≡ ok (a, opened_as name a s))
          × (finish_load docs peers literal name (opened_as name a s)
              ≡ ok (b, opened_as name b (opened_as name a s)))
          × (find name (opened_as name b (opened_as name a s)).collections ≡ some b)
    unfolding load_db
    finish_load_overlap name s a b e f g =
        let longer : docs name (length (s.asked ++ name ∷ [])) ≡ some b =
          ap (docs name) (length-append s.asked (name ∷ [])) ∙ g in
        (
          rw (e, load_db) (finish_load-some name s a f),
          finish_load-some name (opened_as name a s) b longer,
          find-put name b (put name a s.collections),
        )
