-- ===== src/Graph/Resolvers.antt =====
-- gql-engine/orbit/orbit-resolvers.ts: the resolvers of the box, on the document store of a collection.
pub mod Watch
use fula_archived.Prelude.{
  Bool, true, false, ap, text_eq, runtime, Option, none, some, List, [], ◌∷◌, map, Text, ◌≡◌, refl,
  ◌∙◌, Result, ok, err, ◌>>=◌, call, if◌then◌else◌, Option-cases, inl, inr,
}
use fula_archived.Graph.Values.{Numbers, Scalar, Doc, field_of}
use fula_archived.Graph.Filter.{Node, re_get_filter}
use fula_archived.Graph.Filter.Meaning.{query_fault, satisfies, re_get_filter_lem}
use fula_archived.Graph.Objects.{spread, with_id, assign, field_of-assign, text_eq-true}

module _ (j : Numbers) where
  -- The documents that a filter accepts, in their order; what it throws on one is thrown.
  abbrev pub filter_docs : (Doc j → Result Bool) → List (Doc j) → Result (List (Doc j))
  filter_docs f [] = ok []
  filter_docs f (d ∷ ds) = do b ← f d; rest ← filter_docs f ds; ok (if b then d ∷ rest else rest)

  -- No field stands twice.
  abbrev pub HasEachOnce : Doc j → Type 0
  HasEachOnce [] = Unit {0}
  HasEachOnce ((k, v) ∷ d) = (field_of j d k ≡ none) × HasEachOnce d

  -- The first of two values that is there.
  abbrev pub first_of : Option (Scalar j) → Option (Scalar j) → Option (Scalar j)
  first_of none w = w
  first_of (some v) w = some v

  over_rest :
      (b : Bool) (v : Scalar j) (rest was : Option (Scalar j))
      → (b ≡ true → rest ≡ none)
      → first_of rest (if b then some v else was) ≡ first_of (if b then some v else rest) was
  over_rest true v rest was h = rw (h refl) refl
  over_rest false v rest was h = refl

  field_of-spread :
      (d e : Doc j) (key : Text)
      → HasEachOnce e
      → field_of j (spread j d e) key ≡ first_of (field_of j e key) (field_of j d key)
  unfolding spread
  field_of-spread d [] key h = refl
  field_of-spread d ((k, v) ∷ e) key (new, h) =
      field_of-spread (assign j k v d) e key h
      ∙ ap (first_of (field_of j e key)) (field_of-assign j k key v d)
      ∙ over_rest (text_eq k key) v (field_of j e key) (field_of j d key)
          (λ same. rw (← text_eq-true k key same) new)

  -- A document store of OrbitDB. `query` gives the documents that a function accepts.
  pub record DocStore : Type 1 where
    pub Db : Type 0
    pub all : Db → List (Doc j)
    pub query : (Doc j → Result Bool) → Db → Result (List (Doc j))
    pub put : Doc j → Db → Option Db
    pub del : Text → Db → Option Db
    pub query-filter : (f : Doc j → Result Bool) (db : Db) → query f db ≡ filter_docs f (all db)

  module _ (o : DocStore) where
    -- `values.map(value => db.put(value))` and `Promise.all`: the store takes the puts in their order, and what
    -- it has after one that fails is not looked at.
    unfoldable pub put_all : List (Doc j) → o.Db → Result o.Db
    put_all [] db = ok db
    put_all (v ∷ vs) db = call (o.put v db) >>= put_all vs

    -- `read`, which is no subscription.
    unfoldable pub read : Node j → o.Db → Result (List (Doc j))
    read filter db = o.query (re_get_filter j filter) db

    -- `create` and `update`, which do the same; `_id` and `id` are the names of the fields.
    unfoldable pub create : Text → Text → List (Doc j) → o.Db → Result (List (Doc j) × o.Db)
    unfolding put_all
    create _id id values db = do
      let vs = map (with_id j _id id) values
      db' ← put_all vs db
      ok (vs, db')

    -- `updateQuery`
    unfoldable pub update_query : Node j → Doc j → o.Db → Result (List (Doc j) × o.Db)
    unfolding put_all
    update_query filter value db = do
      found ← o.query (re_get_filter j filter) db
      let vs = map (λ d. spread j d value) found
      db' ← put_all vs db
      ok (vs, db')

    -- `delete`
    unfoldable pub delete : List Text → o.Db → Result o.Db
    delete [] db = ok db
    delete (i ∷ is) db = call (o.del i db) >>= delete is

    -- The documents that satisfy a query.
    abbrev pub satisfying : Node j → List (Doc j) → List (Doc j)
    satisfying n [] = []
    satisfying n (d ∷ ds) = if satisfies j n d then d ∷ satisfying n ds else satisfying n ds

    -- What a query finds among some documents.
    abbrev pub finds : Node j → List (Doc j) → Result (List (Doc j))
    finds n [] = ok []
    finds n (d ∷ ds) = elim (query_fault j n) [ none ↦ ok (satisfying n (d ∷ ds)) | some e ↦ err e ]

    pub filter_docs-none :
        (n : Node j) (ds : List (Doc j))
        → query_fault j n ≡ none
        → filter_docs (re_get_filter j n) ds ≡ ok (satisfying n ds)
    filter_docs-none n [] e = refl
    filter_docs-none n (d ∷ ds) e = rw (re_get_filter_lem j n d, e, filter_docs-none n ds e) refl

    filter_docs-finds :
        (n : Node j) (ds : List (Doc j)) → filter_docs (re_get_filter j n) ds ≡ finds n ds
    filter_docs-finds n [] = refl
    filter_docs-finds n (d ∷ ds) = elim (Option-cases (query_fault j n)) [
      | inl e ↦ filter_docs-none n (d ∷ ds) e ∙ rw (e, finds) refl
      | inr (x, e) ↦ rw (re_get_filter_lem j n d, e, finds) refl
    ]

    -- `read` returns exactly the documents of the collection that satisfy the query, in their order. A
    -- query with a fault is thrown back if there is a document at all, and finds nothing in an
    -- empty collection.
    read-finds : (n : Node j) (db : o.Db) → read n db ≡ finds n (o.all db)
    unfolding read
    read-finds n db = o.query-filter (re_get_filter j n) db ∙ filter_docs-finds n (o.all db)

    -- What putting documents one after the other comes to: the store behind the last put, or what the first
    -- put that fails throws.
    pub data PutsTo : List (Doc j) → o.Db → Result o.Db → Type 0 where
      all_put : {db : o.Db} → PutsTo [] db (ok db)
      put_first :
          {v : Doc j} {vs : List (Doc j)} {db db' : o.Db} {r : Result o.Db}
          → o.put v db ≡ some db'
          → PutsTo vs db' r
          → PutsTo (v ∷ vs) db r
      put_fails :
          {v : Doc j} {vs : List (Doc j)} {db : o.Db}
          → o.put v db ≡ none
          → PutsTo (v ∷ vs) db (err runtime)

    put_all-PutsTo :
        {vs : List (Doc j)} {db : o.Db} {r : Result o.Db} → PutsTo vs db r → put_all vs db ≡ r
    unfolding put_all
    put_all-PutsTo all_put = refl
    put_all-PutsTo (put_first e rest) = rw (put_all, e) (put_all-PutsTo rest)
    put_all-PutsTo (put_fails e) = rw (put_all, e) refl

    -- `updateQuery` of a query without a fault makes, of each document that satisfies the query, in order and of no
    -- other, one that has the value's fields and, where the value has none of a name, the document's
    -- own, for a value that has no field twice. It puts all of these, one after the other, and
    -- returns them with the store that this leaves; where a put fails it throws what that put throws.
    pub update_query_lem :
        (n : Node j) (value : Doc j) (db : o.Db) (r : Result o.Db)
        → query_fault j n ≡ none
        → HasEachOnce value
        → PutsTo (map (λ d. spread j d value) (satisfying n (o.all db))) db r
        → (update_query n value db
            ≡ (r >>= λ db'. ok (map (λ d. spread j d value) (satisfying n (o.all db)), db')))
          × ((d : Doc j) (key : Text)
              → field_of j (spread j d value) key
                ≡ first_of (field_of j value key) (field_of j d key))
    unfolding update_query
    update_query_lem n value db r e once puts = (
      rw
          (
            o.query-filter (re_get_filter j n) db,
            filter_docs-none n (o.all db) e,
            put_all-PutsTo puts,
          )
          refl,
      λ d key. field_of-spread d value key once,
    )
