-- ===== src/Graph/Resolvers/Watch.antt =====
-- gql-engine/orbit/orbit-resolvers.ts: `read` as a subscription, and `readSubscribe`. A collection tells its
-- listeners of each change, of a write or of one that was replicated.
use fula_archived.Prelude.{
  Bool, true, none, List, [], ◌∷◌, ◌++◌, map, ◌≡◌, refl, sym, ap, ◌∙◌, append_assoc, append-nil,
  Result, ok, err, stuck, if◌then◌else◌,
}
use fula_archived.Graph.Values.{Numbers, Doc}
use fula_archived.Graph.Filter.{Node, re_get_filter}
use fula_archived.Graph.Filter.Meaning.{query_fault}
use fula_archived.Graph.Resolvers.{DocStore, read, satisfying, filter_docs-none}

module _ (j : Numbers) (o : DocStore j) where
  -- A collection with the filters of the listeners `onChange`, in their order, and what `next` was given.
  pub record Collection : Type 0 where
    pub db : o.Db
    pub listeners : List (Node j)
    pub told : List (List (Doc j))

  -- `read`, which registers its listener first.
  unfoldable pub read_collection : Bool → Node j → Collection → Result (List (Doc j)) × Collection
  unfolding read
  read_collection is_subscription filter c = (
    read j o filter c.db,
    (if is_subscription then record c { listeners = c.listeners ++ filter ∷ [] } else c),
  )

  -- `readSubscribe`, behind its own loading of the collection
  unfoldable pub read_subscribe : Node j → Collection → Result (List (Doc j))
  unfolding read
  read_subscribe filter c = read j o filter c.db

  -- `onChange()`: where the query throws, `next` is not called.
  abbrev pub next_read : Result (List (Doc j)) → List (List (Doc j))
  next_read (ok ds) = ds ∷ []
  next_read (err e) = []
  next_read stuck = []

  unfoldable pub on_change : o.Db → List (Node j) → List (List (Doc j))
  unfolding read
  on_change db [] = []
  on_change db (f ∷ fs) = next_read (read j o f db) ++ on_change db fs

  -- The collection has become another one.
  unfoldable pub changed : o.Db → Collection → Collection
  unfolding on_change
  changed db c = record c { db = db; told = c.told ++ on_change db c.listeners }

  unfoldable pub changed_all : List o.Db → Collection → Collection
  unfolding changed
  changed_all [] c = c
  changed_all (db ∷ dbs) c = changed_all dbs (changed db c)

  one_change :
      (n : Node j) (db : o.Db)
      → query_fault j n ≡ none
      → on_change db (n ∷ []) ≡ satisfying j o n (o.all db) ∷ []
  unfolding on_change read
  one_change n db e =
      rw (o.query-filter (re_get_filter j n) db, filter_docs-none j o n (o.all db) e) refl

  all_changes :
      (n : Node j) (dbs : List o.Db) (c : Collection)
      → query_fault j n ≡ none
      → c.listeners ≡ n ∷ []
      → (changed_all dbs c).told ≡ c.told ++ map (λ db. satisfying j o n (o.all db)) dbs
  unfolding changed_all changed
  all_changes n [] c e l = sym (append-nil c.told)
  all_changes n (db ∷ dbs) c e l =
      all_changes n dbs (changed db c) e l
      ∙ ap (λ t. t ++ map (λ d. satisfying j o n (o.all d)) dbs)
          (ap (λ fs. c.told ++ on_change db fs) l ∙ ap (λ t. c.told ++ t) (one_change n db e))
      ∙ append_assoc c.told (satisfying j o n (o.all db) ∷ [])
          (map (λ d. satisfying j o n (o.all d)) dbs)

  -- A subscription to a collection that has no listener yet, with a query without a fault. It returns the
  -- documents that satisfy the query, and at each later change of the collection, in their order, `next` is
  -- given exactly the documents that satisfy the query then.
  pub changed_all-read_collection :
      (n : Node j) (dbs : List o.Db) (c : Collection)
      → query_fault j n ≡ none
      → c.listeners ≡ []
      → ((read_collection true n c).0 ≡ ok (satisfying j o n (o.all c.db)))
        × ((changed_all dbs (read_collection true n c).1).told
            ≡ c.told ++ map (λ db. satisfying j o n (o.all db)) dbs)
  unfolding read_collection read
  changed_all-read_collection n dbs c e l = (
    o.query-filter (re_get_filter j n) c.db ∙ filter_docs-none j o n (o.all c.db) e,
    all_changes n dbs (record c { listeners = c.listeners ++ n ∷ [] }) e
        (ap (λ fs. fs ++ n ∷ []) l),
  )
