-- ===== src/BoxGraph/Collections/Told.antt =====
-- apps/box/src/graph/index.ts: what a box does with the messages about collections.
use fula_archived.Prelude.{
  ℕ, true, Option, none, some, List, [], ◌∷◌, ◌++◌, length, Text, ◌≡◌, refl, sym, ap, ◌∙◌, ok,
  ◌>>=◌, inl, inr, Option-cases, append_assoc, append-nil,
}
use fula_archived.BoxGraph.Collections.{
  request, response, announcement, Shared, find, names, open_db, open_listed,
  handle_db_name_received,
}

module _ {Db : Type 0} where
  -- The names of a list for which there is no collection.
  abbrev pub missing : List (Text × Db) → List Text → List Text
  missing r [] = []
  missing r (n ∷ ns) =
      let rest = missing r ns in elim (find n r) [ some db ↦ rest | none ↦ n ∷ rest ]

  module _ (docs : Text → ℕ → Option Db)
      (docs_open : (name : Text) (k : ℕ) → (db : Db) × (docs name k ≡ some db)) where
    open_listed_lem :
        (ns : List Text) (s : Shared Db)
        → open_listed docs ns s ≡ ok (record s { asked = s.asked ++ missing s.collections ns })
    unfolding open_listed open_db
    open_listed_lem [] s = ap (λ r. ok (record s { asked = r })) (sym (append-nil s.asked))
    open_listed_lem (n ∷ ns) s = elim (Option-cases (find n s.collections)) [
      | inr (db, e) ↦ rw (e, open_listed, missing) (open_listed_lem ns s)
      | inl e ↦
          (let (db, f) = docs_open n (length s.asked) in
            rw (e, open_listed, missing, f)
              (open_listed_lem ns (record s { asked = s.asked ++ n ∷ [] })
                ∙ ap (λ r. ok (record s { asked = r }))
                    (append_assoc s.asked (n ∷ []) (missing s.collections ns))))
    ]

    -- When OrbitDB opens what it is asked for: a box that is asked for its collections publishes
    -- their names, in order. A box that is told of collections opens those that it does not have, in order, and
    -- its table stays as it was, so that the same message makes it open them again.
    pub handle_db_name_received_lem :
        (ns : List Text) (s : Shared Db)
        → (handle_db_name_received docs true request s
            ≡ ok (record s { published = s.published ++ response (names s.collections) ∷ [] }))
          × (handle_db_name_received docs true (announcement ns) s
              ≡ ok (record s { asked = s.asked ++ missing s.collections ns }))
          × ((handle_db_name_received docs true (response ns) s >>= λ t.
                handle_db_name_received docs true (response ns) t)
              ≡ ok (record s {
                asked = s.asked ++ (missing s.collections ns ++ missing s.collections ns);
              }))
    unfolding handle_db_name_received
    handle_db_name_received_lem ns s = (
      refl,
      open_listed_lem ns s,
      rw (open_listed_lem ns s) (
          open_listed_lem ns (record s { asked = s.asked ++ missing s.collections ns })
          ∙ ap (λ r. ok (record s { asked = r }))
              (append_assoc s.asked (missing s.collections ns) (missing s.collections ns))),
    )
