-- ===== src/Graph/Engine.antt =====
-- apps/box/src/graph/gql-engine/index.ts: `getFields`, `selector` and `executeAndSelect`, on the JSON of a
-- result. Documents are objects; `execute` of GraphQL is an argument.
use fula_archived.Prelude.{
  ◌≡◌, Error, Bool, true, false, Option, none, some, List, [], ◌∷◌, Text, text_eq, Result, ok, err,
  runtime, ◌>>=◌, if◌then◌else◌,
}
use fula_archived.GraphProtocol.Json.{Json, Members, no_members, member, put_member}

-- A selection of a query, with the names of its own selections if it has any.
pub record Selection : Type 0 where
  pub name : Text
  pub selections : Option (List Text)

-- `query.definitions[0].selectionSet.selections`
abbrev pub Document : Type 0
Document = List Selection

-- `getFields(def)`: the names within the first selection.
unfoldable pub get_fields : Document → Result (List Text)
get_fields [] = err runtime
get_fields (s ∷ rest) = elim s.selections [ none ↦ err runtime | some names ↦ ok names ]

-- An entry of a result: a value that is no object, `null`, or a document.
pub data Entry : Type 0 where
  plain : Json → Entry
  nothing : Entry
  document : Members → Entry

-- `res.data`, and `{data: resSelected}`
abbrev pub Data : Type 0
Data = List (Text × List Entry)

unfoldable pub member_at : Text → Members → Option Json
member_at key no_members = none
member_at key (member k v ms) =
    let rest = member_at key ms in if text_eq k key then some v else rest

-- `filter(key => key in item).reduce((obj2, key) => {obj2[key] = item[key]; ...}, {})`
unfoldable pub select_members : Members → List Text → Members → Members
unfolding member_at
select_members ms [] obj = obj
select_members ms (f ∷ fs) obj = elim (member_at f ms) [
  | none ↦ select_members ms fs obj
  | some v ↦ select_members ms fs (put_member f v obj)
]

-- The function that `selector` maps over the entries; `key in null` throws.
unfoldable pub select_entry : Document → Entry → Result Entry
unfolding get_fields select_members
select_entry d (plain v) = ok (plain v)
select_entry d nothing = do
  names ← get_fields d
  elim names [ [] ↦ ok (document no_members) | n ∷ ns ↦ err runtime ]
select_entry d (document ms) = do
  names ← get_fields d
  ok (document (select_members ms names no_members))

unfoldable pub select_entries : Document → List Entry → Result (List Entry)
select_entries d [] = ok []
select_entries d (e ∷ es) = do x ← select_entry d e; xs ← select_entries d es; ok (x ∷ xs)

-- `selector(res, def)`
unfoldable pub select_data : Document → Data → Result Data
unfolding select_entries
select_data d [] = ok []
select_data d ((key, es) ∷ rest) = do
  xs ← select_entries d es
  more ← select_data d rest
  ok ((key, xs) ∷ more)

-- What `execute` of GraphQL comes to: the first of its errors, or the data.
pub data Executed (E : Type 0) : Type 0 where
  failed : E → Executed E
  executed : Data → Executed E

-- What `executeAndSelect` returns: `{error}` or `{data}`.
pub data Selected (E : Type 0) : Type 0 where
  error_of : E → Selected E
  data_of : Data → Selected E

unfoldable pub execute_and_select :
    {E : Type 0} → Document → Result (Executed E) → Result (Selected E)
execute_and_select d run = do
  res ← run
  elim res [
    | failed e ↦ ok (error_of e)
    | executed x ↦ (do selected ← select_data d x; ok (data_of selected))
  ]

-- `_next`, which a resolver calls with new data; without a `next` it does nothing.
unfoldable pub next_selected : Bool → Document → Data → Result (Option Data)
next_selected false d x = ok none
next_selected true d x = do selected ← select_data d x; ok (some selected)

-- The data that is selected of changes, one for each that can be selected, in their order.
pub data AreSelected (d : Document) : List Data → List Data → Type 0 where
  no_change : AreSelected d [] []
  change_selected :
      {x y : Data} {xs ys : List Data}
      → select_data d x ≡ ok y
      → AreSelected d xs ys
      → AreSelected d (x ∷ xs) (y ∷ ys)
  change_throws :
      {x : Data} {e : Error} {xs ys : List Data}
      → select_data d x ≡ err e
      → AreSelected d xs ys
      → AreSelected d (x ∷ xs) ys
