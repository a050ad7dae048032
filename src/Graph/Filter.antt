-- ===== src/Graph/Filter.antt =====
-- gql-engine/orbit/orbit-filter.ts and the query types of gql-engine/types.ts: the filter that a
-- query is turned into.
pub mod Outcome
pub mod Meaning
pub mod Laws
use fula_archived.Prelude.{
  String, Bool, true, false, not, ◌&&◌, ◌||◌, Option, none, some, List, [], ◌∷◌, Text, Result, ok,
  err, Error, message, ◌>>=◌, if◌then◌else◌,
}
use Prim.Native.String.{◌++◌}
use fula_archived.Graph.Values.{
  Numbers, Scalar, FilterValue, scalar, array, is_falsy, to_primitive, less, less_eq, loose_eq,
  includes, Doc, field_of,
}

-- `FilterKeys`, and any other key.
pub data Operator : Type 0 where
  ne gt lt gte lte eq in_list not_in : Operator
  other : String → Operator

-- `LogicalFilterKeys`
pub data Logical : Type 0 where
  and or : Logical

module _ (j : Numbers) where
  -- `FieldFilterValue`, as `Object.entries` gives it.
  abbrev pub Conditions : Type 0
  Conditions = List (Operator × FilterValue j)

  mutual
    -- The entries of a `ReadInput`: fields with their conditions, and `and` or `or` with its children.
    pub data Node : Type 0 where
      nothing : Node
      field : Text → Conditions → Node → Node
      branch : Logical → Nodes → Node → Node

    pub data Nodes : Type 0 where
      no_more : Nodes
      child : Node → Nodes → Nodes

  -- A comparison of `doc[fieldName]`: with undefined it is false.
  abbrev pub defined : Option (Scalar j) → (Scalar j → Bool) → Bool
  defined none test = false
  defined (some v) test = test v

  -- `typeof value === "object" && ...`
  abbrev pub on_array : FilterValue j → (List (Scalar j) → Bool) → Bool
  on_array (scalar v) test = false
  on_array (array vs) test = test vs

  -- One round of the `reduce` over the conditions on a field.
  unfoldable pub check : Option (Scalar j) → Bool → Operator → FilterValue j → Result Bool
  check found prev op value = if is_falsy j value then err (message "bad query") else elim op [
    | ne ↦ ok (prev && not (defined found (λ v. loose_eq j v (to_primitive j value))))
    | gt ↦ ok (prev && defined found (λ v. less j (to_primitive j value) v))
    | lt ↦ ok (prev && defined found (λ v. less j v (to_primitive j value)))
    | gte ↦ ok (prev && defined found (λ v. less_eq j (to_primitive j value) v))
    | lte ↦ ok (prev && defined found (λ v. less_eq j v (to_primitive j value)))
    | eq ↦ ok (prev && defined found (λ v. loose_eq j v (to_primitive j value)))
    | in_list ↦ ok (on_array value (λ vs. prev && defined found (includes j vs)))
    | not_in ↦ ok (on_array value (λ vs. prev && not (defined found (includes j vs))))
    | other k ↦ err (message ("Not implemented operator " ++ k))
  ]

  unfoldable pub check_all : Option (Scalar j) → Bool → Conditions → Result Bool
  check_all found prev [] = ok prev
  check_all found prev ((op, value) ∷ rest) = do
    b ← check found prev op value
    check_all found b rest

  -- `evaluate(leaf)(doc)`: every entry is evaluated, and then all must hold. An `and` or `or` beside
  -- a field is taken for a field, whose conditions are the indices of its array.
  unfoldable pub evaluate : Node → Doc j → Result Bool
  evaluate nothing doc = ok true
  evaluate (field name conditions rest) doc = do
    b ← check_all (field_of j doc name) true conditions
    c ← evaluate rest doc
    ok (b && c)
  evaluate (branch l no_more rest) doc = evaluate rest doc
  evaluate (branch l (child n ns) rest) doc = err (message "Not implemented operator 0")

  -- `isLeaf`: some key is not logical.
  unfoldable pub is_leaf : Node → Bool
  is_leaf nothing = false
  is_leaf (field name conditions rest) = true
  is_leaf (branch l ns rest) = is_leaf rest

  unfoldable mutual
    -- `_reGetFilter(rootNode)(doc)`; of several logical keys the first one counts.
    pub re_get_filter : Node → Doc j → Result Bool
    re_get_filter nothing doc = ok true
    re_get_filter (field name conditions rest) doc = evaluate (field name conditions rest) doc
    re_get_filter (branch and ns rest) doc =
        let all = filter_all ns doc in
        if is_leaf rest then evaluate (branch and ns rest) doc else all
    re_get_filter (branch or ns rest) doc =
        let any = filter_any ns doc in
        if is_leaf rest then evaluate (branch or ns rest) doc else any

    -- `childrenNodes.map(node => _reGetFilter(node)(doc)).every(Boolean)`
    pub filter_all : Nodes → Doc j → Result Bool
    filter_all no_more doc = ok true
    filter_all (child n ns) doc = do b ← re_get_filter n doc; c ← filter_all ns doc; ok (b && c)

    -- `childrenNodes.map(node => _reGetFilter(node)(doc)).some(Boolean)`
    pub filter_any : Nodes → Doc j → Result Bool
    filter_any no_more doc = ok false
    filter_any (child n ns) doc = do b ← re_get_filter n doc; c ← filter_any ns doc; ok (b || c)
