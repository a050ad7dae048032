-- ===== src/Graph/Filter/Laws.antt =====
-- orbit-filter.ts: how queries relate to each other.
use fula_archived.Prelude.{
  Bool, true, false, not, ◌&&◌, Option, none, some, List, [], ◌∷◌, Text, ◌≡◌, refl, sym, ◌∙◌,
  Result, ok, err, Error, message, ◌>>=◌, if◌then◌else◌,
}
use fula_archived.Graph.Values.{Numbers, Scalar, FilterValue, array, Doc, field_of}
use fula_archived.Graph.Filter.{
  Operator, ne, eq, in_list, not_in, and, Conditions, Node, Nodes, nothing, field, branch, no_more,
  child, re_get_filter, is_leaf,
}
use fula_archived.Graph.Filter.Meaning.{
  query_fault, satisfies, children_fault, all_satisfied, re_get_filter_lem, first_fault, meets_all,
  fields_fault, fields_met,
}
use fula_archived.Graph.Filter.Outcome.{outcome, first_of, and_true}

first_of-none : (f : Option Error) → first_of f none ≡ f
first_of-none none = refl
first_of-none (some e) = refl

first_of_assoc : (f g h : Option Error) → first_of (first_of f g) h ≡ first_of f (first_of g h)
first_of_assoc none g h = refl
first_of_assoc (some e) g h = refl

-- The truth values of a test and of its opposite.
opposite :
    (x b : Bool) (m : Error)
    → outcome (first_of (first_of (if x then some m else none) none) none) ((not b && true) && true)
      ≡ (outcome (first_of (first_of (if x then some m else none) none) none) ((b && true) && true)
          >>= λ c. ok (not c))
opposite true b m = refl
opposite false true m = refl
opposite false false m = refl

module _ (j : Numbers) where
  outcome_err :
      (f : Option Error) (b c : Bool) (e : Error) → outcome f b ≡ err e → outcome f c ≡ err e
  outcome_err none b c e h = cc
  outcome_err (some x) b c e h = h

  -- A query whose filter throws on one document throws the same on every document.
  faults_alike :
      (n : Node j) (doc other_doc : Doc j) (e : Error)
      → re_get_filter j n doc ≡ err e
      → re_get_filter j n other_doc ≡ err e
  faults_alike n doc other_doc e h =
      re_get_filter_lem j n other_doc
      ∙ outcome_err (query_fault j n) (satisfies j n doc) (satisfies j n other_doc) e
          (sym (re_get_filter_lem j n doc) ∙ h)

  -- The query of one condition on one field.
  abbrev pub single : Text → Operator → FilterValue j → Node j
  single name op value = field name ((op, value) ∷ []) nothing

  abbrev pub negated : Result Bool → Result Bool
  negated r = r >>= λ b. ok (not b)

  -- `ne` accepts the documents that `eq` rejects, and `nin` those that `in` rejects when it has an
  -- array; where one of the two throws, so does the other.
  negations :
      (name : Text) (value : FilterValue j) (vs : List (Scalar j)) (doc : Doc j)
      → (re_get_filter j (single name ne value) doc
          ≡ negated (re_get_filter j (single name eq value) doc))
        × (re_get_filter j (single name not_in (array vs)) doc
            ≡ negated (re_get_filter j (single name in_list (array vs)) doc))
  unfolding query_fault satisfies
  negations name value vs doc = (
    rw
        (
          re_get_filter_lem j (single name ne value) doc,
          re_get_filter_lem j (single name eq value) doc,
        )
        (opposite _ _ _),
    rw
        (
          re_get_filter_lem j (single name not_in (array vs)) doc,
          re_get_filter_lem j (single name in_list (array vs)) doc,
        )
        (opposite false _ (message "")),
  )

  -- The children that have one field each of a query of fields.
  abbrev pub Fields : Type 0
  Fields = List (Text × Conditions j)

  abbrev pub leaf : Fields → Node j
  leaf [] = nothing
  leaf ((name, cs) ∷ fs) = field name cs (leaf fs)

  abbrev pub children : Fields → Nodes j
  children [] = no_more
  children ((name, cs) ∷ fs) = child (field name cs nothing) (children fs)

  query_fault-leaf : (fs : Fields) → query_fault j (leaf fs) ≡ fields_fault j (leaf fs)
  unfolding query_fault
  query_fault-leaf [] = refl
  query_fault-leaf ((name, cs) ∷ fs) = refl

  satisfies-leaf :
      (fs : Fields) (doc : Doc j) → satisfies j (leaf fs) doc ≡ fields_met j (leaf fs) doc
  unfolding satisfies
  satisfies-leaf [] doc = refl
  satisfies-leaf ((name, cs) ∷ fs) doc = refl

  children_fault-children :
      (fs : Fields) → children_fault j (children fs) ≡ fields_fault j (leaf fs)
  unfolding query_fault children_fault
  children_fault-children [] = refl
  children_fault-children ((name, cs) ∷ fs) =
      rw (first_of-none (first_fault j cs), children_fault-children fs) refl

  all_satisfied-children :
      (fs : Fields) (doc : Doc j) → all_satisfied j (children fs) doc ≡ fields_met j (leaf fs) doc
  unfolding satisfies all_satisfied
  all_satisfied-children [] doc = refl
  all_satisfied-children ((name, cs) ∷ fs) doc =
      rw (and_true (meets_all j (field_of j doc name) cs), all_satisfied-children fs doc) refl

  -- A query of fields is the `and` of the queries of one field each, errors included.
  pub and_of_fields :
      (fs : Fields) (doc : Doc j)
      → re_get_filter j (branch and (children fs) nothing) doc ≡ re_get_filter j (leaf fs) doc
  unfolding query_fault satisfies is_leaf
  and_of_fields fs doc =
      re_get_filter_lem j (branch and (children fs) nothing) doc
      ∙ rw
          (
            children_fault-children fs,
            all_satisfied-children fs doc,
            ← query_fault-leaf fs,
            ← satisfies-leaf fs doc,
          )
          refl
      ∙ sym (re_get_filter_lem j (leaf fs) doc)
