-- ===== src/Tests/Queries.antt =====
-- Queries, filters and resolvers on a few documents.
use fula_archived.Prelude.{true, List, [], ◌∷◌, Text, ◌≡◌, refl, ok, err, message}
use fula_archived.Graph.Values.{number, text, scalar, Doc, field_of}
use fula_archived.Graph.Filter.{
  Node, nothing, field, branch, no_more, child, and, or, gt, eq, re_get_filter, is_leaf,
}
use fula_archived.Graph.Filter.Meaning.{query_fault, satisfies, re_get_filter_lem}
use fula_archived.Graph.Filter.Laws.{single, and_of_fields}
use fula_archived.Graph.Objects.{spread, assign}
use fula_archived.Graph.Resolvers.{update_query, update_query_lem, first_of, put_first, all_put}
use fula_archived.Graph.Resolvers.Watch.{
  Collection, read_collection, changed_all, changed_all-read_collection,
}
use fula_archived.Tests.StandIns.{numbers, doc_store}

abbrev age : Text
age = 97 ∷ []

abbrev name : Text
name = 110 ∷ []

abbrev ann : Doc numbers
ann = (name, text (65 ∷ [])) ∷ (age, number 30) ∷ []

abbrev bob : Doc numbers
bob = (name, text (66 ∷ [])) ∷ (age, number 20) ∷ []

abbrev over_25 : Node numbers
over_25 = branch or (child (field age ((gt, scalar (number 25)) ∷ []) nothing) no_more) nothing

re_get_filter_lem_example : re_get_filter numbers over_25 ann ≡ ok true
unfolding query_fault satisfies is_leaf
re_get_filter_lem_example = re_get_filter_lem numbers over_25 ann

-- A comparison with 0 is refused.
abbrev over_0 : Node numbers
over_0 = single numbers age gt (scalar (number 0))

over_0-throws : re_get_filter numbers over_0 ann ≡ err (message "bad query")
unfolding query_fault satisfies is_leaf
over_0-throws = re_get_filter_lem numbers over_0 ann

and_of_fields_example :
    re_get_filter numbers
      (branch and
        (child
          (field age ((gt, scalar (number 25)) ∷ []) nothing)
          (child (field name ((eq, scalar (text (65 ∷ []))) ∷ []) nothing) no_more))
        nothing)
      ann
    ≡ re_get_filter numbers
        (field age
          ((gt, scalar (number 25)) ∷ [])
          (field name ((eq, scalar (text (65 ∷ []))) ∷ []) nothing))
        ann
and_of_fields_example =
    and_of_fields numbers
      ((age, (gt, scalar (number 25)) ∷ []) ∷ (name, (eq, scalar (text (65 ∷ []))) ∷ []) ∷ []) ann

abbrev older : Doc numbers
older = (age, number 31) ∷ []

abbrev carl : Doc numbers
carl = (name, text (67 ∷ [])) ∷ (age, number 40) ∷ []

abbrev people : List (Doc numbers)
people = ann ∷ bob ∷ carl ∷ []

abbrev older_ann : Doc numbers
older_ann = (name, text (65 ∷ [])) ∷ (age, number 31) ∷ []

abbrev older_carl : Doc numbers
older_carl = (name, text (67 ∷ [])) ∷ (age, number 31) ∷ []

update_query_lem_example :
    (update_query numbers doc_store over_25 older people
      ≡ ok (older_ann ∷ older_carl ∷ [], older_carl ∷ older_ann ∷ people))
    × ((d : Doc numbers) (key : Text)
        → field_of numbers (spread numbers d older) key
          ≡ first_of numbers (field_of numbers older key) (field_of numbers d key))
unfolding query_fault satisfies is_leaf spread assign
update_query_lem_example =
    update_query_lem numbers doc_store over_25 older people (ok (older_carl ∷ older_ann ∷ people))
      refl (refl, tt) (put_first refl (put_first refl all_put))

abbrev quiet : Collection numbers doc_store
quiet = record { db = ann ∷ []; listeners = []; told = [] }

changed_all-read_collection_example :
    ((read_collection numbers doc_store true over_25 quiet).0 ≡ ok (ann ∷ []))
    × ((changed_all numbers doc_store
          ((ann ∷ bob ∷ []) ∷ (bob ∷ []) ∷ [])
          (read_collection numbers doc_store true over_25 quiet).1).told
        ≡ (ann ∷ []) ∷ [] ∷ [])
unfolding query_fault satisfies is_leaf
changed_all-read_collection_example =
    changed_all-read_collection numbers doc_store over_25 ((ann ∷ bob ∷ []) ∷ (bob ∷ []) ∷ []) quiet
      refl refl
