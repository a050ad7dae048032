-- ===== src/Graph/Filter/Meaning.antt =====
-- orbit-filter.ts: what the filter of a query comes to, without the order of its evaluation.
use fula_archived.Prelude.{
  Bool, true, false, not, ◌&&◌, ◌||◌, Option, none, some, [], ◌∷◌, ◌≡◌, refl, sym, ap, ◌∙◌, ok,
  Error, message, if◌then◌else◌,
}
use Prim.Native.String.{◌++◌}
use fula_archived.Graph.Values.{
  Numbers, Scalar, FilterValue, scalar, array, is_falsy, to_primitive, less, less_eq, loose_eq,
  includes, Doc, field_of,
}
use fula_archived.Graph.Filter.{
  Operator, ne, gt, lt, gte, lte, eq, in_list, not_in, other, and, or, Conditions, Node, Nodes,
  nothing, field, branch, no_more, child, defined, on_array, check, check_all, evaluate, is_leaf,
  re_get_filter, filter_all, filter_any,
}
use fula_archived.Graph.Filter.Outcome.{
  outcome, first_of, outcome_and, outcome_or, outcome_then, by_fault, by_other, either, and_false,
  and_true, and_assoc,
}

module _ (j : Numbers) where
  -- Does a document with this value in the field meet a condition on it?
  abbrev pub meets : Option (Scalar j) → Operator → FilterValue j → Bool
  meets found ne value = not (defined j found (λ v. loose_eq j v (to_primitive j value)))
  meets found gt value = defined j found (λ v. less j (to_primitive j value) v)
  meets found lt value = defined j found (λ v. less j v (to_primitive j value))
  meets found gte value = defined j found (λ v. less_eq j (to_primitive j value) v)
  meets found lte value = defined j found (λ v. less_eq j v (to_primitive j value))
  meets found eq value = defined j found (λ v. loose_eq j v (to_primitive j value))
  meets found in_list value = on_array j value (λ vs. defined j found (includes j vs))
  meets found not_in value = on_array j value (λ vs. not (defined j found (includes j vs)))
  meets found (other k) value = false

  abbrev pub meets_all : Option (Scalar j) → Conditions j → Bool
  meets_all found [] = true
  meets_all found ((op, value) ∷ rest) = meets found op value && meets_all found rest

  -- The fault of a condition, whatever the document.
  abbrev pub fault_of : Operator → Option Error
  fault_of (other k) = some (message ("Not implemented operator " ++ k))
  fault_of op = none

  abbrev pub fault : Operator → FilterValue j → Option Error
  fault op value = if is_falsy j value then some (message "bad query") else fault_of op

  abbrev pub first_fault : Conditions j → Option Error
  first_fault [] = none
  first_fault ((op, value) ∷ rest) = first_of (fault op value) (first_fault rest)

  abbrev pub fields_fault : Node j → Option Error
  fields_fault nothing = none
  fields_fault (field name conditions rest) = first_of (first_fault conditions) (fields_fault rest)
  fields_fault (branch l no_more rest) = fields_fault rest
  fields_fault (branch l (child n ns) rest) = some (message "Not implemented operator 0")

  abbrev pub fields_met : Node j → Doc j → Bool
  fields_met nothing doc = true
  fields_met (field name conditions rest) doc =
      meets_all (field_of j doc name) conditions && fields_met rest doc
  fields_met (branch l ns rest) doc = fields_met rest doc

  unfoldable mutual
    -- The fault of a query, and its satisfaction by a document.
    pub query_fault : Node j → Option Error
    query_fault nothing = none
    query_fault (field name conditions rest) = fields_fault (field name conditions rest)
    query_fault (branch l ns rest) =
        let below = children_fault ns in
        if is_leaf j rest then fields_fault (branch l ns rest) else below

    pub children_fault : Nodes j → Option Error
    children_fault no_more = none
    children_fault (child n ns) = first_of (query_fault n) (children_fault ns)

  unfoldable mutual
    pub satisfies : Node j → Doc j → Bool
    satisfies nothing doc = true
    satisfies (field name conditions rest) doc = fields_met (field name conditions rest) doc
    satisfies (branch and ns rest) doc =
        let all = all_satisfied ns doc in if is_leaf j rest then fields_met rest doc else all
    satisfies (branch or ns rest) doc =
        let any = any_satisfied ns doc in if is_leaf j rest then fields_met rest doc else any

    pub all_satisfied : Nodes j → Doc j → Bool
    all_satisfied no_more doc = true
    all_satisfied (child n ns) doc = satisfies n doc && all_satisfied ns doc

    pub any_satisfied : Nodes j → Doc j → Bool
    any_satisfied no_more doc = false
    any_satisfied (child n ns) doc = satisfies n doc || any_satisfied ns doc

  check_lem :
      (found : Option (Scalar j)) (prev : Bool) (op : Operator) (value : FilterValue j)
      → check j found prev op value ≡ outcome (fault op value) (prev && meets found op value)
  unfolding check
  check_lem found prev ne value = by_fault (is_falsy j value) _
  check_lem found prev gt value = by_fault (is_falsy j value) _
  check_lem found prev lt value = by_fault (is_falsy j value) _
  check_lem found prev gte value = by_fault (is_falsy j value) _
  check_lem found prev lte value = by_fault (is_falsy j value) _
  check_lem found prev eq value = by_fault (is_falsy j value) _
  check_lem found prev in_list (array vs) = refl
  check_lem found prev in_list (scalar v) =
      rw (and_false prev) (by_fault (is_falsy j (scalar v)) false)
  check_lem found prev not_in (array vs) = refl
  check_lem found prev not_in (scalar v) =
      rw (and_false prev) (by_fault (is_falsy j (scalar v)) false)
  check_lem found prev (other k) value = by_other (is_falsy j value) _ _

  check_all_lem :
      (found : Option (Scalar j)) (prev : Bool) (cs : Conditions j)
      → check_all j found prev cs ≡ outcome (first_fault cs) (prev && meets_all found cs)
  unfolding check_all
  check_all_lem found prev [] = ap ok (sym (and_true prev))
  check_all_lem found prev ((op, value) ∷ rest) =
      rw (check_lem found prev op value) (
        outcome_then (fault op value) (first_fault rest) (prev && meets found op value)
          (λ b. check_all j found b rest) (meets_all found rest) (λ b. check_all_lem found b rest))
      ∙ ap (outcome (first_of (fault op value) (first_fault rest)))
          (and_assoc prev (meets found op value) (meets_all found rest))

  evaluate_lem :
      (n : Node j) (doc : Doc j) → evaluate j n doc ≡ outcome (fields_fault n) (fields_met n doc)
  unfolding evaluate
  evaluate_lem nothing doc = refl
  evaluate_lem (field name cs rest) doc =
      rw (check_all_lem (field_of j doc name) true cs, evaluate_lem rest doc)
        (outcome_and (first_fault cs) (fields_fault rest) (meets_all (field_of j doc name) cs)
          (fields_met rest doc))
  evaluate_lem (branch l no_more rest) doc = evaluate_lem rest doc
  evaluate_lem (branch l (child n ns) rest) doc = refl

  mutual
    unfolding re_get_filter filter_all filter_any query_fault children_fault satisfies all_satisfied
        any_satisfied

    filter_outcome :
        (n : Node j) (doc : Doc j)
        → re_get_filter j n doc ≡ outcome (query_fault n) (satisfies n doc)
    filter_outcome nothing doc = refl
    filter_outcome (field name cs rest) doc = evaluate_lem (field name cs rest) doc
    filter_outcome (branch and ns rest) doc =
        either (is_leaf j rest) _ _ _ _ _ _ (evaluate_lem (branch and ns rest) doc)
          (filter_all_lem ns doc)
    filter_outcome (branch or ns rest) doc =
        either (is_leaf j rest) _ _ _ _ _ _ (evaluate_lem (branch or ns rest) doc)
          (filter_any_lem ns doc)

    filter_all_lem :
        (ns : Nodes j) (doc : Doc j)
        → filter_all j ns doc ≡ outcome (children_fault ns) (all_satisfied ns doc)
    filter_all_lem no_more doc = refl
    filter_all_lem (child n ns) doc =
        rw (filter_outcome n doc, filter_all_lem ns doc)
          (outcome_and (query_fault n) (children_fault ns) _ _)

    filter_any_lem :
        (ns : Nodes j) (doc : Doc j)
        → filter_any j ns doc ≡ outcome (children_fault ns) (any_satisfied ns doc)
    filter_any_lem no_more doc = refl
    filter_any_lem (child n ns) doc =
        rw (filter_outcome n doc, filter_any_lem ns doc)
          (outcome_or (query_fault n) (children_fault ns) _ _)

  -- The filter of a query, on any document: a fault of the query, which does not depend on the
  -- document, is thrown, and otherwise the filter says whether the document satisfies the query.
  pub re_get_filter_lem :
      (n : Node j) (doc : Doc j) → re_get_filter j n doc ≡ outcome (query_fault n) (satisfies n doc)
  re_get_filter_lem = filter_outcome
