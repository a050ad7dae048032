-- ===== src/Graph/Values.antt =====
-- The comparisons of JavaScript that gql-engine/orbit/orbit-filter.ts uses, on the values of its types
-- `Doc` and `FilterValues`. The arithmetic of numbers is a parameter.
use fula_archived.Prelude.{
  Bool, true, false, ◌&&◌, ◌||◌, Option, none, some, List, [], ◌∷◌, ◌++◌, Text, ltb, ◌==◌, is_empty,
  text_eq, if◌then◌else◌,
}

-- The doubles: their order and equality, the falsy ones (0 and NaN), and their texts.
pub record Numbers : Type 1 where
  pub Num : Type 0
  pub eq : Num → Num → Bool
  pub lt : Num → Num → Bool
  pub is_falsy : Num → Bool
  pub of_text : Text → Num
  pub to_text : Num → Text

-- The order of code units.
abbrev pub text_lt : Text → Text → Bool
text_lt xs [] = false
text_lt [] (y ∷ ys) = true
text_lt (x ∷ xs) (y ∷ ys) = ltb x y || (x == y && text_lt xs ys)

module _ (j : Numbers) where
  -- `string | number`
  pub data Scalar : Type 0 where
    number : j.Num → Scalar
    text : Text → Scalar

  -- `FilterValues`
  pub data FilterValue : Type 0 where
    scalar : Scalar → FilterValue
    array : List Scalar → FilterValue

  abbrev pub is_falsy : FilterValue → Bool
  is_falsy (scalar (number n)) = j.is_falsy n
  is_falsy (scalar (text s)) = is_empty s
  is_falsy (array vs) = false

  abbrev pub to_number : Scalar → j.Num
  to_number (number n) = n
  to_number (text s) = j.of_text s

  abbrev pub to_text : Scalar → Text
  to_text (number n) = j.to_text n
  to_text (text s) = s

  -- `array.join(",")`; a comma is the code unit 44.
  abbrev pub join : List Scalar → Text
  join [] = []
  join (v ∷ []) = to_text v
  join (v ∷ w ∷ vs) = to_text v ++ 44 ∷ join (w ∷ vs)

  -- What a comparison takes an array for.
  abbrev pub to_primitive : FilterValue → Scalar
  to_primitive (scalar v) = v
  to_primitive (array vs) = text (join vs)

  -- `a < b`, `a <= b` and `a == b`
  abbrev pub less : Scalar → Scalar → Bool
  less (text s) (text t) = text_lt s t
  less a b = j.lt (to_number a) (to_number b)

  abbrev pub less_eq : Scalar → Scalar → Bool
  less_eq (text s) (text t) = text_lt s t || text_eq s t
  less_eq a b = j.lt (to_number a) (to_number b) || j.eq (to_number a) (to_number b)

  abbrev pub loose_eq : Scalar → Scalar → Bool
  loose_eq (text s) (text t) = text_eq s t
  loose_eq a b = j.eq (to_number a) (to_number b)

  -- `a === b`
  abbrev pub strict_eq : Scalar → Scalar → Bool
  strict_eq (number a) (number b) = j.eq a b
  strict_eq (text s) (text t) = text_eq s t
  strict_eq _ _ = false

  -- `array.indexOf(v) >= 0`
  abbrev pub includes : List Scalar → Scalar → Bool
  includes [] v = false
  includes (w ∷ ws) v = strict_eq w v || includes ws v

  -- A document, and `doc[name]`, which is undefined where the document has no field of that name; the names that
  -- every object of the language has, such as `toString`, are left aside.
  abbrev pub Doc : Type 0
  Doc = List (Text × Scalar)

  abbrev pub field_of : Doc → Text → Option Scalar
  field_of [] name = none
  field_of ((k, v) ∷ d) name = if text_eq k name then some v else field_of d name
