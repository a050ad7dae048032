-- ===== src/Graph/Objects.antt =====
-- The object literals of gql-engine/orbit/orbit-resolvers.ts, whose spread makes an own field of each name.
use fula_archived.Prelude.{
  ℕ, Bool, true, false, none, some, [], ◌∷◌, Text, ◌≡◌, refl, sym, ap, ◌∙◌, text_eq, text_eq_refl,
  if◌then◌else◌, ◌==◌, arith, inl, inr, Bool-cases,
}
use fula_archived.Graph.Values.{Numbers, Scalar, Doc, field_of}

eq_of_test : (a b : ℕ) → (a == b) ≡ true → a ≡ b
eq_of_test a b h = ground arith

pub text_eq-true : (s t : Text) → text_eq s t ≡ true → s ≡ t
text_eq-true [] [] h = refl
text_eq-true [] (y ∷ t) h = cc
text_eq-true (x ∷ s) [] h = cc
text_eq-true (x ∷ s) (y ∷ t) h = elim (Bool-cases (x == y)) [
  | inl e ↦
      (let tails : text_eq s t ≡ true = rw e at h in
        ap (λ a. a ∷ s) (eq_of_test x y e) ∙ ap (λ r. y ∷ r) (text_eq-true s t tails))
  | inr e ↦ (let f : false ≡ true = rw e at h in cc)
]

twice :
    {A : Type 0} (b : Bool) (x y z : A)
    → (if b then x else z) ≡ (if b then x else if b then y else z)
twice true x y z = refl
twice false x y z = refl

swapped :
    {A : Type 0} (a b : Bool) (x y z : A)
    → (a ≡ true → b ≡ true → ⊥)
    → (if a then x else if b then y else z) ≡ (if b then y else if a then x else z)
swapped true true x y z h = absurd (h refl refl)
swapped true false x y z h = refl
swapped false true x y z h = refl
swapped false false x y z h = refl

apart :
    (k key other : Text)
    → text_eq k key ≡ false
    → text_eq k other ≡ true
    → text_eq key other ≡ true
    → ⊥
apart k key other e p q =
    let same : k ≡ key = text_eq-true k other p ∙ sym (text_eq-true key other q) in
    let t : text_eq k key ≡ true = rw same (text_eq_refl key) in
    let f : true ≡ false = sym t ∙ e in cc

module _ (j : Numbers) where
  -- A field of an object literal, behind the others or in place of the field of its name.
  unfoldable pub assign : Text → Scalar j → Doc j → Doc j
  assign key v [] = (key, v) ∷ []
  assign key v ((k, w) ∷ d) =
      let rest = assign key v d in if text_eq k key then (k, v) ∷ d else (k, w) ∷ rest

  -- `{...d, ...e}`
  unfoldable pub spread : Doc j → Doc j → Doc j
  spread d [] = d
  spread d ((k, v) ∷ e) = spread (assign k v d) e

  -- `{_id: value.id, ...value}`; a value that is undefined is no field.
  unfoldable pub with_id : Text → Text → Doc j → Doc j
  unfolding spread
  with_id _id id value = elim (field_of j value id) [
    | none ↦ value
    | some v ↦ spread ((_id, v) ∷ []) value
  ]

  assign_step :
      (b : Bool) (k key other : Text) (v w : Scalar j) (d rest : Doc j)
      → text_eq k key ≡ b
      → field_of j rest other ≡ (if text_eq key other then some v else field_of j d other)
      → field_of j (if b then (k, v) ∷ d else (k, w) ∷ rest) other ≡ (
          if text_eq key other
          then some v
          else if text_eq k other
          then some w
          else field_of j d other)
  assign_step true k key other v w d rest e h =
      rw (text_eq-true k key e) (twice (text_eq key other) (some v) (some w) (field_of j d other))
  assign_step false k key other v w d rest e h = rw h (
      swapped (text_eq k other) (text_eq key other) (some w) (some v) (field_of j d other)
        (λ p q. apart k key other e p q))

  -- An assigned key has the value, and the other keys are as they were.
  pub field_of-assign :
      (key other : Text) (v : Scalar j) (d : Doc j)
      → field_of j (assign key v d) other
        ≡ (if text_eq key other then some v else field_of j d other)
  unfolding assign
  field_of-assign key other v [] = refl
  field_of-assign key other v ((k, w) ∷ d) =
      assign_step (text_eq k key) k key other v w d (assign key v d) refl
        (field_of-assign key other v d)
