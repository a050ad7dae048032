-- ===== src/Graph/Filter/Outcome.antt =====
-- Tests of a document that may throw, as orbit-filter.ts chains them.
use fula_archived.Prelude.{
  Bool, true, false, ◌&&◌, ◌||◌, Option, none, some, ◌≡◌, refl, Result, ok, err, Error, message,
  ◌>>=◌, if◌then◌else◌,
}

-- A test that fails by a fault, or gives a truth value.
abbrev pub outcome : Option Error → Bool → Result Bool
outcome none b = ok b
outcome (some e) b = err e

abbrev pub first_of : Option Error → Option Error → Option Error
first_of none g = g
first_of (some e) g = some e

pub outcome_and :
    (f g : Option Error) (b c : Bool)
    → (outcome f b >>= λ x. outcome g c >>= λ y. ok (x && y)) ≡ outcome (first_of f g) (b && c)
outcome_and none none b c = refl
outcome_and none (some e) b c = refl
outcome_and (some e) g b c = refl

pub outcome_or :
    (f g : Option Error) (b c : Bool)
    → (outcome f b >>= λ x. outcome g c >>= λ y. ok (x || y)) ≡ outcome (first_of f g) (b || c)
outcome_or none none b c = refl
outcome_or none (some e) b c = refl
outcome_or (some e) g b c = refl

-- A test that goes on from another one's truth value.
pub outcome_then :
    (f g : Option Error) (b : Bool) (k : Bool → Result Bool) (c : Bool)
    → ((x : Bool) → k x ≡ outcome g (x && c))
    → (outcome f b >>= k) ≡ outcome (first_of f g) (b && c)
outcome_then none g b k c h = h b
outcome_then (some e) g b k c h = refl

pub by_fault :
    (x p : Bool)
    → (if x then err (message "bad query") else ok p)
      ≡ outcome (if x then some (message "bad query") else none) p
by_fault true p = refl
by_fault false p = refl

pub by_other :
    (x : Bool) (e : Error) (p : Bool)
    → (if x then err (message "bad query") else err e)
      ≡ outcome (if x then some (message "bad query") else some e) p
by_other true e p = refl
by_other false e p = refl

pub either :
    (x : Bool) (p q : Result Bool) (f g : Option Error) (b c : Bool)
    → p ≡ outcome f b
    → q ≡ outcome g c
    → (if x then p else q) ≡ outcome (if x then f else g) (if x then b else c)
either true p q f g b c h k = h
either false p q f g b c h k = k

pub and_false : (b : Bool) → (b && false) ≡ false
and_false true = refl
and_false false = refl

pub and_true : (b : Bool) → (b && true) ≡ b
and_true true = refl
and_true false = refl

pub and_assoc : (a b c : Bool) → ((a && b) && c) ≡ (a && (b && c))
and_assoc true b c = refl
and_assoc false b c = refl
