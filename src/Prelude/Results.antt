-- ===== src/Prelude/Results.antt =====
-- What a call that may throw returns. An `async` function that rejects is the same value here.
use Prim.Native.Nat.{ℕ}
use Prim.Native.String.{String}
use mathlib.Core.Option.{Option, none, some}

-- What the program throws: an error by its message (`message ""` is a bare `Error()`), a missing
-- index, the codecs' unknown field by the message type and the number, and whatever the runtime libraries throw.
pub data Error : Type 0 where
  message : String → Error
  index_not_found : ℕ → Error
  unknown_field : String → ℕ → Error
  runtime : Error

-- `stuck` is no result of the program: the model's fuel ran out, or the program waits for good.
pub data Result {ℓ} (A : Type ℓ) : Type ℓ where
  ok : A → Result A
  err : Error → Result A
  stuck : Result A

infixl 5 ◌>>=◌
abbrev pub ◌>>=◌ {ℓ κ} : {A : Type ℓ} {B : Type κ} → Result A → (A → Result B) → Result B
ok a >>= f = f a
err e >>= f = err e
stuck >>= f = stuck

-- A call of a library, which throws where it gives nothing.
abbrev pub call {ℓ} : {A : Type ℓ} → Option A → Result A
call none = err runtime
call (some a) = ok a
