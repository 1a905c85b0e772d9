-- ===== src/Core/Result.antt =====
-- Exceptions: each class of error that the program throws or tests for, with its message.
use managed_tool_call_schema.Base.{Text, Bool, true, false, ◌≡◌, refl}

pub data Thrown : Type 0 where
  type_error : Text → Thrown
  syntax_error : Text → Thrown
  resource_limit : Text → Thrown
  unsafe_pattern : Text → Thrown
  other_error : Text → Thrown

pub data Result {ℓ} (T : Type ℓ) : Type ℓ where
  throw : Thrown → Result T
  ok : T → Result T

-- A thrown error ends the function: what comes after it does not run.
infixl 5 ◌>>=◌ ◌>>◌
abbrev pub ◌>>=◌ {κ ℓ} : {T : Type κ} {U : Type ℓ} → Result T → (T → Result U) → Result U
throw t >>= next = throw t
ok x >>= next = next x

abbrev pub ◌>>◌ {κ} : {U : Type κ} → Result (Unit {0}) → Result U → Result U
first >> second = first >>= λ done. second

-- `if (!test) throw new TypeError(message)`
abbrev pub require : Bool → Text → Result (Unit {0})
require true message = ok tt
require false message = throw (type_error message)

-- Inversion of a successful step.
pub >>=-eq-ok {κ ℓ} :
    {T : Type κ} {U : Type ℓ} (r : Result T) (next : T → Result U) {y : U}
    → (r >>= next) ≡ ok y
    → (x : T) × (r ≡ ok x) × (next x ≡ ok y)
>>=-eq-ok (throw t) next e = cc
>>=-eq-ok (ok x) next e = (x, refl, e)

pub require-eq-ok : (b : Bool) (t : Text) {u : Unit {0}} → require b t ≡ ok u → b ≡ true
require-eq-ok true t h = refl
require-eq-ok false t h = cc
