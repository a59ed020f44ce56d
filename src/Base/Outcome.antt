-- ===== src/Base/Outcome.antt =====
-- Rust's `Result<T, E>`; `?` is a bind.
use mathlib.Core.Path.{◌≡◌, refl}
use mathlib.Core.Logic.{◌≢◌, ◌⊎◌, inl, inr}
use mathlib.Core.Bool.{Bool, true, false}

pub data Result (E T : Type 0) : Type 0 where
  ok : T → Result E T
  err : E → Result E T

-- `if !holds { return Err(fault) }`
abbrev pub guard : {E : Type 0} → Bool → E → Result E (Unit {0})
guard false fault = err fault
guard true fault = ok tt

pub ok-injective : {E T : Type 0} {a b : T} → ◌≡◌ {A = Result E T} (ok a) (ok b) → a ≡ b
ok-injective h = cc

infixl 5 ◌>>=◌
abbrev pub ◌>>=◌ : {E T U : Type 0} → Result E T → (T → Result E U) → Result E U
err fault >>= then = err fault
ok value >>= then = then value

pub err-not-ok : {E T : Type 0} {e : E} {a : T} → ◌≢◌ {A = Result E T} (err e) (ok a)
err-not-ok h = cc

infixl 5 ◌>>◌
abbrev pub ◌>>◌ : {E U : Type 0} → Result E (Unit {0}) → Result E U → Result E U
first >> second = first >>= λ done. second

pub Result-cases :
    {E T : Type 0} (r : Result E T) → ((v : T) × (r ≡ ok v)) ⊎ ((e : E) × (r ≡ err e))
Result-cases (err e) = inr (e, refl)
Result-cases (ok v) = inl (v, refl)

-- What a bind that succeeded went through.
pub >>=-eq-ok :
    {E T U : Type 0} (r : Result E T) (then : T → Result E U) {out : U}
    → (r >>= then) ≡ ok out
    → (v : T) × (r ≡ ok v) × (then v ≡ ok out)
>>=-eq-ok (err e) then h = cc
>>=-eq-ok (ok v) then h = (v, refl, h)

pub guard-eq-ok :
    {E : Type 0} (holds : Bool) (fault : E) {t : Unit} → guard holds fault ≡ ok t → holds ≡ true
guard-eq-ok false fault h = cc
guard-eq-ok true fault h = refl
