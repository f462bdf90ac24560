-- ===== src/Database/Results.antt =====
-- A result or an exception: the steps of a handler that only read.
use hktutor.Shared.{Bool, Option, none, some, ◌≡◌, refl, ◌⊎◌, inl, inr, if◌then◌else◌}
use hktutor.Database.Exceptions.{Exception}

pub data Result (A : Type 0) : Type 0 where
  ok : A → Result A
  throw : Exception → Result A

infixl 5 ◌>>=◌ ◌>>◌
abbrev pub ◌>>=◌ : {A B : Type 0} → Result A → (A → Result B) → Result B
ok a >>= f = f a
throw e >>= f = throw e

abbrev pub ◌>>◌ : {A B : Type 0} → Result A → Result B → Result B
m >> k = m >>= λ _. k

abbrev pub or_throw : {A : Type 0} → Option A → Exception → Result A
or_throw none e = throw e
or_throw (some a) e = ok a

abbrev pub throw_if : Bool → Exception → Result (Unit {0})
throw_if b e = if b then throw e else ok tt

pub Result-cases :
    {A : Type 0} (r : Result A) → ((a : A) × (r ≡ ok a)) ⊎ ((e : Exception) × (r ≡ throw e))
Result-cases (ok a) = inl (a, refl)
Result-cases (throw e) = inr (e, refl)
