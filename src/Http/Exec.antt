-- ===== src/Http/Exec.antt =====
-- Methods that change a state and may throw: what was written before a throw stays written.
use user_managed_access.Prelude.{Option, none, some, Bool, true, false, ◌≡◌, refl, arith}
use user_managed_access.Http.{Outcome, ok, fail, HttpError}

abbrev pub Exec {ℓ} : Type ℓ → Type ℓ → Type ℓ
Exec S A = S → Outcome A × S

module _ {ℓ} {S A : Type ℓ} where
  abbrev pub pure : A → Exec S A
  pure a s = (ok a, s)

  abbrev pub throw : HttpError → Exec S A
  throw e s = (fail e, s)

  abbrev pub lift : Outcome A → Exec S A
  lift r s = (r, s)

  abbrev pub gets : (S → A) → Exec S A
  gets f s = (ok (f s), s)

  abbrev pub or_throw : Option A → HttpError → Exec S A
  or_throw none e s = (fail e, s)
  or_throw (some a) e s = (ok a, s)

module _ {ℓ} {S A B : Type ℓ} where
  abbrev pub continue : Outcome A → (A → Exec S B) → Exec S B
  continue (ok a) f s = f a s
  continue (fail e) f s = (fail e, s)

  infixl 5 ◌>>=◌
  abbrev pub ◌>>=◌ : Exec S A → (A → Exec S B) → Exec S B
  ◌>>=◌ m f s = let (r, s') = m s in continue r f s'

module _ {S B : Type 0} where
  infixl 5 ◌>>◌
  abbrev pub ◌>>◌ : Exec S (Unit {0}) → Exec S B → Exec S B
  m >> n = m >>= λ _. n

module _ {S : Type 0} where
  abbrev pub modify : (S → S) → Exec S (Unit {0})
  modify f s = (ok tt, f s)

  abbrev pub require : Bool → HttpError → Exec S (Unit {0})
  require true e s = (ok tt, s)
  require false e s = (fail e, s)

-- A computation that succeeds does so step by step.
module _ {S A B : Type 0} where
  pub >>=-eq-ok :
      (m : Exec S A) (f : A → Exec S B) (s s' : S) (b : B)
      → (m >>= f) s ≡ (ok b, s')
      → (a : A) × (t : S) × (m s ≡ (ok a, t)) × (f a t ≡ (ok b, s'))
  >>=-eq-ok m f s s' b h = go (m s).0 refl h
    where
      go :
          (r : Outcome A)
          → (m s).0 ≡ r
          → continue r f (m s).1 ≡ (ok b, s')
          → (a : A) × (t : S) × (m s ≡ (ok a, t)) × (f a t ≡ (ok b, s'))
      go (ok a) e k = (a, (m s).1, λ i. (e i, (m s).1), k)
      go (fail x) e k = absurd (ground (arith, k))
