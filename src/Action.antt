-- ===== src/Action.antt =====
-- Methods that change a state and may return an error. What was written before an error was
-- returned stays written, so the state comes back beside the error too.
use skillsphere_api.Common.{◌≡◌, refl, Bool, true, false}
use skillsphere_api.Errors.{Error, Result, ok, err}

abbrev pub Action {ℓ} : Type ℓ → Type ℓ → Type ℓ
Action S A = S → Result A × S

module _ {ℓ} {S A : Type ℓ} where
  -- `return a, nil`
  abbrev pub pure : A → Action S A
  pure a s = (ok a, s)

  -- `return nil, e`
  abbrev pub raise : Error → Action S A
  raise e s = (err e, s)

  -- A call that reads and changes no state.
  abbrev pub lift : Result A → Action S A
  lift r s = (r, s)

  -- The result of a call, error or value, for code that inspects the error itself.
  abbrev pub attempt : Action S A → Action S (Result A)
  attempt m s = let (r, s') = m s in (ok r, s')

-- `if c { return e }`
abbrev pub raise_if {ℓ} : {S : Type ℓ} → Bool → Error → Action S (Unit {ℓ})
raise_if true e = raise e
raise_if false e = pure tt

module _ {ℓ} {S A B : Type ℓ} where
  -- `if err != nil { return err }`
  abbrev pub continue : Result A → (A → Action S B) → Action S B
  continue (ok a) f s = f a s
  continue (err e) f s = (err e, s)

  infixl 5 ◌>>=◌ ◌>>◌
  abbrev pub ◌>>=◌ : Action S A → (A → Action S B) → Action S B
  ◌>>=◌ m f s = let (r, s') = m s in continue r f s'

  abbrev pub ◌>>◌ : Action S A → Action S B → Action S B
  m >> n = m >>= λ _. n

  >>=-inv :
      (r : Result A) (f : A → Action S B) (s : S) {b : B} {s' : S}
      → continue r f s ≡ (ok b, s')
      → (a : A) × (r ≡ ok a) × (f a s ≡ (ok b, s'))
  >>=-inv (ok a) f s h = (a, refl, h)
  >>=-inv (err e) f s h = cc

  -- A chain that succeeds has a first step that does.
  pub >>=-eq-ok :
      (m : Action S A) (f : A → Action S B) (s : S) {b : B} {s' : S}
      → (m >>= f) s ≡ (ok b, s')
      → (a : A) × (m s ≡ (ok a, (m s).1)) × (f a (m s).1 ≡ (ok b, s'))
  >>=-eq-ok m f s h = let (a, p, q) = >>=-inv (m s).0 f (m s).1 h in (a, λ i. (p i, (m s).1), q)
