-- ===== src/Exec.antt =====
-- Methods that change a state and may raise. What was changed before a raise stays changed, so the
-- state comes back beside the exception.
use secure_file_service.Prelude.{arith, ◌≡◌, refl, ◌⊎◌, inl, inr}
use secure_file_service.Prelude.Results.{Result, ok, err}
use secure_file_service.Domain.Errors.{Exception}

abbrev pub Exec : Type 0 → Type 0 → Type 0
Exec W A = W → Result Exception A × W

module _ {W A : Type 0} where
  abbrev pub pure : A → Exec W A
  pure a w = (ok a, w)

  abbrev pub raise : Exception → Exec W A
  raise e w = (err e, w)

  -- A pure computation that may raise.
  abbrev pub lift : Result Exception A → Exec W A
  lift r w = (r, w)

  -- `try: m except Exception as e: handler(e)`
  abbrev pub try_except : Exec W A → (Exception → Exec W A) → Exec W A
  try_except m handler w = let (r, w') = m w in elim r [ ok a ↦ (ok a, w') | err e ↦ handler e w' ]

infixl 5 ◌>>=◌ ◌>>◌
abbrev pub ◌>>=◌ : {W A B : Type 0} → Exec W A → (A → Exec W B) → Exec W B
◌>>=◌ m f w = let (r, w') = m w in elim r [ ok a ↦ f a w' | err e ↦ (err e, w') ]

abbrev pub ◌>>◌ : {W A B : Type 0} → Exec W A → Exec W B → Exec W B
m >> k = m >>= λ _. k

-- How a call ends: with a value, at a state that is related to the one before, or by raising.
abbrev pub Outcome :
    {W A : Type 0} → (A → W → Type 0) → (W → Type 0) → Result Exception A × W → Type 0
Outcome good bad (ok a, w) = good a w
Outcome good bad (err e, w) = bad w

pub run-cases :
    {W A : Type 0} (r : Result Exception A × W)
    → ((a : A) × (w : W) × (r ≡ (ok a, w))) ⊎ ((e : Exception) × (w : W) × (r ≡ (err e, w)))
run-cases (ok a, w) = inl (a, w, refl)
run-cases (err e, w) = inr (e, w, refl)

module _ {W A : Type 0} (good : A → W → Type 0) (bad : W → Type 0) where
  pub Outcome-ok :
      (r : Result Exception A × W) (a : A) (w : W) → Outcome good bad r → r ≡ (ok a, w) → good a w
  Outcome-ok r a w h e = rw e at h

  pub Outcome-err :
      (r : Result Exception A × W) (x : Exception) (w : W)
      → Outcome good bad r
      → r ≡ (err x, w)
      → bad w
  Outcome-err r x w h e = rw e at h

-- A chain that returns has returned at each step.
pub bind-ok :
    {W A B : Type 0} (m : Exec W A) (f : A → Exec W B) (w x : W) (b : B)
    → (m >>= f) w ≡ (ok b, x)
    → (a : A) × (y : W) × (m w ≡ (ok a, y)) × (f a y ≡ (ok b, x))
bind-ok m f w x b h = elim (run-cases (m w)) [
  | inl (a, y, e) ↦ (a, y, e, ground (arith, e))
  | inr (r, y, e) ↦ absurd (ground (arith, e))
]
