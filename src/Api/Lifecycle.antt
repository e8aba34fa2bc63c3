-- ===== src/Api/Lifecycle.antt =====
-- `build_lifespan` of app/core/lifecycle.py, as the steps that a process takes. Each step may raise;
-- logging is left out.
use secure_file_service.Api.Health.{run_checks, Probe}
use secure_file_service.Api.Health
use secure_file_service.Prelude.{
  sym, subst, ◌∙◌, ◌+◌, ap, refl, zero, ◌≢◌, inr, suc, inl, arith, Bool-cases, take, ◌≡◌, ◌++◌,
  ◌||◌, if◌then◌else◌, ℕ, List, Bool, [], ◌∷◌, true, false,
}

pub record ReadinessState : Type 0 where
  pub ready : Bool
  pub shutting_down : Bool

-- The steps in the order of the source.
pub data Step : Type 0 where
  signer_made authenticator_made engine_created storage_ready tracing_configured : Step
  marked_ready served marked_down engine_disposed : Step

-- What a step does to the flags.
unfoldable pub readiness_step : Step → ReadinessState → ReadinessState
readiness_step signer_made s = s
readiness_step authenticator_made s = s
readiness_step engine_created s = s
readiness_step storage_ready s = s
readiness_step tracing_configured s = s
readiness_step marked_ready s = record s { ready = true }
readiness_step served s = s
readiness_step marked_down s = record s { ready = false; shutting_down = true }
readiness_step engine_disposed s = s

-- `ReadinessState.__init__`
abbrev pub initial : ReadinessState
initial = record { ready = false; shutting_down = false }

unfoldable pub readiness_after : List Step → ReadinessState → ReadinessState
unfolding readiness_step
readiness_after [] s = s
readiness_after (step ∷ steps) s = readiness_after steps (readiness_step step s)

-- The steps up to the first one that raises, and whether all were taken.
unfoldable pub take_steps : (Step → Bool) → List Step → List Step × Bool
take_steps raises [] = ([], true)
take_steps raises (s ∷ ss) =
    let (rest, all) = take_steps raises ss in if raises s then ([], false) else (s ∷ rest, all)

-- Up to the `yield`.
abbrev pub startup : List Step
startup =
    signer_made ∷ authenticator_made ∷ engine_created ∷ storage_ready ∷ tracing_configured
    ∷ marked_ready ∷ []

-- The `yield`, which counts as taken however it ends, and the `finally` behind it.
abbrev pub shutdown : List Step
shutdown = marked_down ∷ engine_disposed ∷ []

unfoldable pub lifespan : (Step → Bool) → List Step
lifespan raises =
    let (started, all) = take_steps raises startup in
    let (stopped, done) = take_steps raises shutdown in
    if all then started ++ served ∷ stopped else started

abbrev pub step_eq : Step → Step → Bool
step_eq signer_made signer_made = true
step_eq authenticator_made authenticator_made = true
step_eq engine_created engine_created = true
step_eq storage_ready storage_ready = true
step_eq tracing_configured tracing_configured = true
step_eq marked_ready marked_ready = true
step_eq served served = true
step_eq marked_down marked_down = true
step_eq engine_disposed engine_disposed = true
step_eq _ _ = false

abbrev pub is_taken : Step → List Step → Bool
is_taken step [] = false
is_taken step (s ∷ ss) = step_eq s step || is_taken step ss

-- All steps, if none raises.
abbrev whole : List Step
whole = startup ++ served ∷ shutdown

-- The first steps of a sequence.
IsPrefix-take_steps :
    (raises : Step → Bool) (steps : List Step)
    → (n : ℕ) × ((take_steps raises steps).0 ≡ take n steps)
      × ((take_steps raises steps).1 ≡ true → (take_steps raises steps).0 ≡ steps)
unfolding take_steps
IsPrefix-take_steps raises [] = (0, refl, λ e. refl)
IsPrefix-take_steps raises (s ∷ ss) =
    let (n, front, all) = IsPrefix-take_steps raises ss in
    elim (Bool-cases (raises s)) [
      | inl stops ↦ (0, ground (arith, stops), λ e. absurd (ground (arith, stops, e)))
      | inr goes ↦ (suc n, ground (arith, goes, front), λ e. ground (arith, goes, all, e))
    ]

-- What holds at a moment of the life of a process.
abbrev pub IsSafeMoment : List Step → Type 0
IsSafeMoment steps =
    (readiness_after steps initial).ready ≡ true
    → (is_taken engine_created steps ≡ true)
      × (is_taken storage_ready steps ≡ true)
      × (is_taken engine_disposed steps ≡ false)
      × ((readiness_after steps initial).shutting_down ≡ false)

whole-IsSafeMoment : (n : ℕ) → IsSafeMoment (take n whole)
unfolding readiness_after
whole-IsSafeMoment zero e = absurd (ground (arith, e))
whole-IsSafeMoment (suc zero) e = absurd (ground (arith, e))
whole-IsSafeMoment (suc (suc zero)) e = absurd (ground (arith, e))
whole-IsSafeMoment (suc (suc (suc zero))) e = absurd (ground (arith, e))
whole-IsSafeMoment (suc (suc (suc (suc zero)))) e = absurd (ground (arith, e))
whole-IsSafeMoment (suc (suc (suc (suc (suc zero))))) e = absurd (ground (arith, e))
whole-IsSafeMoment (suc (suc (suc (suc (suc (suc zero)))))) e = (refl, refl, refl, refl)
whole-IsSafeMoment (suc (suc (suc (suc (suc (suc (suc zero))))))) e = (refl, refl, refl, refl)
whole-IsSafeMoment (suc (suc (suc (suc (suc (suc (suc (suc n)))))))) e = absurd (late n e)
  where
    late :
        (n : ℕ)
        → (readiness_after
            (take (suc (suc (suc (suc (suc (suc (suc (suc n)))))))) whole)
            initial).ready
          ≢ true
    late zero h = ground (arith, h)
    late (suc zero) h = ground (arith, h)
    late (suc (suc n)) h = ground (arith, h)

IsPrefix-take : (m n : ℕ) (xs : List Step) → (k : ℕ) × (take m (take n xs) ≡ take k xs)
IsPrefix-take zero n xs = (0, refl)
IsPrefix-take (suc m) zero xs = (0, refl)
IsPrefix-take (suc m) (suc n) [] = (0, refl)
IsPrefix-take (suc m) (suc n) (x ∷ xs) =
    let (k, e) = IsPrefix-take m n xs in (suc k, ap (λ ys. x ∷ ys) e)

IsPrefix-startup : (n : ℕ) → (k : ℕ) × (take n startup ≡ take k whole)
IsPrefix-startup zero = (0, refl)
IsPrefix-startup (suc zero) = (1, refl)
IsPrefix-startup (suc (suc zero)) = (2, refl)
IsPrefix-startup (suc (suc (suc zero))) = (3, refl)
IsPrefix-startup (suc (suc (suc (suc zero)))) = (4, refl)
IsPrefix-startup (suc (suc (suc (suc (suc zero))))) = (5, refl)
IsPrefix-startup (suc (suc (suc (suc (suc (suc zero)))))) = (6, refl)
IsPrefix-startup (suc (suc (suc (suc (suc (suc (suc n))))))) = (6, refl)

IsPrefix-lifespan : (raises : Step → Bool) → (k : ℕ) × (lifespan raises ≡ take k whole)
unfolding lifespan
IsPrefix-lifespan raises =
    let (n, front, all) = IsPrefix-take_steps raises startup in
    let (k, back, done) = IsPrefix-take_steps raises shutdown in
    let (j, cut) = IsPrefix-startup n in
    elim (Bool-cases (take_steps raises startup).1) [
      | inl up ↦ (7 + k, ground (arith, up, all up, back))
      | inr down ↦ (j, ground (arith, down, front, cut))
    ]

-- The readiness probe of a process with these flags.
abbrev pub probe_of : ReadinessState → Bool → Bool → Probe
probe_of s database_answers storage_answers = record {
  ready = s.ready;
  shutting_down = s.shutting_down;
  database_answers = database_answers;
  storage_answers = storage_answers;
}

probe-ready : (p : Probe) → (Health.ready p).status_code ≡ 200 → p.ready ≡ true
unfolding Health.ready run_checks
probe-ready p h = elim (Bool-cases p.ready) [
  | inl up ↦ up
  | inr down ↦ absurd (ground (arith, down, h))
]

-- Whatever step of start-up or shutdown raises: at every moment at which the readiness probe answers
-- 200, the engine has been created and not disposed of, the storage has been found writable, and
-- the shutdown has not begun.
pub lifespan-IsSafe :
    (raises : Step → Bool) (moment : ℕ) (database_answers storage_answers : Bool)
    → (Health.ready (
        probe_of
          (readiness_after (take moment (lifespan raises)) initial)
          database_answers
          storage_answers)).status_code
      ≡ 200
    → (is_taken engine_created (take moment (lifespan raises)) ≡ true)
      × (is_taken storage_ready (take moment (lifespan raises)) ≡ true)
      × (is_taken engine_disposed (take moment (lifespan raises)) ≡ false)
      × ((readiness_after (take moment (lifespan raises)) initial).shutting_down ≡ false)
lifespan-IsSafe raises moment database_answers storage_answers h =
    let (k, whole_cut) = IsPrefix-lifespan raises in
    let (j, cut) = IsPrefix-take moment k whole in
    let prefix : take moment (lifespan raises) ≡ take j whole = ap (take moment) whole_cut ∙ cut in
    subst IsSafeMoment (sym prefix) (whole-IsSafeMoment j) (
      probe-ready
        (probe_of (readiness_after (take moment (lifespan raises)) initial) database_answers
          storage_answers)
        h)
