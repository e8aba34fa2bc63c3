-- ===== src/Api/Health.antt =====
-- The readiness probe of app/health/ready.py. The checks of the database and the storage are
-- inputs: `true` for a check that returns, `false` for one that raises.
use secure_file_service.Prelude.Dict.{Dict}
use secure_file_service.Prelude.{
  arith, inl, inr, Bool-cases, [], ◌∷◌, ◌⊎◌, ◌&&◌, All, codes, not, ◌↔◌, if◌then◌else◌, ℕ, Text,
  Bool, ◌≡◌,
}

pub record Probe : Type 0 where
  pub ready : Bool
  pub shutting_down : Bool
  pub database_answers : Bool
  pub storage_answers : Bool

abbrev pub startup_check : Probe → Text
startup_check p =
    if not p.ready
    then (if p.shutting_down then codes "shutting_down" else codes "starting")
    else codes "ok"

abbrev pub dependency_check : Bool → Text
dependency_check answers = if answers then codes "ok" else codes "unavailable"

-- `_run_checks`: every check runs, whatever the others gave.
unfoldable pub run_checks : Probe → Bool × Dict Text
run_checks p = (
  p.ready && (p.database_answers && p.storage_answers),
  (codes "startup", startup_check p)
      ∷ (codes "database", dependency_check p.database_answers)
      ∷ (codes "storage", dependency_check p.storage_answers)
      ∷ [],
)

pub record HealthResponse : Type 0 where
  pub status_code : ℕ
  pub status : Text
  pub checks : Dict Text

unfoldable pub ready : Probe → HealthResponse
ready p =
    let (healthy, checks) = run_checks p in
    if healthy
    then record { status_code = 200; status = codes "ok"; checks = checks }
    else record { status_code = 503; status = codes "unavailable"; checks = checks }

-- The probe answers 200 exactly if each of its three checks reads "ok", and 503 otherwise.
pub ready_iff :
    (p : Probe)
    → ((ready p).status_code ≡ 200 ↔ All (λ (c : Text × Text). c.1 ≡ codes "ok") (ready p).checks)
      × (((ready p).status_code ≡ 200) ⊎ ((ready p).status_code ≡ 503))
unfolding ready run_checks
ready_iff p = elim (Bool-cases p.ready) [
  | inr down ↦ elim (Bool-cases p.shutting_down) [
    | inl x ↦ (
      ((λ h. absurd (ground (arith, down, x, h))), (λ h. absurd (ground (arith, down, x, h)))),
      ground (arith, down),
    )
    | inr x ↦ (
      ((λ h. absurd (ground (arith, down, x, h))), (λ h. absurd (ground (arith, down, x, h)))),
      ground (arith, down),
    )
  ]
  | inl up ↦ elim (Bool-cases p.database_answers) [
    | inr x ↦ (
      ((λ h. absurd (ground (arith, up, x, h))), (λ h. absurd (ground (arith, up, x, h)))),
      ground (arith, up, x),
    )
    | inl x ↦ elim (Bool-cases p.storage_answers) [
      | inr y ↦ (
        ((λ h. absurd (ground (arith, up, x, y, h))), (λ h. absurd (ground (arith, up, x, y, h)))),
        ground (arith, up, x, y),
      )
      | inl y ↦ (
        ((λ h. ground (arith, up, x, y)), (λ h. ground (arith, up, x, y))),
        ground (arith, up, x, y),
      )
    ]
  ]
]
