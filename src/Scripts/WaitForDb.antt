-- ===== src/Scripts/WaitForDb.antt =====
-- scripts/wait_for_db.py: trying to connect to the database until it works or the time is over. The
-- database and the clock are what the attempts bring; times are in units of the clock.
use secure_file_service.Config.{normalize_database_url}
use secure_file_service.Prelude.{
  Option-cases, codes, starts_with, leb, if◌then◌else◌, ◌*◌, Option, Bool, Text, ℕ, zero, suc, none,
  some, [], ◌∷◌, ◌+◌, ◌≤◌, ◌<◌, ◌≡◌, true, false, arith, Bool-cases, inl, inr,
}

-- One attempt: how long it takes, if it ever ends, whether the database answers, and by how much the
-- sleep after it is longer than it was asked for.
pub record Attempt : Type 0 where
  pub takes : Option ℕ
  pub answers : Bool
  pub oversleeps : ℕ

-- The ends of `main`, with the number of the last attempt. In an attempt that never ends `main` hangs:
-- the time limit is only looked at between the attempts.
pub data End : Type 0 where
  no_url : End
  ready not_reachable hangs : ℕ → End

-- The exit codes: a script that hangs has none.
unfoldable pub exit_code : End → Option ℕ
exit_code no_url = some 2
exit_code (ready attempt) = some 0
exit_code (not_reachable attempt) = some 1
exit_code (hangs attempt) = none

module _ (attempts : ℕ → Attempt) (interval deadline : ℕ) where
  -- The `while` loop, with the clock and the attempts made so far.
  unfoldable pub wait : ℕ → ℕ → ℕ → Option End
  wait zero now attempt = none
  wait (suc fuel) now attempt =
      let a = attempts (suc attempt) in
      elim a.takes [
        | none ↦ some (hangs (suc attempt))
        | some time ↦
            let failed = now + time in
            let rest = wait fuel (failed + interval + a.oversleeps) (suc attempt) in
            if a.answers
            then some (ready (suc attempt))
            else if leb deadline failed
            then some (not_reachable (suc attempt))
            else rest
      ]

-- `{"connect_timeout": 3} if url.startswith("postgresql") else {}`
unfoldable pub connect_timeout : Text → Option ℕ
connect_timeout url = if starts_with (codes "postgresql") url then some 3 else none

-- What the engine for the value of DATABASE_URL meets.
unfoldable pub engine_for : (Text → Option ℕ → ℕ → Attempt) → Text → ℕ → Attempt
engine_for engine raw = let url = normalize_database_url raw in engine url (connect_timeout url)

-- `main`, with the fuel for its loop, the value of DATABASE_URL and what an engine for a URL with a
-- timeout for connecting meets.
unfoldable pub main : ℕ → (Text → Option ℕ → ℕ → Attempt) → ℕ → ℕ → ℕ → Option Text → Option End
main fuel engine timeout interval start none = some no_url
main fuel engine timeout interval start (some []) = some no_url
main fuel engine timeout interval start (some (c ∷ raw)) =
    wait (engine_for engine (c ∷ raw)) interval (start + timeout) fuel start 0

module _ (attempts : ℕ → Attempt) (interval deadline start : ℕ) where
  -- The time that an attempt takes, if it ends.
  abbrev time : ℕ → ℕ
  time n = elim (attempts n).takes [ some t ↦ t | none ↦ 0 ]

  -- The clock when the attempt behind the first n begins, after as many failures and sleeps.
  unfoldable pub begins : ℕ → ℕ
  begins zero = start
  begins (suc n) = begins n + time (suc n) + interval + (attempts (suc n)).oversleeps

  -- The attempt ends.
  abbrev Finishes : ℕ → Type 0
  Finishes n = (attempts n).takes ≡ some (time n)

  -- The first n attempts have failed before the deadline.
  abbrev pub IsInVain : ℕ → Type 0
  IsInVain zero = Unit
  IsInVain (suc n) =
      IsInVain n
      × Finishes (suc n)
      × ((attempts (suc n)).answers ≡ false)
      × (begins n + time (suc n) < deadline)

  -- What the ends of the loop mean.
  abbrev pub IsEnd : End → Type 0
  IsEnd no_url = ⊥
  IsEnd (ready zero) = ⊥
  IsEnd (ready (suc n)) = IsInVain n × Finishes (suc n) × ((attempts (suc n)).answers ≡ true)
  IsEnd (not_reachable zero) = ⊥
  IsEnd (not_reachable (suc n)) =
      IsInVain n
      × Finishes (suc n)
      × ((attempts (suc n)).answers ≡ false)
      × (deadline ≤ begins n + time (suc n))
  IsEnd (hangs zero) = ⊥
  IsEnd (hangs (suc n)) = IsInVain n × ((attempts (suc n)).takes ≡ none)

  abbrev Ends : ℕ → ℕ → Type 0
  Ends fuel n =
      (end : End) × (wait attempts interval deadline fuel (begins n) n ≡ some end) × IsEnd end

  -- One attempt, when the rest of the loop ends wherever there is a rest.
  wait-step : (fuel n : ℕ) → (IsInVain (suc n) → Ends fuel (suc n)) → IsInVain n → Ends (suc fuel) n
  unfolding wait begins
  wait-step fuel n later vain =
      let a = attempts (suc n) in
      elim (Option-cases a.takes) [
        | inl never ↦ (hangs (suc n), ground (arith, never), (vain, never))
        | inr (t, takes) ↦
            let ended : Finishes (suc n) = ground (arith, takes) in
            elim (Bool-cases a.answers) [
              | inl good ↦ (ready (suc n), ground (arith, takes, good), (vain, ended, good))
              | inr bad ↦ elim (Bool-cases (leb deadline (begins n + t))) [
                | inl late ↦ (
                  not_reachable (suc n),
                  ground (arith, takes, bad, late),
                  (vain, ended, bad, ground (arith, takes, late)),
                )
                | inr early ↦
                    let (end, e, is_end) = later (vain, ended, bad, ground (arith, takes, early)) in
                    (end, ground (arith, takes, bad, early, e), is_end)
              ]
            ]
      ]

  -- With fuel to reach the deadline by the sleeps alone, the loop ends.
  pub wait-Ends :
      (fuel n : ℕ) → IsInVain n → deadline ≤ begins n + fuel * interval → Ends (suc fuel) n
  unfolding begins
  wait-Ends zero n vain enough = wait-step 0 n (λ v. absurd (ground (arith, enough, v.3))) vain
  wait-Ends (suc fuel) n vain enough =
      wait-step (suc fuel) n (λ v. wait-Ends fuel (suc n) v (omega arith)) vain

-- With a URL in DATABASE_URL and an interval of at least one unit, no more than timeout + 1 attempts
-- are begun, for every behaviour of the database. The script ends with exit code 0 after the first
-- attempt that the database answers, or with exit code 1 after an attempt that ends unanswered at or
-- behind the deadline, or it hangs in an attempt that never ends; every attempt before that one ended
-- unanswered before the deadline.
pub main-Ends :
    (engine : Text → Option ℕ → ℕ → Attempt) (timeout interval start c : ℕ) (raw : Text)
    → 1 ≤ interval
    → (end : End) × (main (suc timeout) engine timeout interval start (some (c ∷ raw)) ≡ some end)
      × IsEnd (engine_for engine (c ∷ raw)) interval (start + timeout) start end
unfolding main begins
main-Ends engine timeout interval start c raw positive =
    wait-Ends (engine_for engine (c ∷ raw)) interval (start + timeout) start timeout 0 tt
      (grind arith)
