-- ===== src/Persistence/Engine/Timing.antt =====
-- `_instrument` of app/infrastructure/database/session.py: how long the statements of a connection
-- take. SQLAlchemy calls the second handler only for a statement that succeeds.
use secure_file_service.Prelude.{
  inr, inl, sym, if◌then◌else◌, ◌-◌, Bool, ◌++◌, ℕ, List, [], ◌∷◌, ◌≡◌, append_assoc, append-nil,
  arith, refl, Bool-cases,
}

-- The start times that a connection holds, the last one first, and the durations that were
-- observed, in order.
pub record Timings : Type 0 where
  pub query_start : List ℕ
  pub observed : List ℕ

-- `_before`
unfoldable pub before_execute : ℕ → Timings → Timings
before_execute now t = record t { query_start = now ∷ t.query_start }

-- `starts.pop()`, if there is a start
abbrev pop_start : ℕ → List ℕ → List ℕ → Timings
pop_start now [] observed = record { query_start = []; observed = observed }
pop_start now (start ∷ starts) observed = record {
  query_start = starts;
  observed = observed ++ (now - start) ∷ [];
}

-- `_after`
unfoldable pub after_execute : ℕ → Timings → Timings
after_execute now t = pop_start now t.query_start t.observed

-- One statement: the readings of the clock in the two handlers, and whether it succeeds.
pub record Statement : Type 0 where
  pub start : ℕ
  pub finish : ℕ
  pub succeeds : Bool

unfoldable pub execute_statement : Statement → Timings → Timings
execute_statement s t =
    let u = before_execute s.start t in if s.succeeds then after_execute s.finish u else u

-- The statements of one connection, in the order they run.
unfoldable pub execute_all : List Statement → Timings → Timings
execute_all [] t = t
execute_all (s ∷ ss) t = execute_all ss (execute_statement s t)

-- What should be observed, and what should not be kept.
unfoldable pub durations : List Statement → List ℕ
durations [] = []
durations (s ∷ ss) =
    let rest = durations ss in if s.succeeds then (s.finish - s.start) ∷ rest else rest

unfoldable pub unfinished : List Statement → List ℕ
unfinished [] = []
unfinished (s ∷ ss) = let rest = unfinished ss in if s.succeeds then rest else s.start ∷ rest

-- The elements of the first list on top of the second, the last one uppermost.
abbrev push_all : List ℕ → List ℕ → List ℕ
push_all [] below = below
push_all (n ∷ ns) below = push_all ns (n ∷ below)

-- Every statement that succeeds is observed, in the order in which the statements run, with exactly
-- the time between its two handlers, also after statements that failed; and each statement that
-- failed leaves its start with the connection, on top of those that were there.
pub execute_all_lem :
    (ss : List Statement) (t : Timings)
    → ((execute_all ss t).observed ≡ t.observed ++ durations ss)
      × ((execute_all ss t).query_start ≡ push_all (unfinished ss) t.query_start)
unfolding execute_all execute_statement before_execute after_execute durations unfinished
execute_all_lem [] t = (sym (append-nil t.observed), refl)
execute_all_lem (s ∷ ss) t =
    let (o, q) = execute_all_lem ss (execute_statement s t) in
    elim (Bool-cases s.succeeds) [
      | inl e ↦
          ground
            (arith, e, o, q, append_assoc t.observed ((s.finish - s.start) ∷ []) (durations ss))
      | inr e ↦ ground (arith, e, o, q)
    ]
