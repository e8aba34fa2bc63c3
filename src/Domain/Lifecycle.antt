-- ===== src/Domain/Lifecycle.antt =====
-- app/domain/files/state.py: the state machine of a file.
use secure_file_service.Prelude.{
  ◌≡◌, refl, Bool, true, false, List, [], ◌∷◌, ◌||◌, not, if◌then◌else◌, arith, ◌↔◌, ◌≢◌,
}
use secure_file_service.Prelude.Results.{Result, ok, err}
use secure_file_service.Domain.Entities.{FileStatus, available, deleted}
use secure_file_service.Domain.Errors.{DomainError, invalid_state_transition}

abbrev pub status_eq : FileStatus → FileStatus → Bool
status_eq available available = true
status_eq deleted deleted = true
status_eq _ _ = false

abbrev transitions : FileStatus → List FileStatus
transitions available = deleted ∷ []
transitions deleted = []

-- `target in _TRANSITIONS[current]`
abbrev member : FileStatus → List FileStatus → Bool
member s [] = false
member s (t ∷ ts) = status_eq s t || member s ts

unfoldable pub can_transition : FileStatus → FileStatus → Bool
can_transition current target = member target (transitions current)

unfoldable pub transition : FileStatus → FileStatus → Result DomainError FileStatus
unfolding can_transition
transition current target =
    if not (can_transition current target)
    then err (invalid_state_transition current target)
    else ok target

-- The life of a file as the states that accepted transitions pass through.
pub data Reaches (s : FileStatus) : FileStatus → Type 0 where
  here : Reaches s s
  next :
      {t v : FileStatus} (target : FileStatus)
      → Reaches s t
      → transition t target ≡ ok v
      → Reaches s v

transition-from_deleted : (t v : FileStatus) → transition deleted t ≢ ok v
unfolding transition
transition-from_deleted t v h = ground arith

transition-available : (t v : FileStatus) → transition available t ≡ ok v → v ≡ deleted
unfolding transition
transition-available t v h = ground arith

-- Deletion is final: no chain of accepted transitions that starts at a deleted file leads to any
-- state but deleted.
pub deleted_final : {s : FileStatus} → Reaches deleted s → s ≡ deleted
deleted_final here = refl
deleted_final (next target r e) =
    let same = deleted_final r in absurd (transition-from_deleted target _ (rw same at e))

-- A transition is accepted exactly from available to deleted, and then gives its target; every
-- other pair raises InvalidStateTransition with that pair.
pub transition_iff :
    (s t : FileStatus)
    → ((transition s t ≡ ok t) ↔ ((s ≡ available) × (t ≡ deleted)))
      × (¬ ((s ≡ available) × (t ≡ deleted)) → transition s t ≡ err (invalid_state_transition s t))
unfolding transition
transition_iff available available = ((λ h. ground arith, λ h. ground arith), λ h. refl)
transition_iff available deleted = ((λ h. (refl, refl), λ h. refl), λ h. absurd (h (refl, refl)))
transition_iff deleted available = ((λ h. ground arith, λ h. ground arith), λ h. refl)
transition_iff deleted deleted = ((λ h. ground arith, λ h. ground arith), λ h. refl)
