-- ===== src/Domain/Ttl.antt =====
-- The life time of links: `validate_ttl`, `expiry_for` and `is_expired` of
-- app/domain/files/services.py.
use secure_file_service.Prelude.{
  ℕ, ◌+◌, ◌*◌, ◌/◌, ◌≤◌, ◌≡◌, ◌↔◌, Bool, true, ◌||◌, Option, none, some, ltb, leb, if◌then◌else◌,
  arith,
}
use secure_file_service.Prelude.Int.{ℤ, pos, pos_part, ltb_ℤ}
use secure_file_service.Prelude.Results.{Result, ok, err}
use secure_file_service.Domain.Entities.{Datetime}
use secure_file_service.Domain.Errors.{DomainError, invalid_ttl, Exception, overflow_error}

abbrev pub requested_ttl : Option ℤ → ℕ → ℤ
requested_ttl none default = pos default
requested_ttl (some ttl) default = ttl

-- The result is at least 1, so it is returned as a natural number.
unfoldable pub validate_ttl : Option ℤ → ℕ → ℕ → Result DomainError ℕ
validate_ttl ttl_seconds default maximum =
    let ttl = requested_ttl ttl_seconds default in
    if ltb_ℤ ttl (pos 1) || ltb_ℤ (pos maximum) ttl
    then err (invalid_ttl ttl maximum)
    else ok (pos_part ttl)

abbrev pub microseconds : ℕ
microseconds = 1000000

-- `datetime.max` in UTC, 9999-12-31T23:59:59.999999.
abbrev pub datetime_max : Datetime
datetime_max = 253402300799999999

-- `now + timedelta(seconds=ttl)` raises OverflowError past the last datetime.
unfoldable pub expiry_for : Datetime → ℕ → Result Exception Datetime
expiry_for now ttl_seconds =
    let at = now + ttl_seconds * microseconds in
    if ltb datetime_max at then err overflow_error else ok at

-- `int(at.timestamp())`
abbrev pub timestamp : Datetime → ℕ
timestamp at = at / microseconds

unfoldable pub is_expired : ℕ → Datetime → Bool
is_expired expires_at_epoch now = leb expires_at_epoch (timestamp now)

-- `validate_ttl` accepts exactly the TTLs, requested or by default, from 1 to the maximum, and
-- returns them unchanged.
pub validate_ttl_iff :
    (requested : Option ℤ) (default maximum ttl : ℕ)
    → (validate_ttl requested default maximum ≡ ok ttl)
      ↔ ((requested_ttl requested default ≡ pos ttl) × (1 ≤ ttl) × (ttl ≤ maximum))
unfolding validate_ttl
validate_ttl_iff requested default maximum ttl = (λ h. ground arith, λ h. ground arith)

expiry_for-eq :
    (issued ttl : ℕ) {expires : Datetime}
    → expiry_for issued ttl ≡ ok expires
    → expires ≡ issued + ttl * microseconds
unfolding expiry_for
expiry_for-eq issued ttl h = ground arith

-- A link that is issued at one time expires exactly when its TTL in whole seconds has passed: at
-- any later time it is expired if and only if at least `ttl` seconds lie between the two times,
-- each cut to a whole second.
pub is_expired-expiry_for :
    (issued now : Datetime) (ttl : ℕ) {expires : Datetime}
    → expiry_for issued ttl ≡ ok expires
    → (is_expired (timestamp expires) now ≡ true) ↔ (timestamp issued + ttl ≤ timestamp now)
unfolding is_expired
is_expired-expiry_for issued now ttl {expires} h =
    let at : timestamp expires ≡ timestamp issued + ttl =
      omega (arith, expiry_for-eq issued ttl h) in
    (λ late. ground arith, λ late. ground arith)
