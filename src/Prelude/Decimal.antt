-- ===== src/Prelude/Decimal.antt =====
-- `str(n)` of a natural number.
use secure_file_service.Prelude.{
  refl, All-append, if◌then◌else◌, inr, inl, ◌-◌, ◌%◌, ltb, ap, ◌+◌, ◌/◌, ◌*◌, ◌∙◌, Bool-cases, ◌≤◌,
  ◌∷◌, ◌<◌, ◌++◌, sym, [], All, arith, ℕ, zero, suc, ◌≡◌, Text,
}

-- Fuel n + 1 is enough, since each round divides the number by ten.
decimal_fuel : ℕ → ℕ → Text
decimal_fuel zero n = []
decimal_fuel (suc f) n =
    let rest = decimal_fuel f (n / 10) ++ (b'0' + n % 10) ∷ [] in
    if ltb n 10 then (b'0' + n) ∷ [] else rest

unfoldable pub decimal : ℕ → Text
unfolding decimal_fuel
decimal n = decimal_fuel (suc n) n

-- `int(s)` of a text of digits, from the left.
abbrev value_from : ℕ → Text → ℕ
value_from a [] = a
value_from a (c ∷ s) = value_from (a * 10 + (c - b'0')) s

unfoldable pub read_decimal : Text → ℕ
read_decimal s = value_from 0 s

value_from-append :
    (a : ℕ) (s : Text) (c : ℕ) → value_from a (s ++ c ∷ []) ≡ value_from a s * 10 + (c - b'0')
value_from-append a [] c = refl
value_from-append a (d ∷ s) c = value_from-append (a * 10 + (d - b'0')) s c

value_from-decimal_fuel : (f n : ℕ) → n < f → value_from 0 (decimal_fuel f n) ≡ n
unfolding decimal_fuel
value_from-decimal_fuel zero n h = absurd (omega arith)
value_from-decimal_fuel (suc f) n h = elim (Bool-cases (ltb n 10)) [
  | inl small ↦ rw small (omega arith)
  | inr large ↦
      let big : 10 ≤ n = ground arith in
      rw (large, value_from-append)
        (omega (arith, value_from-decimal_fuel f (n / 10) (omega arith)))
]

-- Reading back the digits of a number gives the number.
pub read_decimal-decimal : (n : ℕ) → read_decimal (decimal n) ≡ n
unfolding read_decimal decimal
read_decimal-decimal n = value_from-decimal_fuel (suc n) n (omega arith)

pub decimal-injective : (m n : ℕ) → decimal m ≡ decimal n → m ≡ n
decimal-injective m n e = sym (read_decimal-decimal m) ∙ ap read_decimal e ∙ read_decimal-decimal n

abbrev pub IsDigit : ℕ → Type 0
IsDigit c = (b'0' ≤ c) × (c ≤ b'9')

decimal_fuel-All : (f n : ℕ) → All IsDigit (decimal_fuel f n)
unfolding decimal_fuel
decimal_fuel-All zero n = tt
decimal_fuel-All (suc f) n = elim (Bool-cases (ltb n 10)) [
  | inl small ↦ rw small (ground arith)
  | inr large ↦
      rw large
        (All-append IsDigit (decimal_fuel f (n / 10)) _ (decimal_fuel-All f (n / 10)) (omega arith))
]

pub decimal-All : (n : ℕ) → All IsDigit (decimal n)
unfolding decimal
decimal-All n = decimal_fuel-All (suc n) n
