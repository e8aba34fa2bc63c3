-- ===== src/Prelude/TextLaws.antt =====
-- What the methods of Prelude/Strings keep and establish, code point by code point.
use secure_file_service.Prelude.{
  All-append_left, All-append_right, length, length-append, ap, ◌+◌, ℕ, ◌≡◌, refl, ◌≢◌, Bool, true,
  false, none, some, List, [], ◌∷◌, ◌++◌, Text, All, keep, strip_start, strip_end, strip,
  cons_unless, split_last, Bool-cases, Option-cases, arith, inl, inr,
}

module _ {ℓ κ} {A : Type ℓ} (P : A → Type κ) (p : A → Bool) where
  pub All-keep : (xs : List A) → All P xs → All P (keep p xs)
  All-keep [] h = tt
  All-keep (x ∷ xs) (k, h) = elim (Bool-cases (p x)) [
    | inl e ↦ rw e (k, All-keep xs h)
    | inr e ↦ rw e (All-keep xs h)
  ]

module _ {ℓ} {A : Type ℓ} (p : A → Bool) where
  pub keep-All : (xs : List A) → All (λ x. p x ≡ true) (keep p xs)
  keep-All [] = tt
  keep-All (x ∷ xs) = elim (Bool-cases (p x)) [
    | inl e ↦ rw e (e, keep-All xs)
    | inr e ↦ rw e (keep-All xs)
  ]

  pub keep_of_All : (xs : List A) → All (λ x. p x ≡ true) xs → keep p xs ≡ xs
  keep_of_All [] h = refl
  keep_of_All (x ∷ xs) (e, h) = rw (e, keep_of_All xs h)

module _ (P : ℕ → Type 0) (p : ℕ → Bool) where
  pub All-strip_start : (s : Text) → All P s → All P (strip_start p s)
  unfolding strip_start
  All-strip_start [] h = tt
  All-strip_start (c ∷ s) (k, h) = elim (Bool-cases (p c)) [
    | inl e ↦ rw e (All-strip_start s h)
    | inr e ↦ rw e (k, h)
  ]

  All-cons_unless : (b : Bool) (c : ℕ) (s : Text) → P c → All P s → All P (cons_unless b c s)
  All-cons_unless b c (d ∷ s) k h = (k, h)
  All-cons_unless true c [] k h = tt
  All-cons_unless false c [] k h = (k, tt)

  pub All-strip_end : (s : Text) → All P s → All P (strip_end p s)
  unfolding strip_end
  All-strip_end [] h = tt
  All-strip_end (c ∷ s) (k, h) = All-cons_unless (p c) c (strip_end p s) k (All-strip_end s h)

  pub All-strip : (s : Text) → All P s → All P (strip p s)
  unfolding strip
  All-strip s h = All-strip_end (strip_start p s) (All-strip_start s h)

pub split_last-none : (sep : ℕ) (s : Text) → split_last sep s ≡ none → All (λ c. c ≢ sep) s
unfolding split_last
split_last-none sep [] h = tt
split_last-none sep (c ∷ s) h = ground (arith, split_last-none sep s)

-- A text is its parts round the last separator, and the part behind it holds no separator.
pub split_last-append :
    (sep : ℕ) (s a b : Text)
    → split_last sep s ≡ some (a, b)
    → (s ≡ a ++ sep ∷ b) × All (λ c. c ≢ sep) b
unfolding split_last
split_last-append sep [] a b h = cc
split_last-append sep (c ∷ s) a b h = elim (Option-cases (split_last sep s)) [
  | inl e ↦ let facts = split_last-none sep s e in ground arith
  | inr ((x, y), e) ↦ let (joined, clean) = split_last-append sep s x y e in ground arith
]

pub All-split_last :
    (P : ℕ → Type 0) (sep : ℕ) (s a b : Text)
    → split_last sep s ≡ some (a, b)
    → All P s
    → All P a × P sep × All P b
All-split_last P sep s a b e h =
    let k : All P (a ++ sep ∷ b) = rw (split_last-append sep s a b e).0 at h in
    (
      All-append_left P a (sep ∷ b) k,
      (All-append_right P a (sep ∷ b) k).0,
      (All-append_right P a (sep ∷ b) k).1,
    )

pub length-split_last :
    (sep : ℕ) (s a b : Text) → split_last sep s ≡ some (a, b) → length s ≡ length a + 1 + length b
length-split_last sep s a b e = omega (
  arith,
  ap (λ (t : Text). length t) (split_last-append sep s a b e).0,
  length-append a (sep ∷ b),
)
