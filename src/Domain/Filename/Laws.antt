-- ===== src/Domain/Filename/Laws.antt =====
-- What a sanitised file name can hold.
use secure_file_service.Prelude.{
  ◌||◌, ap, ℕ, ◌+◌, ◌-◌, ◌≤◌, ◌<◌, ◌≡◌, ◌≢◌, refl, true, not, Option, some, [], ◌∷◌, inl, inr, Text,
  codes, text_eq, text_eq_iff, is_space, split_last, keep, take, map, length, length-append,
  length-take_of_le, All, All-append, All-take, leb, ltb, ◌==◌, Bool-cases, Option-cases, arith,
  is_truthy,
}
use secure_file_service.Prelude.TextLaws.{
  All-strip, split_last-none, split_last-append, All-split_last, length-split_last,
}
use secure_file_service.Domain.Filename.{
  default_filename, cut_at, is_control, slash_of, basename, clean, shorten, finish,
  sanitize_filename, text_or_empty,
}

-- No slash, no backslash, no control character.
abbrev pub IsSafeChar : ℕ → Type 0
IsSafeChar c = (32 ≤ c) × (c ≢ 0x7f) × (c ≢ b'/') × (c ≢ 0x5c)

slash_of-ne : (c : ℕ) → slash_of c ≢ 0x5c
slash_of-ne c = ground arith

All-slash_of : (s : Text) → All (λ c. c ≢ 0x5c) (map slash_of s)
All-slash_of [] = tt
All-slash_of (c ∷ s) = (slash_of-ne c, All-slash_of s)

basename-no_slash : (s : Text) → All (λ c. c ≢ b'/') (basename s)
unfolding basename
basename-no_slash s = elim (Option-cases (split_last b'/' s)) [
  | inl e ↦ rw (e, basename) (split_last-none b'/' s e)
  | inr ((a, b), e) ↦ rw (e, basename) (split_last-append b'/' s a b e).1
]

All-basename : (P : ℕ → Type 0) (s : Text) → All P s → All P (basename s)
unfolding basename
All-basename P s h = elim (Option-cases (split_last b'/' s)) [
  | inl e ↦ rw (e, basename) h
  | inr ((a, b), e) ↦ rw (e, basename) (All-split_last P b'/' s a b e h).2
]

safe_char : (c : ℕ) → (not (is_control c) ≡ true) × (c ≢ b'/') × (c ≢ 0x5c) → IsSafeChar c
safe_char c h = ground arith

-- Whatever the input, the cleaned name holds no slash, no backslash and no control character.
clean-IsSafe : (s : Text) → All IsSafeChar (clean s)
unfolding clean
clean-IsSafe s =
    let name : Text = basename (map slash_of s) in
    All-strip IsSafeChar (λ c. c == b'.') _
      (All-strip IsSafeChar is_space _ (
        kept name (basename-no_slash (map slash_of s))
          (All-basename (λ c. c ≢ 0x5c) (map slash_of s) (All-slash_of s))))
  where
    kept :
        (name : Text)
        → All (λ c. c ≢ b'/') name
        → All (λ c. c ≢ 0x5c) name
        → All IsSafeChar (keep (λ c. not (is_control c)) name)
    kept [] p q = tt
    kept (c ∷ name) (p, ps) (q, qs) = elim (Bool-cases (not (is_control c))) [
      | inl e ↦ rw e (safe_char c (e, p, q), kept name ps qs)
      | inr e ↦ rw e (kept name ps qs)
    ]

All-cut_at :
    (P : ℕ → Type 0) (s a b : Text)
    → All P s
    → All P a
    → P b'.'
    → All P b
    → All P (cut_at s (some (a, b)))
All-cut_at P s a b h ha dot hb = elim (Bool-cases (leb (length b) 16)) [
  | inl e ↦
      rw e (All-append P (take (255 - length b - 1) a) (b'.' ∷ b) (All-take P _ a ha) (dot, hb))
  | inr e ↦ rw e (All-take P 255 s h)
]

All-shorten : (P : ℕ → Type 0) (s : Text) → All P s → All P (shorten s)
unfolding shorten
All-shorten P s h = elim (Option-cases (split_last b'.' s)) [
  | inl e ↦ rw e (All-take P 255 s h)
  | inr ((a, b), e) ↦
      let (ha, dot, hb) = All-split_last P b'.' s a b e h in rw e (All-cut_at P s a b h ha dot hb)
]

length-cut_at :
    (s a b : Text)
    → 255 < length s
    → length s ≡ length a + 1 + length b
    → length (cut_at s (some (a, b))) ≡ 255
length-cut_at s a b h e = elim (Bool-cases (leb (length b) 16)) [
  | inl short ↦
      let fits : length b ≤ 16 = ground arith in
      rw short (
        omega (
          arith,
          length-append (take (255 - length b - 1) a) (b'.' ∷ b),
          length-take_of_le (255 - length b - 1) a (omega arith),
        ))
  | inr long ↦ rw long (length-take_of_le 255 s (omega arith))
]

-- A name that is too long is cut to exactly the limit.
length-shorten : (s : Text) → 255 < length s → length (shorten s) ≡ 255
unfolding shorten
length-shorten s h = elim (Option-cases (split_last b'.' s)) [
  | inl e ↦ rw e (length-take_of_le 255 s (omega arith))
  | inr ((a, b), e) ↦ rw e (length-cut_at s a b h (length-split_last b'.' s a b e))
]

-- A display name that is safe to show and to put into a header.
pub record IsSafeName (name : Text) : Type 0 where
  pub chars : All IsSafeChar name
  pub nonempty : 1 ≤ length name
  pub bounded : length name ≤ 255
  pub no_dot : name ≢ codes "."
  pub no_dots : name ≢ codes ".."

default_filename-IsSafeName : IsSafeName default_filename
default_filename-IsSafeName = record {
  chars = omega arith;
  nonempty = omega arith;
  bounded = omega arith;
  no_dot = λ e. cc;
  no_dots = λ e. cc;
}

nonempty_of_ne : (s : Text) → s ≢ [] → 1 ≤ length s
nonempty_of_ne [] h = absurd (h refl)
nonempty_of_ne (c ∷ s) h = omega arith

long_ne : (s t : Text) → length s ≡ 255 → length t < 255 → s ≢ t
long_ne s t h k e = omega (arith, ap (λ (u : Text). length u) e)

shorten-IsSafeName : (s : Text) → All IsSafeChar s → 255 < length s → IsSafeName (shorten s)
shorten-IsSafeName s h long =
    let exact = length-shorten s long in
    record {
      chars = All-shorten IsSafeChar s h;
      nonempty = omega arith;
      bounded = omega arith;
      no_dot = long_ne _ (codes ".") exact (omega arith);
      no_dots = long_ne _ (codes "..") exact (omega arith);
    }

finish-IsSafeName : (s : Text) → All IsSafeChar s → IsSafeName (finish s)
unfolding finish
finish-IsSafeName s h =
    elim (Bool-cases (text_eq s [] || text_eq s (codes ".") || text_eq s (codes ".."))) [
      | inl e ↦ rw e default_filename-IsSafeName
      | inr e ↦ elim (Bool-cases (ltb 255 (length s))) [
        | inl long ↦ rw (e, long) (shorten-IsSafeName s h (ground arith))
        | inr fits ↦
            rw (e, fits)
              (record {
                chars = h;
                nonempty = nonempty_of_ne s (ground (arith, text_eq_iff s []));
                bounded = ground arith;
                no_dot = ground (arith, text_eq_iff s (codes "."));
                no_dots = ground (arith, text_eq_iff s (codes ".."));
              })
      ]
    ]

-- Whatever name the client sends, and whatever its Unicode normal form is, the stored name is one
-- to 255 code points long, holds no slash, no backslash and no control character, and is neither
-- "." nor "..".
pub sanitize_filename-IsSafeName :
    (nfc : Text → Text) (raw : Option Text) → IsSafeName (sanitize_filename nfc raw)
unfolding sanitize_filename
sanitize_filename-IsSafeName nfc raw = elim (Bool-cases (is_truthy raw)) [
  | inl e ↦ rw e (finish-IsSafeName (clean (nfc (text_or_empty raw))) (clean-IsSafe _))
  | inr e ↦ rw e default_filename-IsSafeName
]
