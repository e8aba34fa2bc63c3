-- ===== src/Domain/MediaType/Laws.antt =====
-- What a stored content type can hold.
use secure_file_service.Prelude.{
  strip_start, is_space, strip, codes, length, is_truthy, length, codes, not, ◌||◌, ltb, ◌≤◌,
  &&_parts, ◌∙◌, ℕ, ◌≡◌, ◌≢◌, refl, Bool, true, false, Option, none, some, [], ◌∷◌, ◌++◌, inl, inr,
  ◌⊎◌, Text, strip_end, cons_unless, All, arith, Bool-cases, ap,
}
use secure_file_service.Domain.Filename.{text_or_empty}
use secure_file_service.Domain.MediaType.{
  default_content_type, normalize_content_type, matches_content_type, within, matches_subtype,
  is_token, span, is_line, is_parameters,
}

abbrev IsToken : ℕ → Type 0
IsToken c = is_token c ≡ true

span-append : (p : ℕ → Bool) (s : Text) → s ≡ (span p s).0 ++ (span p s).1
span-append p [] = refl
span-append p (c ∷ s) = elim (Bool-cases (p c)) [
  | inl e ↦ rw e (ap (λ (t : Text). c ∷ t) (span-append p s))
  | inr e ↦ rw e refl
]

span-All : (p : ℕ → Bool) (s : Text) → All (λ c. p c ≡ true) (span p s).0
span-All p [] = tt
span-All p (c ∷ s) = elim (Bool-cases (p c)) [ inl e ↦ rw e (e, span-All p s) | inr e ↦ rw e tt ]

abbrev last : Text → Option ℕ
last [] = none
last (c ∷ []) = some c
last (c ∷ d ∷ s) = last (d ∷ s)

last-cons_unless :
    (b : Bool) (c x : ℕ) (s : Text)
    → last (cons_unless b c s) ≡ some x
    → (last s ≡ some x) ⊎ ((c ≡ x) × (b ≡ false))
last-cons_unless b c x (d ∷ s) h = inl h
last-cons_unless true c x [] h = cc
last-cons_unless false c x [] h = inr (ground arith, refl)

-- What is left by `strip` does not end in a stripped code point.
last-strip_end : (p : ℕ → Bool) (x : ℕ) (s : Text) → last (strip_end p s) ≡ some x → p x ≡ false
unfolding strip_end
last-strip_end p x [] h = cc
last-strip_end p x (c ∷ s) h = elim (last-cons_unless (p c) c x (strip_end p s) h) [
  | inl e ↦ last-strip_end p x s e
  | inr (e, q) ↦ rw (← e) q
]

last-append : (a : Text) (c : ℕ) (s : Text) → last (a ++ c ∷ s) ≡ last (c ∷ s)
last-append [] c s = refl
last-append (d ∷ []) c s = refl
last-append (d ∷ e ∷ a) c s = last-append (e ∷ a) c s

abbrev NoLineFeed : Text → Type 0
NoLineFeed = All (λ c. c ≢ 0x0a)

is_line-NoLineFeed : (s : Text) → is_line s ≡ true → last s ≢ some 0x0a → NoLineFeed s
unfolding is_line
is_line-NoLineFeed [] h k = tt
is_line-NoLineFeed (c ∷ []) h k = (λ e. k (rw e refl), tt)
is_line-NoLineFeed (c ∷ d ∷ s) h k = ground (arith, is_line-NoLineFeed (d ∷ s))

is_parameters-NoLineFeed : (s : Text) → is_parameters s ≡ true → last s ≢ some 0x0a → NoLineFeed s
unfolding is_parameters
is_parameters-NoLineFeed [] h k = tt
is_parameters-NoLineFeed (c ∷ []) h k = (λ e. k (rw e refl), tt)
is_parameters-NoLineFeed (c ∷ d ∷ s) h k = ground (arith, is_line-NoLineFeed (d ∷ s))

token-ne : (c : ℕ) → is_token c ≡ true → c ≢ 0x0a
unfolding is_token
token-ne c h = ground arith

-- `main/sub` and perhaps parameters, on one line, within the sizes that the pattern allows.
pub record IsMediaType (value : Text) : Type 0 where
  pub main : Text
  pub sub : Text
  pub rest : Text
  pub joined : value ≡ main ++ b'/' ∷ (sub ++ rest)
  pub main_tokens : All (λ c. is_token c ≡ true) main
  pub sub_tokens : All (λ c. is_token c ≡ true) sub
  pub main_size : (1 ≤ length main) × (length main ≤ 64)
  pub sub_size : (1 ≤ length sub) × (length sub ≤ 127)
  pub one_line : All (λ c. c ≢ 0x0a) rest
  pub bounded : length value ≤ 255

last-drop_line : (a : Text) (c : ℕ) (b : Text) → last (a ++ b) ≢ some c → last b ≢ some c
last-drop_line a c [] h = λ e. cc
last-drop_line a c (d ∷ s) h = λ e. h (last-append a d s ∙ e)

within-le : (lo hi n : ℕ) → within lo hi n ≡ true → (lo ≤ n) × (n ≤ hi)
within-le lo hi n h = ground arith

matches_subtype-parts :
    (s : Text)
    → matches_subtype s ≡ true
    → (t : Text) × (s ≡ b'/' ∷ t)
      × (within 1 127 (length (span is_token t).0) ≡ true)
      × (is_parameters (span is_token t).1 ≡ true)
unfolding matches_subtype
matches_subtype-parts [] h = cc
matches_subtype-parts (c ∷ s) h = (s, ground arith, ground arith, ground arith)

matches-IsMediaType :
    (v : Text) → matches_content_type v ≡ true → last v ≢ some 0x0a → length v ≤ 255 → IsMediaType v
unfolding matches_content_type
matches-IsMediaType v h no_feed fits =
    let (size, more) = &&_parts (within 1 64 (length (span is_token v).0)) _ h in
    let (t, slash, sub, rest) = matches_subtype-parts (span is_token v).1 more in
    let joined : v ≡ (span is_token v).0 ++ b'/' ∷ ((span is_token t).0 ++ (span is_token t).1) =
      span-append is_token v
      ∙ ap (λ (r : Text). (span is_token v).0 ++ r)
          (slash ∙ ap (λ (r : Text). b'/' ∷ r) (span-append is_token t)) in
    record {
      main = (span is_token v).0;
      sub = (span is_token t).0;
      rest = (span is_token t).1;
      joined = joined;
      main_tokens = span-All is_token v;
      sub_tokens = span-All is_token t;
      main_size = within-le 1 64 _ size;
      sub_size = within-le 1 127 _ sub;
      one_line = is_parameters-NoLineFeed (span is_token t).1 rest (
          last-drop_line (b'/' ∷ (span is_token t).0) 0x0a (span is_token t).1
            (last-drop_line (span is_token v).0 0x0a _ (λ e. no_feed (ap last joined ∙ e))));
      bounded = fits;
    }

default-IsMediaType : IsMediaType default_content_type
unfolding is_token
default-IsMediaType = record {
  main = codes "application";
  sub = codes "octet-stream";
  rest = [];
  joined = refl;
  main_tokens = ground arith;
  sub_tokens = ground arith;
  main_size = omega arith;
  sub_size = omega arith;
  one_line = tt;
  bounded = omega arith;
}

last-strip_ne : (s : Text) → last (strip is_space s) ≢ some 0x0a
unfolding strip is_space
last-strip_ne s h = cc (last-strip_end is_space 0x0a (strip_start is_space s) h)

-- Whatever content type the client sends, the stored one has the form main/sub with an optional
-- rest, main of 1 to 64 and sub of 1 to 127 token characters, is at most 255 code points long and
-- holds no line feed.
pub normalize_content_type-IsMediaType :
    (raw : Option Text) → IsMediaType (normalize_content_type raw)
unfolding normalize_content_type
normalize_content_type-IsMediaType raw = elim (Bool-cases (is_truthy raw)) [
  | inr e ↦ rw e default-IsMediaType
  | inl e ↦
      let v : Text = strip is_space (text_or_empty raw) in
      elim (Bool-cases (ltb 255 (length v) || not (matches_content_type v))) [
        | inl bad ↦ rw (e, bad) default-IsMediaType
        | inr good ↦
            rw (e, good)
              (matches-IsMediaType v (ground arith) (last-strip_ne (text_or_empty raw))
                (ground arith))
      ]
]
