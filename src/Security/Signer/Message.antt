-- ===== src/Security/Signer/Message.antt =====
-- The message that is signed determines the fields that it was made from, if the fields of one of
-- the two sides hold no line feed.
use secure_file_service.Prelude.{
  refl, [], ◌==◌, ◌≢◌, if◌then◌else◌, ap, ◌+◌, ◌++◌, All_mono, All, ◌∷◌, arith, some, ℕ, ◌≡◌, Text,
}
use secure_file_service.Prelude.Utf8.{utf8-injective}
use secure_file_service.Prelude.Decimal.{decimal, decimal-injective, decimal-All, IsDigit}
use secure_file_service.Security.Signer.{message, message_text, line_feed}

abbrev pub NoLineFeed : Text → Type 0
NoLineFeed = All (λ c. c ≢ line_feed)

abbrev line_feeds : Text → ℕ
line_feeds [] = 0
line_feeds (c ∷ s) = (if c == line_feed then 1 else 0) + line_feeds s

line_feeds-append : (s t : Text) → line_feeds (s ++ t) ≡ line_feeds s + line_feeds t
line_feeds-append [] t = omega arith
line_feeds-append (c ∷ s) t = ground (arith, line_feeds-append s t)

line_feeds_zero : (s : Text) → NoLineFeed s → line_feeds s ≡ 0
line_feeds_zero [] h = refl
line_feeds_zero (c ∷ s) (k, h) = ground (arith, line_feeds_zero s h)

NoLineFeed-of_zero : (s : Text) → line_feeds s ≡ 0 → NoLineFeed s
NoLineFeed-of_zero [] h = tt
NoLineFeed-of_zero (c ∷ s) h = ground (arith, NoLineFeed-of_zero s)

decimal-NoLineFeed : (n : ℕ) → NoLineFeed (decimal n)
decimal-NoLineFeed n =
    All_mono IsDigit (λ c. c ≢ line_feed) (λ c h. omega arith) (decimal n) (decimal-All n)

-- Two texts that hold no line feed are told from what follows the first line feed.
cut_line :
    (a b u v : Text)
    → NoLineFeed a
    → NoLineFeed b
    → a ++ line_feed ∷ u ≡ b ++ line_feed ∷ v
    → (a ≡ b) × (u ≡ v)
cut_line [] [] u v h k e = ground arith
cut_line [] (d ∷ b) u v h (k, ks) e = ground arith
cut_line (c ∷ a) [] u v (h, hs) k e = ground arith
cut_line (c ∷ a) (d ∷ b) u v (h, hs) (k, ks) e = ground (arith, cut_line a b u v hs ks)

line_feeds-message :
    (f l : Text) (n : ℕ) → line_feeds (message_text f l n) ≡ 3 + line_feeds f + line_feeds l
unfolding message_text
line_feeds-message f l n = omega (
  arith,
  line_feeds-append f (line_feed ∷ (l ++ line_feed ∷ decimal n)),
  line_feeds-append l (line_feed ∷ decimal n),
  line_feeds_zero (decimal n) (decimal-NoLineFeed n),
)

message_text-cut :
    (f g l m : Text) (a b : ℕ)
    → NoLineFeed f
    → NoLineFeed l
    → NoLineFeed g
    → NoLineFeed m
    → message_text f l a ≡ message_text g m b
    → (f ≡ g) × (l ≡ m) × (a ≡ b)
unfolding message_text
message_text-cut f g l m a b hf hl hg hm e =
    let (same_file, e1) = cut_line f g _ _ hf hg (ground arith) in
    let (same_link, e2) = cut_line l m (decimal a) (decimal b) hl hm e1 in
    (same_file, same_link, decimal-injective a b e2)

-- No two requests have the same signed bytes, if the file id and the link id of one of them hold
-- no line feed: then file id, link id and expiry of the two are equal. Of the other request nothing
-- is assumed.
pub message-injective :
    (f g l m : Text) (a b : ℕ) (bytes : Text)
    → NoLineFeed f
    → NoLineFeed l
    → message f l a ≡ some bytes
    → message g m b ≡ some bytes
    → (f ≡ g) × (l ≡ m) × (a ≡ b)
unfolding message
message-injective f g l m a b bytes hf hl p q =
    let e = utf8-injective (message_text f l a) (message_text g m b) bytes p q in
    let count = ap (λ (t : Text). line_feeds t) e in
    let zf = line_feeds_zero f hf in
    let zl = line_feeds_zero l hl in
    let cf = line_feeds-message f l a in
    let cg = line_feeds-message g m b in
    message_text-cut f g l m a b hf hl (NoLineFeed-of_zero g (omega arith))
      (NoLineFeed-of_zero m (omega arith)) e
