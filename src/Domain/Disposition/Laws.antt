-- ===== src/Domain/Disposition/Laws.antt =====
-- What a reader of the Content-Disposition header makes of it.
use secure_file_service.Prelude.Utf8.{utf8}
use secure_file_service.Prelude.{
  inr, refl, inl, ap, ◌∙◌, append_assoc, Option-cases, sym, ◌++◌, [], All_mono, codes, arith, some,
  All-append, ◌∷◌, ◌≡◌, split_last, ◌≢◌, All, ◌<◌, Option, ◌≤◌, Text, ℕ,
}
use secure_file_service.Prelude.{none, some}
use secure_file_service.Prelude.Percent.{quote, quote_bytes}
use secure_file_service.Domain.Disposition.{content_disposition, attachment, ascii_fallback}
use secure_file_service.Prelude.Percent.Decoding.{
  IsCodePoint, utf8-IsByte, unquote, unquote-quote_bytes, quote_bytes-IsQuoted, IsByte, IsQuoted,
}

-- A code point that is no control character of ASCII.
abbrev pub IsPrintable : ℕ → Type 0
IsPrintable c = (32 ≤ c) × (c ≢ 0x7f) × (c < 0x110000)

-- What a header may hold.
abbrev pub IsHeaderChar : ℕ → Type 0
IsHeaderChar c = (32 ≤ c) × (c < 0x7f)

-- The extended parameter: what stands behind the last apostrophe, decoded.
unfoldable pub extended_name : Text → Option Text
extended_name header = elim (split_last 0x27 header) [
  | none ↦ none
  | some (before, encoded) ↦ some (unquote encoded)
]

abbrev pub IsFallbackChar : ℕ → Type 0
IsFallbackChar c = (32 ≤ c) × (c < 0x7f) × (c ≢ 0x22) × (c ≢ 0x5c)

ascii_fallback-IsFallbackChar :
    (s : Text) → All IsPrintable s → All IsFallbackChar (ascii_fallback s)
unfolding ascii_fallback
ascii_fallback-IsFallbackChar [] h = tt
ascii_fallback-IsFallbackChar (c ∷ s) (is, h) =
    (ground (arith, is), ascii_fallback-IsFallbackChar s h)

attachment-IsHeaderChar :
    (fallback encoded : Text)
    → All IsFallbackChar fallback
    → All IsQuoted encoded
    → All IsHeaderChar (attachment fallback encoded)
unfolding attachment
attachment-IsHeaderChar fallback encoded h k =
    All-append IsHeaderChar (codes "attachment; filename=\"") _ (ground arith) (
      All-append IsHeaderChar fallback _
        (All_mono IsFallbackChar IsHeaderChar (λ c is. ground (arith, is)) fallback h)
        (All-append IsHeaderChar (codes "\"; filename*=UTF-8''") encoded (ground arith)
          (All_mono IsQuoted IsHeaderChar (λ c is. ground (arith, is)) encoded k)))

split_last-absent : (sep : ℕ) (s : Text) → All (λ c. c ≢ sep) s → split_last sep s ≡ none
unfolding split_last
split_last-absent sep [] h = refl
split_last-absent sep (c ∷ s) (ne, h) = ground (arith, ne, split_last-absent sep s h)

split_last-last :
    (sep : ℕ) (a b : Text) → All (λ c. c ≢ sep) b → split_last sep (a ++ sep ∷ b) ≡ some (a, b)
unfolding split_last
split_last-last sep [] b h = ground (arith, split_last-absent sep b h)
split_last-last sep (c ∷ a) b h = ground (arith, split_last-last sep a b h)

extended_name-split :
    (s a b : Text) → split_last 0x27 s ≡ some (a, b) → extended_name s ≡ some (unquote b)
unfolding extended_name
extended_name-split s a b h = ground (arith, h)

extended_name-attachment :
    (fallback bytes : Text)
    → All IsByte bytes
    → extended_name (attachment fallback (quote_bytes bytes)) ≡ some bytes
unfolding attachment
extended_name-attachment fallback bytes h =
    let front = codes "attachment; filename=\"" in
    let middle = codes "\"; filename*=UTF-8'" in
    let encoded = quote_bytes bytes in
    let split : front ++ (fallback ++ (codes "\"; filename*=UTF-8''" ++ encoded))
        ≡ (front ++ (fallback ++ middle)) ++ 0x27 ∷ encoded =
      sym (
        append_assoc front (fallback ++ middle) (0x27 ∷ encoded)
        ∙ ap (λ t. front ++ t) (append_assoc fallback middle (0x27 ∷ encoded))) in
    let plain =
      All_mono IsQuoted (λ c. c ≢ 0x27) (λ c is. is.2) encoded (quote_bytes-IsQuoted bytes h) in
    ap extended_name split
    ∙ extended_name-split _ _ encoded
        (split_last-last 0x27 (front ++ (fallback ++ middle)) encoded plain)
    ∙ ap some (unquote-quote_bytes bytes h)

-- For a name without control characters, as every sanitised name is, the header is a line of
-- printable ASCII, its quoted fallback holds neither a quote nor a backslash, so it ends where it
-- should, and a reader that takes what stands behind the last apostrophe and decodes it gets
-- exactly the UTF-8 bytes of the name.
pub content_disposition-IsReadable :
    (name header : Text)
    → All IsPrintable name
    → content_disposition name ≡ some header
    → All IsHeaderChar header
      × All IsFallbackChar (ascii_fallback name)
      × ((bytes : Text) × (utf8 name ≡ some bytes)
          × (extended_name header ≡ some bytes)
          × (header ≡ attachment (ascii_fallback name) (quote_bytes bytes)))
unfolding content_disposition quote
content_disposition-IsReadable name header h e = elim (Option-cases (utf8 name)) [
  | inl absent ↦ absurd (ground (arith, absent, e))
  | inr (bytes, found) ↦
      let are =
        utf8-IsByte name bytes (All_mono IsPrintable IsCodePoint (λ c is. is.2) name h) found in
      let safe = ascii_fallback-IsFallbackChar name h in
      let is : attachment (ascii_fallback name) (quote_bytes bytes) ≡ header =
        ground (arith, found, e) in
      rw (← is) (
        attachment-IsHeaderChar (ascii_fallback name) (quote_bytes bytes) safe
            (quote_bytes-IsQuoted bytes are),
        safe,
        (bytes, found, extended_name-attachment (ascii_fallback name) bytes are, refl),
      )
]
