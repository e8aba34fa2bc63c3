-- ===== src/Application/CreateLink/Url.antt =====
-- The URL of a link as its reader takes it apart.
use secure_file_service.Prelude.Percent.Decoding.{IsByte, utf8-IsByte, IsCodePoint}
use secure_file_service.Prelude.Decimal.{decimal-All, IsDigit, decimal}
use secure_file_service.Prelude.Utf8.{IsAscii, utf8_replace_of_ascii, utf8_replace_of_utf8, utf8}
use secure_file_service.Prelude.{
  inr, inl, refl, All_mono, ◌∙◌, codes, sym, arith, ◌++◌, Option-cases, All, ◌≡◌, ℕ, Option, Text,
  none, some, [], ◌∷◌,
}
use secure_file_service.Application.CreateLink.{build_download_url, pair, join_pairs}
use secure_file_service.Prelude.Percent.{quote_plus, plus_bytes}
use secure_file_service.Prelude.Percent.Query.{fields, written, fields-first, fields-last}

quote_plus-parts :
    (s q : Text)
    → quote_plus s ≡ some q
    → (bytes : Text) × (utf8 s ≡ some bytes) × (q ≡ plus_bytes bytes)
unfolding quote_plus
quote_plus-parts s q h = elim (Option-cases (utf8 s)) [
  | inl absent ↦ absurd (ground (arith, absent, h))
  | inr (bytes, found) ↦ (bytes, found, ground (arith, found, h))
]

pair-parts :
    (name s p : Text)
    → pair name s ≡ some p
    → (bytes : Text) × (utf8 s ≡ some bytes) × (p ≡ written name bytes)
pair-parts name s p h = elim (Option-cases (quote_plus s)) [
  | inl absent ↦ absurd (ground (arith, absent, h))
  | inr (q, found) ↦
      let (bytes, encoded, is) = quote_plus-parts s q found in
      (bytes, encoded, ground (arith, found, h, is))
]

join_pairs-parts :
    (a b : Option Text) (r : Text)
    → join_pairs a b ≡ some r
    → (x : Text) × (y : Text) × (a ≡ some x) × (b ≡ some y) × (r ≡ x ++ b'&' ∷ y)
join_pairs-parts none b r h = cc
join_pairs-parts (some x) none r h = cc
join_pairs-parts (some x) (some y) r h = (x, y, refl, refl, ground arith)

decimal-utf8 : (n : ℕ) (bytes : Text) → utf8 (decimal n) ≡ some bytes → bytes ≡ decimal n
decimal-utf8 n bytes h =
    sym (utf8_replace_of_utf8 (decimal n) bytes h)
    ∙ utf8_replace_of_ascii (decimal n)
        (All_mono IsDigit IsAscii (λ c is. omega (arith, is)) (decimal n) (decimal-All n))

-- A link's URL is the base, the path of the download route with the file id, and a query whose
-- fields, taken apart and decoded, are in this order the expiry in decimal, and the UTF-8 bytes
-- of the link id, the key id and the signature, whatever characters these have.
pub build_download_url-IsReadable :
    (base file_id : Text) (expires_at : ℕ) (link_id key_id sig url : Text)
    → All IsCodePoint link_id
    → All IsCodePoint key_id
    → All IsCodePoint sig
    → build_download_url base file_id expires_at link_id key_id sig ≡ some url
    → (query l k s : Text) × (url ≡ base ++ (codes "/v1/download/" ++ (file_id ++ b'?' ∷ query)))
      × (utf8 link_id ≡ some l)
      × (utf8 key_id ≡ some k)
      × (utf8 sig ≡ some s)
      × (fields query
          ≡ (codes "exp", decimal expires_at)
            ∷ (codes "lid", l)
            ∷ (codes "kid", k)
            ∷ (codes "sig", s)
            ∷ [])
unfolding build_download_url
build_download_url-IsReadable base file_id expires_at link_id key_id sig url hl hk hs h =
    let tail2 = join_pairs (pair (codes "kid") key_id) (pair (codes "sig") sig) in
    let tail1 = join_pairs (pair (codes "lid") link_id) tail2 in
    elim (Option-cases (join_pairs (pair (codes "exp") (decimal expires_at)) tail1)) [
      | inl absent ↦ absurd (ground (arith, absent, h))
      | inr (query, found) ↦
          let (x1, y1, p1, q1, r1) =
            join_pairs-parts (pair (codes "exp") (decimal expires_at)) tail1 query found in
          let (x2, y2, p2, q2, r2) = join_pairs-parts (pair (codes "lid") link_id) tail2 y1 q1 in
          let (x3, x4, p3, p4, r3) =
            join_pairs-parts (pair (codes "kid") key_id) (pair (codes "sig") sig) y2 q2 in
          let (e, ue, we) = pair-parts (codes "exp") (decimal expires_at) x1 p1 in
          let (l, ul, wl) = pair-parts (codes "lid") link_id x2 p2 in
          let (k, uk, wk) = pair-parts (codes "kid") key_id x3 p3 in
          let (s, us, ws) = pair-parts (codes "sig") sig x4 p4 in
          let plain : e ≡ decimal expires_at = decimal-utf8 expires_at e ue in
          let lb = utf8-IsByte link_id l hl ul in
          let kb = utf8-IsByte key_id k hk uk in
          let sb = utf8-IsByte sig s hs us in
          let eb =
            All_mono IsDigit IsByte (λ c is. omega (arith, is)) (decimal expires_at)
              (decimal-All expires_at) in
          let last = fields-last (codes "sig") s (ground arith) sb in
          let third = fields-first (codes "kid") k (written (codes "sig") s) (ground arith) kb in
          let second =
            fields-first (codes "lid") l (written (codes "kid") k ++ b'&' ∷ written (codes "sig") s)
              (ground arith) lb in
          let first =
            fields-first (codes "exp") (decimal expires_at)
              (written (codes "lid") l
                ++ b'&' ∷ (written (codes "kid") k ++ b'&' ∷ written (codes "sig") s))
              (ground arith) eb in
          (
            query,
            l,
            k,
            s,
            ground (arith, found, h),
            ul,
            uk,
            us,
            rw (r1, r2, r3, we, wl, wk, ws, plain, first, second, third, last) refl,
          )
    ]
