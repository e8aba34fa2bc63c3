-- ===== src/Tests/Serving.antt =====
-- A link from its issue to its delivery, its URL, and the columns, at concrete inputs.
use secure_file_service.Prelude.Percent.{quote_plus}
use secure_file_service.Application.CreateLink.Url.{build_download_url-IsReadable}
use secure_file_service.Application.CreateLink.{build_download_url}
use secure_file_service.Prelude.Decimal.{decimal}
use secure_file_service.Prelude.Percent.Query.{fields}
use secure_file_service.Prelude.Utf8.{encode_char, utf8}
use secure_file_service.Prelude.{codes, Text, some, [], ◌∷◌, ◌++◌, refl, arith, ◌≡◌}

build_download_url-IsReadable_example :
    (query l k s : Text) × (codes "http://x/v1/download/f?exp=7&lid=l+1&kid=k&sig=a%2Fb"
      ≡ codes "http://x" ++ (codes "/v1/download/" ++ (codes "f" ++ b'?' ∷ query)))
    × (utf8 (codes "l 1") ≡ some l)
    × (utf8 (codes "k") ≡ some k)
    × (utf8 (codes "a/b") ≡ some s)
    × (fields query
        ≡ (codes "exp", decimal 7) ∷ (codes "lid", l) ∷ (codes "kid", k) ∷ (codes "sig", s) ∷ [])
unfolding build_download_url quote_plus utf8 encode_char decimal
build_download_url-IsReadable_example =
    build_download_url-IsReadable (codes "http://x") (codes "f") 7 (codes "l 1") (codes "k")
      (codes "a/b") (codes "http://x/v1/download/f?exp=7&lid=l+1&kid=k&sig=a%2Fb") (ground arith)
      (ground arith) (ground arith) refl
