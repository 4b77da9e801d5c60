-- ===== src/Request/Examples.antt =====
-- An escaped text at concrete values.
use dusty.Base.{◌≡◌, refl, arith, some, inl, inr, codes}
use dusty.Request.{url_unescape}
use dusty.Request.Escape.{done, plain, space, escaped, url_unescape-Escapes}

url_unescape-Escapes_example : url_unescape (codes "a+%2F") ≡ some (codes "a /")
url_unescape-Escapes_example = url_unescape-Escapes (codes "a /") (codes "a+%2F") (
    plain b'a' refl refl (
      space (
        escaped 2 15 b'2' b'F' (inl (omega arith, refl))
          (inr (inl (omega arith, omega arith, refl))) done)))
