-- ===== src/Http2/Headers/Tests.antt =====
-- The theorems on header lists at concrete headers.
use http_2_0_server.Base.{◌≡◌, refl, List, [], ◌∷◌, same, text}
use http_2_0_server.Http2.Headers.{Header, header, every, replace, replace_loop}
use http_2_0_server.Http2.Headers.Replace.{Named, Replaced, replace-Replaced}

-- Two cookies around another header.
abbrev sample : List Header
sample =
    header (text "cookie") (text "a")
    ∷ header (text "host") (text "h")
    ∷ header (text "cookie") (text "b")
    ∷ []

cookies : every sample (text "cookie") ≡ text "a" ∷ text "b" ∷ []
unfolding every same
cookies = refl

sample-Named : Named sample
sample-Named = ((λ e. cc), ((λ e. cc), ((λ e. cc), tt)))

-- The second cookie is still there.
replaced :
    every (replace sample (header (text "cookie") (text "c"))) (text "cookie")
    ≡ text "c" ∷ text "b" ∷ []
unfolding every replace replace_loop same
replaced = refl

replace-Replaced_example :
    Replaced
      (header (text "cookie") (text "c"))
      sample
      (replace sample (header (text "cookie") (text "c")))
replace-Replaced_example = replace-Replaced sample (header (text "cookie") (text "c")) sample-Named
