-- ===== src/Content/Tests.antt =====
-- Runs of Response/responseData.cpp.
use http_2_0_server.Base.{◌≡◌, refl, ◌++◌, ◌∷◌, text, arith}
use http_2_0_server.Content.{get_mime_type, lower_text, behind_last}
use http_2_0_server.Content.Mime.{get_mime_type-lower_text}

get_mime_type-lower_text_example :
    get_mime_type (text "a.b/Index" ++ 46 ∷ text "HtMl")
    ≡ get_mime_type (text "x" ++ 46 ∷ lower_text (text "HtMl"))
get_mime_type-lower_text_example =
    get_mime_type-lower_text (text "a.b/Index") (text "x") (text "HtMl")
      (omega arith, (omega arith, (omega arith, (omega arith, tt))))

no_extension : get_mime_type (text "html") ≡ text "application/octet-stream"
unfolding get_mime_type behind_last
no_extension = refl
