-- ===== src/WebBinder/Tests.antt =====
-- Runs of WebBinder/webBinder.cpp with the bindings of main.cpp.
use http_2_0_server.Base.{ℕ, ◌≡◌, refl, true, false, some, List, [], ◌∷◌, text, same}
use http_2_0_server.Base.Maps.{find, erase, assign, before}
use http_2_0_server.Content.{Files, OpenFile}
use http_2_0_server.WebBinder.{
  new_binder, bind_directory, bind_file, get_content, below, starts_with, serve_path,
}
use http_2_0_server.WebBinder.Bindings.{
  Request, directory_request, file_request, to_file, bind_all, bind, last_bound, bind_all-IsBinder,
  new_binder-IsBinder,
}
use http_2_0_server.WebBinder.Prefix.{Shortest}
use http_2_0_server.WebBinder.Serving.{serve_binding, get_content-last_bound, get_content-Shortest}

abbrev page : OpenFile
page = record { size = 2; content = 60 ∷ 62 ∷ [] }

-- A directory with one file in it.
abbrev disk : Files
disk = record {
  is_directory = λ p. same p (text "./html/");
  is_regular_file = λ p. same p (text "./html/a.html");
  entries = λ p. record { file_name = text "a.html"; directory = false; regular_file = true } ∷ [];
  open_file = λ p. some page;
}

abbrev requests : List Request
requests =
    directory_request (text "./html/") (text "/html")
    ∷ file_request (text "./html/a.html") (text "/")
    ∷ file_request (text "./missing") (text "/html")
    ∷ []

get_content-last_bound_example :
    get_content disk (bind_all disk new_binder requests) (text "/")
    ≡ serve_binding disk (text "/") (to_file (text "./html/a.html"))
unfolding last_bound same
get_content-last_bound_example = get_content-last_bound disk requests (text "/") _ refl

get_content-Shortest_example :
    (key : List ℕ) × (dir : List ℕ) × Shortest
      (bind_all disk new_binder requests).dir_bindings
      (text "/html/a.html")
      key
      dir
    × (get_content disk (bind_all disk new_binder requests) (text "/html/a.html")
        ≡ serve_path disk (below (text "/html/a.html") (key, dir)) (text "/html/a.html"))
unfolding bind_all bind bind_directory bind_file same find assign erase before starts_with
get_content-Shortest_example =
    get_content-Shortest disk (bind_all disk new_binder requests) (text "/html/a.html")
      (text "/html") (text "./html/")
      (bind_all-IsBinder disk new_binder requests new_binder-IsBinder) refl refl refl

-- What follows the bound URL is not looked at: the path leaves the directory.
climbs :
    below (text "/html/../server.key") (text "/html", text "./html/") ≡ text "./html//../server.key"
climbs = refl

-- Nor has a '/' to stand between them.
joins : starts_with (text "/htmlx") (text "/html") ≡ true
unfolding starts_with
joins = refl
