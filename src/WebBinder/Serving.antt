-- ===== src/WebBinder/Serving.antt =====
-- What WebBinder::getContent answers, from the requests that bound the URLs.
use http_2_0_server.Base.{ℕ, ◌≡◌, refl, ap, ◌∙◌, true, Option, none, some, List, arith}
use http_2_0_server.Base.Maps.{find}
use http_2_0_server.Content.{ResponseData, Files}
use http_2_0_server.WebBinder.{
  WebBinder, new_binder, choose, get_content, get_file_content, get_directory_content, serve_path,
  below, starts_with,
}
use http_2_0_server.WebBinder.Bindings.{
  Binding, to_directory, to_file, either_map, view, Request, bind_all, last_bound, IsBinder,
  view-bind_all,
}
use http_2_0_server.WebBinder.Prefix.{Shortest, first_prefix-Shortest}

abbrev pub serve_binding : Files → List ℕ → Binding → Option ResponseData
serve_binding fs url (to_directory dir) = get_directory_content fs dir url
serve_binding fs url (to_file file) = some (get_file_content fs file)

some_inj : {a b : Binding} → some a ≡ some b → a ≡ b
some_inj e = cc

choose-either_map :
    (fs : Files) (url : List ℕ) (a f : Option (List ℕ)) (p : Option (List ℕ × List ℕ)) (b : Binding)
    → either_map a f ≡ some b
    → choose fs url a f p ≡ serve_binding fs url b
unfolding choose
choose-either_map fs url (some dir) f p b e = ap (serve_binding fs url) (some_inj e)
choose-either_map fs url none (some file) p b e = ap (serve_binding fs url) (some_inj e)
choose-either_map fs url none none p b e = absurd (ground (arith, e))

choose-none :
    (fs : Files) (url : List ℕ) (a f : Option (List ℕ)) (found : List ℕ × List ℕ)
    → either_map a f ≡ none
    → choose fs url a f (some found) ≡ serve_path fs (below url found) url
unfolding choose
choose-none fs url (some dir) f found e = absurd (ground (arith, e))
choose-none fs url none (some file) found e = absurd (ground (arith, e))
choose-none fs url none none found e = refl

-- After any requests a URL is answered from what was accepted for it last: the index of that
-- directory, or that file.
pub get_content-last_bound :
    (fs : Files) (rs : List Request) (url : List ℕ) (b : Binding)
    → last_bound fs rs url none ≡ some b
    → get_content fs (bind_all fs new_binder rs) url ≡ serve_binding fs url b
unfolding get_content find
get_content-last_bound fs rs url b e =
    choose-either_map fs url _ _ _ b (view-bind_all fs new_binder rs url ∙ e)

-- A URL that is not bound, of which a bound directory's URL is a beginning, is answered from the
-- path below the directory with the shortest such URL.
pub get_content-Shortest :
    (fs : Files) (w : WebBinder) (url j d : List ℕ)
    → IsBinder w
    → view w url ≡ none
    → find w.dir_bindings j ≡ some d
    → starts_with url j ≡ true
    → (key : List ℕ) × (dir : List ℕ) × Shortest w.dir_bindings url key dir
      × (get_content fs w url ≡ serve_path fs (below url (key, dir)) url)
unfolding get_content
get_content-Shortest fs w url j d h n e p =
    let (key, dir, f, s) = first_prefix-Shortest w.dir_bindings url j d h.dirs_sorted e p in
    (
      key,
      dir,
      s,
      ap (choose fs url (find w.dir_bindings url) (find w.file_bindings url)) f
          ∙ choose-none fs url _ _ (key, dir) n,
    )
