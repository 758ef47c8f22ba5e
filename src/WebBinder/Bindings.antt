-- ===== src/WebBinder/Bindings.antt =====
-- The two maps of a WebBinder as one map from URLs to what was bound last.
use http_2_0_server.Base.{
  ℕ, ◌≡◌, refl, sym, ◌∙◌, ◌⊎◌, inl, inr, Bool, true, false, ◌&&◌, Option, none, some, List, [], ◌∷◌,
  same, if◌then◌else◌, Bool-cases,
}
use http_2_0_server.Base.Maps.{
  find, IsSorted, find-assign, find-erase, assign-IsSorted, erase-IsSorted,
}
use http_2_0_server.Content.{Files}
use http_2_0_server.WebBinder.{WebBinder, new_binder, bind_directory, bind_file}

pub data Request : Type 0 where
  directory_request file_request : List ℕ → List ℕ → Request

unfoldable pub bind : Files → WebBinder → Request → WebBinder
bind fs w (directory_request dir url) = (bind_directory fs w dir url).0
bind fs w (file_request file url) = bind_file fs w file url

unfoldable pub bind_all : Files → WebBinder → List Request → WebBinder
bind_all fs w [] = w
bind_all fs w (r ∷ rs) = bind_all fs (bind fs w r) rs

-- What a URL stands for, without the two maps.
pub data Binding : Type 0 where
  to_directory to_file : List ℕ → Binding

-- The requests that are accepted, and the last one for a URL.
abbrev pub after_request : Files → Request → List ℕ → Option Binding → Option Binding
after_request fs (directory_request dir url) key b =
    if fs.is_directory dir && same url key then some (to_directory dir) else b
after_request fs (file_request file url) key b =
    if fs.is_regular_file file && same url key then some (to_file file) else b

unfoldable pub last_bound : Files → List Request → List ℕ → Option Binding → Option Binding
last_bound fs [] key b = b
last_bound fs (r ∷ rs) key b = last_bound fs rs key (after_request fs r key b)

-- What the two maps say of a URL, in the order of getContent.
abbrev pub either_map : Option (List ℕ) → Option (List ℕ) → Option Binding
either_map (some dir) f = some (to_directory dir)
either_map none (some file) = some (to_file file)
either_map none none = none

abbrev pub view : WebBinder → List ℕ → Option Binding
view w key = either_map (find w.dir_bindings key) (find w.file_bindings key)

either_map-eq : {a a' b b' : Option (List ℕ)} → a ≡ a' → b ≡ b' → either_map a b ≡ either_map a' b'
either_map-eq e f = cc

directory_case :
    (s : Bool) (dir : List ℕ) (a b : Option (List ℕ))
    → either_map (if s then some dir else a) (if s then none else b)
      ≡ (if s then some (to_directory dir) else either_map a b)
directory_case true dir a b = refl
directory_case false dir a b = refl

file_case :
    (s : Bool) (file : List ℕ) (a b : Option (List ℕ))
    → either_map (if s then none else a) (if s then some file else b)
      ≡ (if s then some (to_file file) else either_map a b)
file_case true file a b = refl
file_case false file a b = refl

view-bind :
    (fs : Files) (w : WebBinder) (r : Request) (key : List ℕ)
    → view (bind fs w r) key ≡ after_request fs r key (view w key)
unfolding bind bind_directory bind_file
view-bind fs w (directory_request dir url) key = elim (Bool-cases (fs.is_directory dir)) [
  | inl d ↦
      rw (d, bind)
        (either_map-eq (find-assign w.dir_bindings url dir key) (find-erase w.file_bindings url key)
          ∙ directory_case (same url key) dir _ _)
  | inr d ↦ rw (d, bind) refl
]
view-bind fs w (file_request file url) key = elim (Bool-cases (fs.is_regular_file file)) [
  | inl d ↦
      rw (d, bind)
        (either_map-eq (find-erase w.dir_bindings url key)
            (find-assign w.file_bindings url file key)
          ∙ file_case (same url key) file _ _)
  | inr d ↦ rw (d, bind) refl
]

-- Whatever was requested, a URL stands for what was accepted for it last.
pub view-bind_all :
    (fs : Files) (w : WebBinder) (rs : List Request) (key : List ℕ)
    → view (bind_all fs w rs) key ≡ last_bound fs rs key (view w key)
unfolding bind_all last_bound
view-bind_all fs w [] key = refl
view-bind_all fs w (r ∷ rs) key =
    rw (sym (view-bind fs w r key)) (view-bind_all fs (bind fs w r) rs key)

-- Both maps are in order, and no URL is in both.
pub record IsBinder (w : WebBinder) : Type 0 where
  pub dirs_sorted : IsSorted w.dir_bindings
  pub files_sorted : IsSorted w.file_bindings
  pub apart : (key : List ℕ) → (find w.dir_bindings key ≡ none) ⊎ (find w.file_bindings key ≡ none)

pub new_binder-IsBinder : IsBinder new_binder
unfolding find
new_binder-IsBinder = record { dirs_sorted = tt; files_sorted = tt; apart = λ key. inl refl }

one_side :
    (b : Bool) (x y z : Option (List ℕ))
    → (y ≡ none) ⊎ (z ≡ none)
    → ((if b then x else y) ≡ none) ⊎ ((if b then none else z) ≡ none)
one_side true x y z h = inr refl
one_side false x y z h = h

other_side :
    (b : Bool) (x y z : Option (List ℕ))
    → (y ≡ none) ⊎ (z ≡ none)
    → ((if b then none else y) ≡ none) ⊎ ((if b then x else z) ≡ none)
other_side true x y z h = inl refl
other_side false x y z h = h

bind-IsBinder : (fs : Files) (w : WebBinder) (r : Request) → IsBinder w → IsBinder (bind fs w r)
unfolding bind bind_directory bind_file
bind-IsBinder fs w (directory_request dir url) h = elim (Bool-cases (fs.is_directory dir)) [
  | inl d ↦
      rw (d, bind)
        record {
          dirs_sorted = assign-IsSorted w.dir_bindings url dir h.dirs_sorted;
          files_sorted = erase-IsSorted w.file_bindings url h.files_sorted;
          apart = λ key.
              rw (find-assign w.dir_bindings url dir key, find-erase w.file_bindings url key)
                (one_side (same url key) _ _ _ (h.apart key));
        }
  | inr d ↦ rw (d, bind) h
]
bind-IsBinder fs w (file_request file url) h = elim (Bool-cases (fs.is_regular_file file)) [
  | inl d ↦
      rw (d, bind)
        record {
          dirs_sorted = erase-IsSorted w.dir_bindings url h.dirs_sorted;
          files_sorted = assign-IsSorted w.file_bindings url file h.files_sorted;
          apart = λ key.
              rw (find-assign w.file_bindings url file key, find-erase w.dir_bindings url key)
                (other_side (same url key) _ _ _ (h.apart key));
        }
  | inr d ↦ rw (d, bind) h
]

-- Whatever was requested, both maps are in order and no URL is in both.
pub bind_all-IsBinder :
    (fs : Files) (w : WebBinder) (rs : List Request) → IsBinder w → IsBinder (bind_all fs w rs)
unfolding bind_all
bind_all-IsBinder fs w [] h = h
bind_all-IsBinder fs w (r ∷ rs) h = bind_all-IsBinder fs (bind fs w r) rs (bind-IsBinder fs w r h)
