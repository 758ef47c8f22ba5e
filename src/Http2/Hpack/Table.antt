-- ===== src/Http2/Hpack/Table.antt =====
-- class Table of hpack.h and hpack-table.cc: the dynamic table of one direction of a connection,
-- and lookups in both tables.
pub mod Static
pub mod Eviction
pub mod Match
mod Tests
use http_2_0_server.Base.{
  ℕ, zero, suc, ◌+◌, ◌-◌, ◌%◌, ◌^◌, Bool, true, false, Option, none, some, List, [], ◌∷◌, length,
  get_elem?, ltb, ◌==◌, if◌then◌else◌, same,
}
use http_2_0_server.Http2.Headers.{Header, size, same_header}
use Static.{static_table}

-- `entries` is `dynamic_`, the newest first; `used` is `size_`.
pub record Table : Type 0 where
  pub used : ℕ
  pub max_size : ℕ
  pub entries : List Header

-- Table()
abbrev pub new_table : Table
new_table = record { used = 0; max_size = 4096; entries = [] }

-- The last entry of the deque, and the deque after pop_back(); `none` is an empty deque.
unfoldable pub pop_back : List Header → Option (List Header × Header)
pop_back [] = none
pop_back (x ∷ []) = some ([], x)
pop_back (x ∷ y ∷ ys) = elim (pop_back (y ∷ ys)) [
  | none ↦ none
  | some (front, back) ↦ some (x ∷ front, back)
]

-- The loop of Table::evict; `none` is back() of an empty deque, which is undefined, or a loop
-- without an end. Arithmetic on size_t wraps.
unfoldable pub evict_loop : ℕ → Table → Option Table
evict_loop zero t = if ltb t.max_size t.used then none else some t
evict_loop (suc fuel) t =
    if ltb t.max_size t.used
    then (elim (pop_back t.entries) [
      | none ↦ none
      | some (front, back) ↦
          evict_loop fuel
            (record t { used = (t.used + 2 ^ 64 - size back) % 2 ^ 64; entries = front })
    ])
    else some t

-- Table::evict. Each round removes an entry, so a round for each is enough.
unfoldable pub evict : Table → Option Table
evict t = evict_loop (length t.entries) t

-- Table::set_max_size
unfoldable pub set_max_size : Table → ℕ → Option Table
set_max_size t sz = evict (record t { max_size = sz })

-- Table::add
unfoldable pub add : Table → Header → Option Table
add t h = evict (record t { used = (t.used + size h) % 2 ^ 64; entries = h ∷ t.entries })

-- Table::reset
unfoldable pub reset : Table → Option Table
reset t = elim (evict (record t { max_size = 0 })) [
  | none ↦ none
  | some t' ↦ some (record t' { max_size = 4096 })
]

-- Table::at; `none` is std::out_of_range.
unfoldable pub at : Table → ℕ → Option Header
at t index =
    if ltb index 1
    then none
    else if ltb index 62
    then get_elem? static_table index
    else get_elem? t.entries (index - 62)

-- One loop of best_match: the index of the first header that the test accepts, counted from `i`.
unfoldable pub find_from : (Header → Bool) → ℕ → List Header → Option ℕ
find_from test i [] = none
find_from test i (h ∷ hs) = let rest = find_from test (suc i) hs in if test h then some i else rest

abbrev pub or_else : Option ℕ → ℕ → ℕ
or_else none n = n
or_else (some i) n = i

-- The static table from index 1 on.
abbrev pub static_entries : List Header
static_entries = elim static_table [ [] ↦ [] | x ∷ xs ↦ xs ]

-- Table::best_match(name)
unfoldable pub best_match_name : Table → List ℕ → ℕ
best_match_name t name =
    or_else (find_from (λ g. same name g.name) 1 static_entries)
      (or_else (find_from (λ g. same name g.name) (length static_table) t.entries) 0)

-- Table::best_match(h)
unfoldable pub best_match : Table → Header → ℕ
best_match t h = or_else (find_from (λ g. same_header h g) 1 static_entries) (
    or_else (find_from (λ g. same_header h g) (length static_table) t.entries)
      (best_match_name t h.name))
