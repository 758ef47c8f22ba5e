-- ===== src/Http2/Hpack/Table/Tests.antt =====
-- The theorems on the dynamic table at concrete headers.
use http_2_0_server.Base.{◌≡◌, refl, some, [], ◌∷◌, arith, text, same}
use http_2_0_server.Http2.Names.{k_method, k_method_get}
use http_2_0_server.Http2.Headers.{Header, header, size, total_size, same_header}
use http_2_0_server.Http2.Hpack.Table.{
  Table, new_table, evict, evict_loop, pop_back, set_max_size, add, at, best_match, best_match_name,
  find_from,
}
use http_2_0_server.Http2.Hpack.Table.Static.{static_table}
use http_2_0_server.Http2.Hpack.Table.Eviction.{
  IsTable, Evicts, with_entry, set_max_size-Evicts, add-Evicts,
}

abbrev one : Header
one = header (text "x-one") (text "1")

abbrev two : Header
two = header (text "x-two") (text "22")

-- Room for 80 bytes, of which the two entries take 77.
abbrev full : Table
full = record { used = 77; max_size = 80; entries = two ∷ one ∷ [] }

full-IsTable : IsTable full
unfolding total_size size
full-IsTable = record { exact = refl; within = omega arith; max_word = omega arith }

-- The older of the two is evicted.
evicted_one : set_max_size full 50 ≡ some (record { used = 39; max_size = 50; entries = two ∷ [] })
unfolding set_max_size size evict evict_loop pop_back
evicted_one = refl

set_max_size-Evicts_example :
    (t' : Table) × (set_max_size full 50 ≡ some t')
    × IsTable t'
    × Evicts (record full { max_size = 50 }) t'
set_max_size-Evicts_example = set_max_size-Evicts full 50 full-IsTable (omega arith)

add-Evicts_example :
    (t' : Table) × (add full one ≡ some t') × IsTable t' × Evicts (with_entry full one) t'
add-Evicts_example = add-Evicts full one full-IsTable (unfold size in omega arith)

abbrev large : Header
large = header (text "x-a-long-name-that-does-not-fit-this-table") (text "and a long value")

large_added : add full large ≡ some (record { used = 0; max_size = 80; entries = [] })
unfolding add size evict evict_loop pop_back
large_added = refl

at_62 : at full 62 ≡ some two
unfolding at
at_62 = refl

-- `:method: PUT` shares its name with the entries 2 and 3.
abbrev put : Header
put = header k_method (text "PUT")

match_put : best_match full put ≡ 2
unfolding best_match find_from static_table same_header same best_match_name
match_put = refl

match_none : best_match new_table one ≡ 0
unfolding best_match find_from static_table same_header same best_match_name
match_none = refl

at_2 : at new_table 2 ≡ some (header k_method k_method_get)
unfolding at static_table
at_2 = refl
