-- ===== src/Texts/Tests.antt =====
-- Places in a short path, and the names of a type.
use x_pipeline.Prelude.{
  ℕ, false, [], ◌∷◌, none, some, Bytes, codes, strip_prefix, get_elem?, ◌≡◌, refl,
}
use x_pipeline.Reader.{index}
use x_pipeline.Texts.{
  index_n, index_from, last_index, last_index_n, last_index_from, short_names, dotted,
  registered_names, parse_address, FileInfo,
}
use x_pipeline.Texts.Occurrences.{occurrences, index_n-occurrences}

program : Unit {0}
unfolding index strip_prefix index_n index_from last_index last_index_n last_index_from short_names
    dotted registered_names parse_address
program = tt

second_slash :
    (index_n (codes "a/b/c") (codes "/") 2 ≡ some 3)
    × (index_n (codes "a/b/c") (codes "/") 3 ≡ none)
    × (last_index_n (codes "a/b/c") (codes "/") 2 ≡ some 1)
unfolding program
second_slash = (refl, refl, refl)

names :
    (registered_names (codes "x/core/log") (codes "T") ≡ codes "log.T" ∷ codes "core.log.T" ∷ [])
    × (registered_names (codes "log") (codes "T") ≡ [])
unfolding program
names = (refl, refl)

udp_address : parse_address (λ s. s) (codes "udp://host:1") ≡ (codes "host:1", codes "udp")
unfolding program
udp_address = refl

index_n-occurrences_example :
    index_n (codes "a/b/c") (codes "/") 2 ≡ get_elem? (occurrences 0 (codes "a/b/c") (codes "/")) 1
index_n-occurrences_example = index_n-occurrences b'/' [] (codes "a/b/c") 1

abbrev file : ℕ → Bytes → FileInfo
file time name = record { mod_time = time; name = name; is_dir = false; is_symlink = false }

abbrev file_1b : FileInfo
file_1b = file 1 (codes "b")

abbrev file_2a : FileInfo
file_2a = file 2 (codes "a")

abbrev file_2b : FileInfo
file_2b = file 2 (codes "b")
