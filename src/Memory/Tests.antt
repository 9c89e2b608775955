-- ===== src/Memory/Tests.antt =====
-- Worked examples of the memory service.
use chief_opportunity_intell.Prelude.{ℕ, ◌+◌, String, ◌≡◌, refl, none, some, [], ◌∷◌, arith, ok}
use chief_opportunity_intell.Memory.{
  supersede, active_semantic, insert, write_over, same_type, is_active, semantic, new_record,
  MemoryStore, write_semantic, MemoryRecord,
}
use chief_opportunity_intell.Prelude.Texts.{is_space, strip}
use chief_opportunity_intell.Memory.Keeps.{perform-Extends, semantic_write, perform, Extends}
use chief_opportunity_intell.Memory.Current.{write_semantic-padded, IsUnique, active_count}
use chief_opportunity_intell.Memory.Superseded.{IdsFrom}
use chief_opportunity_intell.Memory.View.{write_semantic-believed, IsSound, map_content, believed}

abbrev empty : MemoryStore
empty = record { rows = []; next_id = 1; clock = 100 }

abbrev city : String → ℕ → ℕ → MemoryRecord
city content id moment =
    record (new_record (record { rows = []; next_id = id; clock = moment }) 7 semantic content
      "chat") { key = some "city" }

abbrev one_city : MemoryStore
one_city = record { rows = city "Chennai" 1 100 ∷ []; next_id = 2; clock = 200 }

abbrev moved : MemoryStore
moved = record {
  rows =
      record (city "Chennai" 1 100) { valid_to = some 200; superseded_by_id = some 2 }
      ∷ city "Pune" 2 200
      ∷ [];
  next_id = 3;
  clock = 200;
}

abbrev both : MemoryStore
both = record { rows = city "Chennai" 1 100 ∷ city "Pune" 2 200 ∷ []; next_id = 3; clock = 200 }

perform-Extends_example :
    Extends one_city.rows (perform one_city (semantic_write 7 "city" "Pune" "chat" none)).rows
perform-Extends_example = perform-Extends one_city (semantic_write 7 "city" "Pune" "chat" none)

only_city : IsUnique one_city.rows
unfolding active_count is_active same_type
only_city v j = ground arith

written : write_semantic one_city 7 "city" "Pune" "chat" none ≡ ok (moved, city "Pune" 2 200)
unfolding write_semantic strip is_space write_over insert active_semantic same_type supersede
    is_active
written = refl

write_semantic-believed_example : (believed moved 7 "city" ≡ some "Pune") × IsSound moved
unfolding strip is_space believed map_content active_semantic is_active same_type IdsFrom
write_semantic-believed_example =
    write_semantic-believed one_city moved 7 7 "city" "city" "Pune" "chat" none (city "Pune" 2 200)
      refl (only_city, (ground arith, ground arith)) written

-- A key with a blank behind it: both cities are believed.
write_semantic-padded_example :
    active_count 7 (strip "city ") both.rows ≡ active_count 7 (strip "city ") one_city.rows + 1
unfolding write_semantic strip is_space write_over insert active_semantic same_type is_active
write_semantic-padded_example =
    write_semantic-padded one_city both 7 "city " "Pune" "chat" none (city "Pune" 2 200) refl refl
