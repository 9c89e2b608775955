-- ===== src/Memory.antt =====
-- backend/app/memory/service.py: `MemoryService` on the table of models/memory.py. The table is the
-- list of its rows in the order of insertion; ids and times are numbers, the next free id and the
-- current time are given to each call. A write whose statement succeeds is modelled; the database's
-- own errors are not. `provenance` is its JSON text, `importance` and `confidence` are in ten
-- thousandths.
pub mod Keeps
pub mod Current
pub mod Recall
pub mod Superseded
pub mod View
mod Tests
use chief_opportunity_intell.Prelude.{
  ℕ, suc, ◌+◌, ◌-◌, ◌/◌, String, Bool, true, false, not, ◌&&◌, Option, none, some, List, [], ◌∷◌,
  ◌++◌, str_eq, ltb, ◌==◌, if◌then◌else◌, take, select, Result, ok, err, ◌>>◌, raise_if,
}
use chief_opportunity_intell.Prelude.Texts.{strip}

pub data MemoryType : Type 0 where
  episodic semantic outcome : MemoryType

-- `memory_type == other`
unfoldable pub same_type : MemoryType → MemoryType → Bool
same_type episodic episodic = true
same_type semantic semantic = true
same_type outcome outcome = true
same_type _ _ = false

pub record MemoryRecord : Type 0 where
  pub id : ℕ
  pub user_id : ℕ
  pub memory_type : MemoryType
  pub key : Option String
  pub content : String
  pub importance : Option ℕ
  pub confidence : Option ℕ
  pub provenance : String
  pub source_ref : Option String
  pub created_at : ℕ
  pub valid_from : ℕ
  pub valid_to : Option ℕ
  pub superseded_by_id : Option ℕ

-- The session's table, the next free id and the time of the call.
pub record MemoryStore : Type 0 where
  pub rows : List MemoryRecord
  pub next_id : ℕ
  pub clock : ℕ

pub data MemoryError : Type 0 where
  key_required not_found : MemoryError

abbrev pub is_open : Option ℕ → Bool
is_open none = true
is_open (some _) = false

-- `MemoryRecord.key == key` in SQL, where NULL equals nothing.
abbrev pub has_key : Option String → String → Bool
has_key none key = false
has_key (some k) key = str_eq k key

-- The `where` of `_active_semantic`, on one row.
unfoldable pub is_active : ℕ → String → MemoryRecord → Bool
unfolding same_type
is_active user_id key r =
    r.user_id == user_id
    && same_type r.memory_type semantic
    && has_key r.key key
    && is_open r.valid_to

-- `_active_semantic`
unfoldable pub active_semantic : List MemoryRecord → ℕ → String → Option MemoryRecord
active_semantic [] user_id key = none
active_semantic (r ∷ rows) user_id key =
    if is_active user_id key r then some r else active_semantic rows user_id key

-- `_supersede`: the row with the old id is closed and linked to the new one.
unfoldable pub supersede : List MemoryRecord → ℕ → ℕ → ℕ → List MemoryRecord
supersede [] old_id new_id moment = []
supersede (r ∷ rows) old_id new_id moment =
    (if r.id == old_id
      then record r { valid_to = some moment; superseded_by_id = some new_id }
      else r)
    ∷ supersede rows old_id new_id moment

-- session.add(record) and flush()
unfoldable pub insert : MemoryStore → MemoryRecord → MemoryStore
insert m r = record m { rows = m.rows ++ r ∷ []; next_id = suc m.next_id }

-- A new row, open from now on.
abbrev pub new_record : MemoryStore → ℕ → MemoryType → String → String → MemoryRecord
new_record m user_id memory_type content provenance = record {
  id = m.next_id;
  user_id = user_id;
  memory_type = memory_type;
  key = none;
  content = content;
  importance = none;
  confidence = none;
  provenance = provenance;
  source_ref = none;
  created_at = m.clock;
  valid_from = m.clock;
  valid_to = none;
  superseded_by_id = none;
}

-- The end of `write_semantic`, on what `_active_semantic` found.
unfoldable pub write_over :
    MemoryStore → Option MemoryRecord → MemoryRecord → MemoryStore × MemoryRecord
unfolding insert supersede
write_over m none r = (insert m r, r)
write_over m (some existing) r =
    if str_eq existing.content r.content
    then (m, existing)
    else (record (insert m r) { rows = supersede (insert m r).rows existing.id r.id m.clock }, r)

unfoldable pub write_semantic :
    MemoryStore
    → ℕ
    → String
    → String
    → String
    → Option ℕ
    → Result MemoryError (MemoryStore × MemoryRecord)
unfolding write_over
write_semantic m user_id key content provenance confidence =
    raise_if (str_eq (strip key) "") key_required
    >> ok (
        write_over m (active_semantic m.rows user_id key)
          (record (new_record m user_id semantic content provenance) {
            key = some (strip key);
            confidence = confidence;
          }))

unfoldable pub write_episodic :
    MemoryStore → ℕ → String → String → Option String → Option ℕ → MemoryStore × MemoryRecord
unfolding insert
write_episodic m user_id content provenance source_ref importance =
    let r = record (new_record m user_id episodic content provenance) {
      source_ref = source_ref;
      importance = importance;
    } in
    (insert m r, r)

unfoldable pub write_outcome :
    MemoryStore → ℕ → String → String → Option String → Option ℕ → MemoryStore × MemoryRecord
unfolding insert
write_outcome m user_id content provenance source_ref confidence =
    let r = record (new_record m user_id outcome content provenance) {
      source_ref = source_ref;
      confidence = confidence;
    } in
    (insert m r, r)

-- `get_record`, on what `session.get` finds.
unfoldable pub owned : Option MemoryRecord → ℕ → Result MemoryError MemoryRecord
owned none user_id = err not_found
owned (some r) user_id = if r.user_id == user_id then ok r else err not_found

unfoldable pub row_at : List MemoryRecord → ℕ → Option MemoryRecord
row_at [] record_id = none
row_at (r ∷ rows) record_id = if r.id == record_id then some r else row_at rows record_id

unfoldable pub get_record : MemoryStore → ℕ → ℕ → Result MemoryError MemoryRecord
unfolding owned row_at
get_record m user_id record_id = owned (row_at m.rows record_id) user_id

-- The `where` of `recall`, on one row.
unfoldable pub is_recalled : ℕ → MemoryType → MemoryRecord → Bool
unfolding same_type
is_recalled user_id memory_type r =
    r.user_id == user_id && same_type r.memory_type memory_type && is_open r.valid_to

-- ORDER BY created_at DESC
unfoldable pub insert_newest : MemoryRecord → List MemoryRecord → List MemoryRecord
insert_newest r [] = r ∷ []
insert_newest r (s ∷ rows) =
    if ltb r.created_at s.created_at then s ∷ insert_newest r rows else r ∷ s ∷ rows

unfoldable pub newest_first : List MemoryRecord → List MemoryRecord
unfolding insert_newest
newest_first [] = []
newest_first (r ∷ rows) = insert_newest r (newest_first rows)

unfoldable pub recall : MemoryStore → ℕ → MemoryType → ℕ → List MemoryRecord
unfolding newest_first is_recalled
recall m user_id memory_type limit =
    take limit (newest_first (select (is_recalled user_id memory_type) m.rows))
