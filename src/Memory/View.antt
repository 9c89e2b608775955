-- ===== src/Memory/View.antt =====
-- The semantic memory as a caller sees it: what is believed under each user's keys. The rows that
-- were superseded, and the order of the table, are not part of that view.
use chief_opportunity_intell.Prelude.{
  ℕ, suc, ◌≤◌, String, ◌≡◌, refl, sym, ap, ◌∙◌, inl, inr, true, false, ◌&&◌, Option, none, some,
  List, [], ◌∷◌, ◌++◌, arith, str_eq, eq_iff, ◌==◌, if◌then◌else◌, Bool-cases, ok,
}
use chief_opportunity_intell.Memory.{
  semantic, new_record, same_type, write_semantic, insert, write_over, active_semantic, MemoryStore,
  is_active, MemoryRecord, supersede,
}
use chief_opportunity_intell.Memory.Current.{
  write_over-IsUnique, raised-ok, IsUnique, is_active_self, active_count,
}
use chief_opportunity_intell.Prelude.Texts.{strip}
use chief_opportunity_intell.Memory.Superseded.{
  IdsFrom, active_alike, active_semantic-append, active_semantic-append_other, supersede-append,
  found-between, supersede-other, supersede-own,
}

unfoldable pub map_content : Option MemoryRecord → Option String
map_content none = none
map_content (some r) = some r.content

-- What is believed under a user's key, if anything.
unfoldable pub believed : MemoryStore → ℕ → String → Option String
unfolding map_content
believed m u k = map_content (active_semantic m.rows u k)

active_semantic-write_own :
    (m : MemoryStore) (u : ℕ) (k : String) (r : MemoryRecord) (found : Option MemoryRecord)
    → IdsFrom 0 m.rows m.next_id
    → active_count u k m.rows ≤ 1
    → active_semantic m.rows u k ≡ found
    → is_active u k r ≡ true
    → r.id ≡ m.next_id
    → map_content (active_semantic (write_over m found r).0.rows u k) ≡ some r.content
unfolding write_over insert map_content
active_semantic-write_own m u k r none ids one h own new =
    rw (active_semantic-append u k m.rows r h own) refl
active_semantic-write_own m u k r (some e) ids one h own new =
    elim (Bool-cases (str_eq e.content r.content)) [
      | inl same ↦ rw (same, h) (ground (arith, eq_iff e.content r.content))
      | inr differs ↦
          let (low, below, active) = found-between 0 m.next_id u k m.rows e ids h in
          let miss : (r.id == e.id) ≡ false = ground arith in
          let nothing = supersede-own 0 m.next_id u k m.rows e r.id m.clock ids h one in
          rw
            (
              differs,
              supersede-append m.rows r e.id r.id m.clock miss,
              active_semantic-append u k _ r nothing own,
            )
            refl
    ]

active_semantic-write_other :
    (m : MemoryStore) (u v : ℕ) (k j : String) (r : MemoryRecord) (found : Option MemoryRecord)
    → IdsFrom 0 m.rows m.next_id
    → active_semantic m.rows u k ≡ found
    → is_active u k r ≡ true
    → is_active v j r ≡ false
    → r.id ≡ m.next_id
    → active_semantic (write_over m found r).0.rows v j ≡ active_semantic m.rows v j
unfolding write_over insert
active_semantic-write_other m u v k j r none ids h own other new =
    active_semantic-append_other v j m.rows r other
active_semantic-write_other m u v k j r (some e) ids h own other new =
    elim (Bool-cases (str_eq e.content r.content)) [
      | inl same ↦ rw same refl
      | inr differs ↦
          let (low, below, active) = found-between 0 m.next_id u k m.rows e ids h in
          let miss : (r.id == e.id) ≡ false = ground arith in
          let elsewhere : is_active v j e ≡ false =
            active_alike u v k j e active ∙ sym (active_alike u v k j r own) ∙ other in
          rw
            (
              differs,
              supersede-append m.rows r e.id r.id m.clock miss,
              active_semantic-append_other v j _ r other,
              supersede-other 0 m.next_id u v k j m.rows e r.id m.clock ids h elsewhere,
            )
            refl
    ]

write_over-believed :
    (m : MemoryStore) (u v : ℕ) (k j : String) (r : MemoryRecord)
    → IdsFrom 0 m.rows m.next_id
    → IsUnique m.rows
    → is_active u k r ≡ true
    → r.id ≡ m.next_id
    → believed (write_over m (active_semantic m.rows u k) r).0 v j
      ≡ (if u == v && str_eq k j then some r.content else believed m v j)
unfolding believed
write_over-believed m u v k j r ids unique own new =
    let alike = active_alike u v k j r own in
    elim (Bool-cases (is_active v j r)) [
      | inl here ↦
          let yes : (u == v && str_eq k j) ≡ true = sym alike ∙ here in
          let same_user : u ≡ v = ground arith in
          let same_key : k ≡ j = ground (arith, eq_iff k j) in
          rw yes (
            rw (← same_user, ← same_key)
              (active_semantic-write_own m u k r _ ids (unique u k) refl own new))
      | inr other ↦
          let no : (u == v && str_eq k j) ≡ false = sym alike ∙ other in
          rw no (ap map_content (active_semantic-write_other m u v k j r _ ids refl own other new))
    ]

IdsFrom-append :
    (low high : ℕ) (rows : List MemoryRecord) (r : MemoryRecord)
    → IdsFrom low rows high
    → r.id ≡ high
    → IdsFrom low (rows ++ r ∷ []) (suc high)
unfolding IdsFrom
IdsFrom-append low high [] r ids new = (ground arith, ground arith)
IdsFrom-append low high (s ∷ rows) r (le, ids) new =
    (le, IdsFrom-append (suc s.id) high rows r ids new)

IdsFrom-supersede :
    (low high : ℕ) (rows : List MemoryRecord) (old_id new_id moment : ℕ)
    → IdsFrom low rows high
    → IdsFrom low (supersede rows old_id new_id moment) high
unfolding IdsFrom supersede
IdsFrom-supersede low high [] old_id new_id moment ids = ids
IdsFrom-supersede low high (r ∷ rows) old_id new_id moment (le, ids) =
    let rest = IdsFrom-supersede (suc r.id) high rows old_id new_id moment ids in
    elim (Bool-cases (r.id == old_id)) [
      | inl hit ↦ rw hit (le, rest)
      | inr miss ↦ rw miss (le, rest)
    ]

write_over-IdsFrom :
    (m : MemoryStore) (found : Option MemoryRecord) (r : MemoryRecord)
    → IdsFrom 0 m.rows m.next_id
    → r.id ≡ m.next_id
    → IdsFrom 0 (write_over m found r).0.rows (write_over m found r).0.next_id
unfolding write_over insert
write_over-IdsFrom m none r ids new = IdsFrom-append 0 m.next_id m.rows r ids new
write_over-IdsFrom m (some e) r ids new = elim (Bool-cases (str_eq e.content r.content)) [
  | inl same ↦ rw same ids
  | inr differs ↦ rw differs (
      IdsFrom-supersede 0 (suc m.next_id) (m.rows ++ r ∷ []) e.id r.id m.clock
        (IdsFrom-append 0 m.next_id m.rows r ids new))
]

-- What holds of the table between calls: at most one believed record per user and key, and ids that
-- grow along the table, below the next free one.
abbrev pub IsSound : MemoryStore → Type 0
IsSound m = IsUnique m.rows × IdsFrom 0 m.rows m.next_id

-- On a sound table, a write under a key that has no white space around it makes its content what is
-- believed under that user's key, leaves what is believed under every other user and key as it was,
-- and keeps the table sound.
pub write_semantic-believed :
    (m n : MemoryStore) (u v : ℕ) (k j content provenance : String) (confidence : Option ℕ)
    (r : MemoryRecord)
    → strip k ≡ k
    → IsSound m
    → write_semantic m u k content provenance confidence ≡ ok (n, r)
    → (believed n v j ≡ (if u == v && str_eq k j then some content else believed m v j)) × IsSound n
unfolding write_semantic same_type
write_semantic-believed m n u v k j content provenance confidence r clean (unique, ids) h =
    let made = record (new_record m u semantic content provenance) {
      key = some (strip k);
      confidence = confidence;
    } in
    let same = raised-ok _ _ (write_over m (active_semantic m.rows u k) made) n r h in
    let own = is_active_self u k made refl refl (ap some clean) refl in
    let sound : IsSound (write_over m (active_semantic m.rows u k) made).0 = (
      write_over-IsUnique m made k (ap some clean) unique,
      write_over-IdsFrom m (active_semantic m.rows u k) made ids refl,
    ) in
    rw (← same) (write_over-believed m u v k j made ids unique own refl, sound)
