-- ===== src/Memory/Current.antt =====
-- At most one semantic record of a user is believed under a key, as long as keys come without
-- surrounding white space.
use chief_opportunity_intell.Prelude.{
  ℕ, ◌+◌, ◌≤◌, String, ◌≡◌, refl, ap, inl, inr, Bool, true, false, Option, none, some, List, [],
  ◌∷◌, ◌++◌, arith, eq_iff, eq_refl, Bool-cases, length, select, ok, ◌>>◌, raise_if,
}
use chief_opportunity_intell.Memory.{
  semantic, new_record, same_type, MemoryError, write_semantic, MemoryStore, insert, write_over,
  is_active, MemoryRecord, supersede, active_semantic,
}
use chief_opportunity_intell.Prelude.Texts.{strip}

-- How many rows `_active_semantic` could return.
unfoldable pub active_count : ℕ → String → List MemoryRecord → ℕ
unfolding is_active
active_count user_id key rows = length (select (is_active user_id key) rows)

active_count-append :
    (u : ℕ) (k : String) (rows : List MemoryRecord) (r : MemoryRecord)
    → active_count u k (rows ++ r ∷ []) ≤ active_count u k rows + 1
unfolding active_count
active_count-append u k [] r = ground arith
active_count-append u k (s ∷ rows) r = ground (arith, active_count-append u k rows r)

pub is_active-closed :
    (u : ℕ) (k : String) (r : MemoryRecord) (moment new_id : ℕ)
    → is_active u k (record r { valid_to = some moment; superseded_by_id = some new_id }) ≡ false
unfolding is_active
is_active-closed u k r moment new_id = ground arith

supersede-le :
    (u : ℕ) (k : String) (rows : List MemoryRecord) (old_id new_id moment : ℕ)
    → active_count u k (supersede rows old_id new_id moment) ≤ active_count u k rows
unfolding active_count supersede
supersede-le u k [] old_id new_id moment = ground arith
supersede-le u k (r ∷ rows) old_id new_id moment =
    let closed = is_active-closed u k r moment new_id in
    ground (arith, supersede-le u k rows old_id new_id moment)

-- Closing the row that was found leaves one less, also with the new row behind the others.
supersede-lt :
    (u : ℕ) (k : String) (rows : List MemoryRecord) (more : MemoryRecord) (existing : MemoryRecord)
    (new_id moment : ℕ)
    → active_semantic rows u k ≡ some existing
    → active_count u k (supersede (rows ++ more ∷ []) existing.id new_id moment)
      ≤ active_count u k rows
unfolding active_count supersede active_semantic
supersede-lt u k [] more existing new_id moment h = ground arith
supersede-lt u k (r ∷ rows) more existing new_id moment h =
    let closed = is_active-closed u k r moment new_id in
    let le = supersede-le u k (rows ++ more ∷ []) existing.id new_id moment in
    let appended = active_count-append u k rows more in
    elim (Bool-cases (is_active u k r)) [
      | inl found ↦ let same : r.id ≡ existing.id = ground arith in ground arith
      | inr other ↦ ground (arith, supersede-lt u k rows more existing new_id moment)
    ]

none-active :
    (u : ℕ) (k : String) (rows : List MemoryRecord)
    → active_semantic rows u k ≡ none
    → active_count u k rows ≡ 0
unfolding active_count active_semantic
none-active u k [] h = ground arith
none-active u k (r ∷ rows) h = ground (arith, none-active u k rows)

write_over_unique :
    (m : MemoryStore) (u : ℕ) (k : String) (found : Option MemoryRecord) (r : MemoryRecord)
    → active_semantic m.rows u k ≡ found
    → active_count u k m.rows ≤ 1
    → active_count u k (write_over m found r).0.rows ≤ 1
unfolding write_over insert
write_over_unique m u k none r h one =
    let zero_count = none-active u k m.rows h in
    let le = active_count-append u k m.rows r in ground arith
write_over_unique m u k (some existing) r h one =
    ground (arith, supersede-lt u k m.rows r existing r.id m.clock)

append_inactive :
    (u : ℕ) (k : String) (rows : List MemoryRecord) (r : MemoryRecord)
    → is_active u k r ≡ false
    → active_count u k (rows ++ r ∷ []) ≡ active_count u k rows
unfolding active_count
append_inactive u k [] r h = ground arith
append_inactive u k (s ∷ rows) r h = ground (arith, append_inactive u k rows r h)

write_over-inactive :
    (m : MemoryStore) (u : ℕ) (k : String) (found : Option MemoryRecord) (r : MemoryRecord)
    → is_active u k r ≡ false
    → active_count u k (write_over m found r).0.rows ≤ active_count u k m.rows
unfolding write_over insert
write_over-inactive m u k none r h = let kept = append_inactive u k m.rows r h in ground arith
write_over-inactive m u k (some existing) r h =
    let kept = append_inactive u k m.rows r h in
    let le = supersede-le u k (m.rows ++ r ∷ []) existing.id r.id m.clock in ground arith

-- A row is active only under its own owner and key.
pub is_active-own :
    (v : ℕ) (j : String) (r : MemoryRecord) (k : String)
    → r.key ≡ some k
    → is_active v j r ≡ true
    → (r.user_id ≡ v) × (k ≡ j)
unfolding is_active
is_active-own v j r k key h = (ground arith, ground (arith, eq_iff k j))

-- At most one semantic record of each user is believed under each key.
abbrev pub IsUnique : List MemoryRecord → Type 0
IsUnique rows = (v : ℕ) (j : String) → active_count v j rows ≤ 1

pub write_over-IsUnique :
    (m : MemoryStore) (r : MemoryRecord) (k : String)
    → r.key ≡ some k
    → IsUnique m.rows
    → IsUnique (write_over m (active_semantic m.rows r.user_id k) r).0.rows
write_over-IsUnique m r k key unique v j = elim (Bool-cases (is_active v j r)) [
  | inl own ↦
      let (user, same) = is_active-own v j r k key own in
      rw (← user, ← same) (write_over_unique m r.user_id k _ r refl (unique r.user_id k))
  | inr other ↦
      let le = write_over-inactive m v j (active_semantic m.rows r.user_id k) r other in
      let one = unique v j in ground arith
]

pub raised-ok :
    (b : Bool) (e : MemoryError) (out : MemoryStore × MemoryRecord) (n : MemoryStore)
    (r : MemoryRecord)
    → (raise_if b e >> ok out) ≡ ok (n, r)
    → out.0 ≡ n
raised-ok true e out n r h = ground arith
raised-ok false e out n r h = ground arith

-- Where each user has at most one believed semantic record per key, a write under a key that has no
-- white space around it keeps it so.
pub write_semantic-IsUnique :
    (m n : MemoryStore) (u : ℕ) (k content provenance : String) (confidence : Option ℕ)
    (r : MemoryRecord)
    → strip k ≡ k
    → IsUnique m.rows
    → write_semantic m u k content provenance confidence ≡ ok (n, r)
    → IsUnique n.rows
unfolding write_semantic
write_semantic-IsUnique m n u k content provenance confidence r clean unique h =
    let made = record (new_record m u semantic content provenance) {
      key = some (strip k);
      confidence = confidence;
    } in
    let same = raised-ok _ _ (write_over m (active_semantic m.rows u k) made) n r h in
    rw (← same) (write_over-IsUnique m made k (ap some clean) unique)

append_active :
    (u : ℕ) (k : String) (rows : List MemoryRecord) (r : MemoryRecord)
    → is_active u k r ≡ true
    → active_count u k (rows ++ r ∷ []) ≡ active_count u k rows + 1
unfolding active_count
append_active u k [] r h = ground arith
append_active u k (s ∷ rows) r h = ground (arith, append_active u k rows r h)

pub is_active_self :
    (u : ℕ) (k : String) (r : MemoryRecord)
    → r.user_id ≡ u
    → same_type r.memory_type semantic ≡ true
    → r.key ≡ some k
    → r.valid_to ≡ none
    → is_active u k r ≡ true
unfolding is_active
is_active_self u k r user type key open_to = ground (arith, eq_refl k)

write_over-nothing :
    (m : MemoryStore) (r : MemoryRecord) → (write_over m none r).0.rows ≡ m.rows ++ r ∷ []
unfolding write_over insert
write_over-nothing m r = refl

-- The lookup uses the key as it was given, the new record the stripped key: where nothing is believed
-- under the key as given, the write adds one more believed record under the stripped key, however
-- many there are already.
pub write_semantic-padded :
    (m n : MemoryStore) (u : ℕ) (k content provenance : String) (confidence : Option ℕ)
    (r : MemoryRecord)
    → active_semantic m.rows u k ≡ none
    → write_semantic m u k content provenance confidence ≡ ok (n, r)
    → active_count u (strip k) n.rows ≡ active_count u (strip k) m.rows + 1
unfolding write_semantic same_type
write_semantic-padded m n u k content provenance confidence r nothing_found h =
    let made = record (new_record m u semantic content provenance) {
      key = some (strip k);
      confidence = confidence;
    } in
    let same = raised-ok _ _ (write_over m (active_semantic m.rows u k) made) n r h in
    rw (← same, nothing_found, write_over-nothing)
      (append_active u (strip k) m.rows made (is_active_self u (strip k) made refl refl refl refl))
