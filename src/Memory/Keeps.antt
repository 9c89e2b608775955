-- ===== src/Memory/Keeps.antt =====
-- Memory is append-only.
use chief_opportunity_intell.Prelude.{
  not, ◌&&◌, ℕ, String, ◌≡◌, refl, inl, inr, false, Option, none, some, List, [], ◌∷◌, ◌++◌, str_eq,
  ◌==◌, Bool-cases, Result, ok, err,
}
use chief_opportunity_intell.Memory.{
  active_semantic, write_outcome, write_episodic, MemoryError, write_semantic, MemoryStore, insert,
  is_open, MemoryRecord, supersede, write_over,
}
use chief_opportunity_intell.Prelude.Texts.{strip}

-- What a row says, and when it started to be believed, stays; a row that is closed stays closed.
abbrev pub Same : MemoryRecord → MemoryRecord → Type 0
Same r s =
    (record s { valid_to = r.valid_to; superseded_by_id = r.superseded_by_id } ≡ r)
    × ((is_open s.valid_to && not (is_open r.valid_to)) ≡ false)

still_closed : (t : Option ℕ) → (is_open t && not (is_open t)) ≡ false
still_closed none = refl
still_closed (some t) = refl

-- The old rows come first in the new table, in their order.
pub Extends : List MemoryRecord → List MemoryRecord → Type 0
Extends [] new = Unit {0}
Extends (r ∷ old) [] = ⊥
Extends (r ∷ old) (s ∷ new) = Same r s × Extends old new

Extends-append : (old more : List MemoryRecord) → Extends old (old ++ more)
unfolding Extends
Extends-append [] more = tt
Extends-append (r ∷ old) more = ((refl, still_closed r.valid_to), Extends-append old more)

Extends-refl : (rows : List MemoryRecord) → Extends rows rows
unfolding Extends
Extends-refl [] = tt
Extends-refl (r ∷ rows) = ((refl, still_closed r.valid_to), Extends-refl rows)

Extends-supersede :
    (old new : List MemoryRecord) (old_id new_id moment : ℕ)
    → Extends old new
    → Extends old (supersede new old_id new_id moment)
unfolding Extends supersede
Extends-supersede [] new old_id new_id moment h = tt
Extends-supersede (r ∷ old) [] old_id new_id moment h = h
Extends-supersede (r ∷ old) (s ∷ new) old_id new_id moment ((same, closed), rest) =
    elim (Bool-cases (s.id == old_id)) [
      | inl hit ↦ (rw hit (same, refl), Extends-supersede old new old_id new_id moment rest)
      | inr miss ↦ (rw miss (same, closed), Extends-supersede old new old_id new_id moment rest)
    ]

Extends-write_over :
    (m : MemoryStore) (found : Option MemoryRecord) (r : MemoryRecord)
    → Extends m.rows (write_over m found r).0.rows
unfolding write_over insert
Extends-write_over m none r = Extends-append m.rows (r ∷ [])
Extends-write_over m (some existing) r = elim (Bool-cases (str_eq existing.content r.content)) [
  | inl same ↦ rw same (Extends-refl m.rows)
  | inr differs ↦ rw differs (
      Extends-supersede m.rows (m.rows ++ r ∷ []) existing.id r.id m.clock
        (Extends-append m.rows (r ∷ [])))
]

-- The writes of `MemoryService`.
pub data Write : Type 0 where
  semantic_write : ℕ → String → String → String → Option ℕ → Write
  episodic_write outcome_write : ℕ → String → String → Option String → Option ℕ → Write

-- The store after a write; a refused write leaves it alone.
unfoldable pub after_semantic :
    MemoryStore → Result MemoryError (MemoryStore × MemoryRecord) → MemoryStore
after_semantic m (ok (n, r)) = n
after_semantic m (err e) = m

unfoldable pub perform : MemoryStore → Write → MemoryStore
unfolding after_semantic write_semantic write_episodic write_outcome
perform m (semantic_write u k c p i) = after_semantic m (write_semantic m u k c p i)
perform m (episodic_write u c p s i) = (write_episodic m u c p s i).0
perform m (outcome_write u c p s i) = (write_outcome m u c p s i).0

-- Whatever is written, every row that was there stays where it is with the same owner, key, content,
-- provenance and start; a row that is closed is not opened again.
pub perform-Extends : (m : MemoryStore) (w : Write) → Extends m.rows (perform m w).rows
unfolding perform write_semantic after_semantic insert
perform-Extends m (semantic_write u k c p i) = elim (Bool-cases (str_eq (strip k) "")) [
  | inl blank ↦ rw blank (Extends-refl m.rows)
  | inr named ↦ rw named (Extends-write_over m (active_semantic m.rows u k) _)
]
perform-Extends m (episodic_write u c p s i) = Extends-append m.rows _
perform-Extends m (outcome_write u c p s i) = Extends-append m.rows _
