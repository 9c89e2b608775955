-- ===== src/Memory/Superseded.antt =====
-- What appending a row and superseding one do to the active record under a key.
use chief_opportunity_intell.Prelude.{
  ℕ, suc, ◌≤◌, ◌<◌, String, ◌≡◌, refl, ap, inl, inr, true, false, ◌&&◌, Option, none, some, List,
  [], ◌∷◌, ◌++◌, arith, str_eq, eq_iff, ◌==◌, Bool-cases,
}
use chief_opportunity_intell.Memory.{has_key, active_semantic, is_active, MemoryRecord, supersede}
use chief_opportunity_intell.Memory.Current.{is_active-closed, active_count}

-- Ids grow along the table, from the first bound on and below the second.
unfoldable pub IdsFrom : ℕ → List MemoryRecord → ℕ → Type 0
IdsFrom low [] high = low ≤ high
IdsFrom low (r ∷ rows) high = (low ≤ r.id) × IdsFrom (suc r.id) rows high

has_key-alike : (o : Option String) (k j : String) → has_key o k ≡ true → has_key o j ≡ str_eq k j
has_key-alike none k j h = ground arith
has_key-alike (some own) k j h =
    let same : own ≡ k = ground (arith, eq_iff own k) in ap (λ t. str_eq t j) same

pub active_alike :
    (u v : ℕ) (k j : String) (r : MemoryRecord)
    → is_active u k r ≡ true
    → is_active v j r ≡ (u == v && str_eq k j)
unfolding is_active
active_alike u v k j r h = ground (arith, has_key-alike r.key k j)

pub active_semantic-append :
    (v : ℕ) (j : String) (rows : List MemoryRecord) (r : MemoryRecord)
    → active_semantic rows v j ≡ none
    → is_active v j r ≡ true
    → active_semantic (rows ++ r ∷ []) v j ≡ some r
unfolding active_semantic
active_semantic-append v j [] r h own = ground arith
active_semantic-append v j (s ∷ rows) r h own = ground (arith, active_semantic-append v j rows r)

pub active_semantic-append_other :
    (v : ℕ) (j : String) (rows : List MemoryRecord) (r : MemoryRecord)
    → is_active v j r ≡ false
    → active_semantic (rows ++ r ∷ []) v j ≡ active_semantic rows v j
unfolding active_semantic
active_semantic-append_other v j [] r other = ground arith
active_semantic-append_other v j (s ∷ rows) r other =
    ground (arith, active_semantic-append_other v j rows r other)

pub supersede-append :
    (rows : List MemoryRecord) (r : MemoryRecord) (old_id new_id moment : ℕ)
    → (r.id == old_id) ≡ false
    → supersede (rows ++ r ∷ []) old_id new_id moment
      ≡ supersede rows old_id new_id moment ++ r ∷ []
unfolding supersede
supersede-append [] r old_id new_id moment new = rw new refl
supersede-append (s ∷ rows) r old_id new_id moment new =
    rw (supersede-append rows r old_id new_id moment new) refl

-- Rows with greater ids stay as they are.
supersede-above :
    (low : ℕ) (rows : List MemoryRecord) (high old_id new_id moment : ℕ)
    → IdsFrom low rows high
    → old_id < low
    → supersede rows old_id new_id moment ≡ rows
unfolding supersede IdsFrom
supersede-above low [] high old_id new_id moment ids lt = refl
supersede-above low (r ∷ rows) high old_id new_id moment (le, ids) lt =
    let other : (r.id == old_id) ≡ false = ground arith in
    rw (other, supersede-above (suc r.id) rows high old_id new_id moment ids (ground arith)) refl

bounds-le : (low : ℕ) (rows : List MemoryRecord) (high : ℕ) → IdsFrom low rows high → low ≤ high
unfolding IdsFrom
bounds-le low [] high ids = ids
bounds-le low (r ∷ rows) high (le, ids) =
    let rest = bounds-le (suc r.id) rows high ids in ground arith

-- A row that is found has an id between the bounds, and is active.
pub found-between :
    (low high u : ℕ) (k : String) (rows : List MemoryRecord) (e : MemoryRecord)
    → IdsFrom low rows high
    → active_semantic rows u k ≡ some e
    → (low ≤ e.id) × (e.id < high) × (is_active u k e ≡ true)
unfolding active_semantic IdsFrom
found-between low high u k [] e ids h = ground arith
found-between low high u k (r ∷ rows) e (le, ids) h = elim (Bool-cases (is_active u k r)) [
  | inl found ↦
      let same : r ≡ e = ground arith in
      let lt = bounds-le (suc r.id) rows high ids in rw (← same) (le, lt, found)
  | inr other ↦
      let rest : active_semantic rows u k ≡ some e = ground arith in
      let (above, below, active) = found-between (suc r.id) high u k rows e ids rest in
      (ground arith, below, active)
]

count-none :
    (u : ℕ) (k : String) (rows : List MemoryRecord)
    → active_count u k rows ≡ 0
    → active_semantic rows u k ≡ none
unfolding active_semantic active_count
count-none u k [] h = refl
count-none u k (r ∷ rows) h = ground (arith, count-none u k rows)

-- Closing the row that was found touches what is believed under its own key only.
pub supersede-other :
    (low high u v : ℕ) (k j : String) (rows : List MemoryRecord) (e : MemoryRecord)
    (new_id moment : ℕ)
    → IdsFrom low rows high
    → active_semantic rows u k ≡ some e
    → is_active v j e ≡ false
    → active_semantic (supersede rows e.id new_id moment) v j ≡ active_semantic rows v j
unfolding active_semantic supersede IdsFrom
supersede-other low high u v k j [] e new_id moment ids h other = ground arith
supersede-other low high u v k j (r ∷ rows) e new_id moment (le, ids) h other =
    elim (Bool-cases (is_active u k r)) [
      | inl found ↦
          let same : r ≡ e = ground arith in
          let above : supersede rows e.id new_id moment ≡ rows =
            supersede-above (suc r.id) rows high e.id new_id moment ids (ground arith) in
          let closed = is_active-closed v j r moment new_id in
          let hit : (r.id == e.id) ≡ true = ground arith in
          rw (above, hit, closed, same, other) refl
      | inr missed ↦
          let rest : active_semantic rows u k ≡ some e = ground arith in
          let (later, below, active) = found-between (suc r.id) high u k rows e ids rest in
          let miss : (r.id == e.id) ≡ false = ground arith in
          let ih = supersede-other (suc r.id) high u v k j rows e new_id moment ids rest other in
          rw (miss, ih) refl
    ]

-- Where it was the only one, nothing is believed under its key any more.
pub supersede-own :
    (low high u : ℕ) (k : String) (rows : List MemoryRecord) (e : MemoryRecord) (new_id moment : ℕ)
    → IdsFrom low rows high
    → active_semantic rows u k ≡ some e
    → active_count u k rows ≤ 1
    → active_semantic (supersede rows e.id new_id moment) u k ≡ none
unfolding active_semantic supersede IdsFrom active_count
supersede-own low high u k [] e new_id moment ids h one = ground arith
supersede-own low high u k (r ∷ rows) e new_id moment (le, ids) h one =
    elim (Bool-cases (is_active u k r)) [
      | inl found ↦
          let same : r ≡ e = ground arith in
          let above : supersede rows e.id new_id moment ≡ rows =
            supersede-above (suc r.id) rows high e.id new_id moment ids (ground arith) in
          let closed = is_active-closed u k r moment new_id in
          let hit : (r.id == e.id) ≡ true = ground arith in
          let nothing : active_semantic rows u k ≡ none = count-none u k rows (ground arith) in
          rw (above, hit, closed, nothing) refl
      | inr missed ↦
          let rest : active_semantic rows u k ≡ some e = ground arith in
          let (later, below, active) = found-between (suc r.id) high u k rows e ids rest in
          let miss : (r.id == e.id) ≡ false = ground arith in
          let ih = supersede-own (suc r.id) high u k rows e new_id moment ids rest (ground arith) in
          rw (miss, missed, ih) refl
    ]
