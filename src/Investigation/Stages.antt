-- ===== src/Investigation/Stages.antt =====
-- backend/app/evaluation/trace_audit.py: which stages the audit of a run asks for.
use chief_opportunity_intell.Prelude.{
  ℕ, ◌≡◌, ap, ◌∙◌, ◌≢◌, Bool, true, false, ◌&&◌, ◌||◌, List, [], ◌∷◌, ◌++◌, arith, ◌==◌,
}
use chief_opportunity_intell.Investigation.{
  Node, understand, load_context, plan, discover, triage, evaluate, verify, replan, score,
  contrarian, decide, report,
}

-- The place of a node in the pipeline; `replan` comes behind `verify`.
abbrev pub rank : Node → ℕ
rank understand = 0
rank load_context = 1
rank plan = 2
rank discover = 3
rank triage = 4
rank evaluate = 5
rank verify = 6
rank replan = 7
rank score = 8
rank contrarian = 9
rank decide = 10
rank report = 11

unfoldable pub same_node : Node → Node → Bool
same_node n m = rank n == rank m

-- `stage in observed_stages`
unfoldable pub seen : Node → List Node → Bool
seen n [] = false
seen n (m ∷ events) = same_node n m || seen n events

-- `REQUIRED_STAGES`
abbrev pub required_stages : List Node
required_stages =
    understand ∷ load_context ∷ plan ∷ discover ∷ triage ∷ evaluate ∷ verify ∷ score ∷ contrarian
    ∷ decide ∷ report ∷ []

-- `not missing_stages`, the part of `complete` that is about stages.
unfoldable pub has_all : List Node → List Node → Bool
has_all [] events = true
has_all (n ∷ stages) events = seen n events && has_all stages events

or_swap : (a : Bool) → (a || false) ≡ (false || a)
or_swap a = ground arith

or_regroup : (a b c : Bool) → (a || (b || c)) ≡ ((a || b) || c)
or_regroup a b c = ground arith

or_true : (a : Bool) → (a || true) ≡ true
or_true a = ground arith

seen-snoc :
    (n m : Node) (events : List Node) → seen n (events ++ m ∷ []) ≡ (seen n events || same_node n m)
unfolding seen
seen-snoc n m [] = or_swap (same_node n m)
seen-snoc n m (k ∷ events) =
    ap (λ b. same_node n k || b) (seen-snoc n m events)
    ∙ or_regroup (same_node n k) (seen n events) (same_node n m)

pub seen_later :
    (n m : Node) (events : List Node) → seen n events ≡ true → seen n (events ++ m ∷ []) ≡ true
seen_later n m events h = rw (seen-snoc n m events) (rw h)

same_node_refl : (n : Node) → same_node n n ≡ true
unfolding same_node
same_node_refl n = ground arith

pub seen_last : (n : Node) (events : List Node) → seen n (events ++ n ∷ []) ≡ true
seen_last n events = rw (seen-snoc n n events) (rw (same_node_refl n) (or_true (seen n events)))

pub unseen :
    (n : Node) (events : List Node)
    → n ≢ score
    → seen score events ≡ false
    → seen score (events ++ n ∷ []) ≡ false
unseen n events ne h = rw (seen-snoc score n events) (rw h (differs n ne))
  where
    differs : (n : Node) → n ≢ score → same_node score n ≡ false
    differs n ne = unfold same_node in ground arith

pub has_all-true :
    (events : List Node)
    → ((k : Node) → k ≢ replan → seen k events ≡ true)
    → has_all required_stages events ≡ true
unfolding has_all
has_all-true events h = ground (
  arith,
  h understand (λ e. ground arith),
  h load_context (λ e. ground arith),
  h plan (λ e. ground arith),
  h discover (λ e. ground arith),
  h triage (λ e. ground arith),
  h evaluate (λ e. ground arith),
  h verify (λ e. ground arith),
  h score (λ e. ground arith),
  h contrarian (λ e. ground arith),
  h decide (λ e. ground arith),
  h report (λ e. ground arith),
)

pub has_all_unscored :
    (events : List Node) → seen score events ≡ false → has_all required_stages events ≡ false
unfolding has_all
has_all_unscored events h = ground arith
