-- ===== src/Platform/Alarms/Terms.antt =====
-- EvaluateConditions as a sum of products.
use ygate_git.Base.{
  ◌≡◌, refl, ◌↔◌, ◌⊎◌, Bool, true, false, ◌&&◌, ◌||◌, Bool-cases, inl, inr, List, [], ◌∷◌, All, Any,
  if◌then◌else◌, arith,
}
use ygate_git.Base.Text.{Text, lit, text_eq}
use ygate_git.Platform.Alarms.{evaluate_conditions, evaluate_rest}

abbrev starts_term : Text → Bool
starts_term logic = text_eq logic (lit "OR")

-- The conditions that AND joins to what stands before the list, and the products after it.
unfoldable tail_term : List (Bool × Text) → List Bool
tail_term [] = []
tail_term ((result, logic) ∷ rest) = if starts_term logic then [] else result ∷ tail_term rest

unfoldable other_terms : List (Bool × Text) → List (List Bool)
unfolding tail_term
other_terms [] = []
other_terms ((result, logic) ∷ rest) =
    let others = other_terms rest in
    if starts_term logic then (result ∷ tail_term rest) ∷ others else others

-- The conditions of a rule cut before each OR but the first connector, which joins nothing.
unfoldable pub terms : List (Bool × Text) → List (List Bool)
unfolding tail_term other_terms
terms [] = []
terms ((result, logic) ∷ rest) = (result ∷ tail_term rest) ∷ other_terms rest

all_true : List Bool → Bool
all_true [] = true
all_true (b ∷ bs) = b && all_true bs

some_term : List (List Bool) → Bool
some_term [] = false
some_term (t ∷ ts) = all_true t || some_term ts

all_true_iff : (bs : List Bool) → (all_true bs ≡ true) ↔ All (λ (b : Bool). b ≡ true) bs
unfolding all_true
all_true_iff [] = (λ h. tt, λ h. refl)
all_true_iff (true ∷ bs) = (λ h. (refl, (all_true_iff bs).0 h), λ h. (all_true_iff bs).1 h.1)
all_true_iff (false ∷ bs) = (λ h. absurd (cc), λ h. h.0)

or_iff : (a b : Bool) → ((a || b) ≡ true) ↔ ((a ≡ true) ⊎ (b ≡ true))
or_iff true b = (λ h. inl refl, λ h. refl)
or_iff false b = (λ h. inr h, λ h. elim h [ inl k ↦ absurd (cc) | inr k ↦ k ])

some_term_iff :
    (ts : List (List Bool))
    → (some_term ts ≡ true) ↔ Any (λ (t : List Bool). All (λ (b : Bool). b ≡ true) t) ts
unfolding some_term
some_term_iff [] = (λ h. cc, λ h. absurd h)
some_term_iff (t ∷ ts) = (
  λ h. elim ((or_iff (all_true t) (some_term ts)).0 h) [
    | inl k ↦ inl ((all_true_iff t).0 k)
    | inr k ↦ inr ((some_term_iff ts).0 k)
  ],
  λ h. elim h [
    | inl k ↦ (or_iff (all_true t) (some_term ts)).1 (inl ((all_true_iff t).1 k))
    | inr k ↦ (or_iff (all_true t) (some_term ts)).1 (inr ((some_term_iff ts).1 k))
  ],
)

evaluate_rest_lem :
    (total term : Bool) (rest : List (Bool × Text))
    → evaluate_rest total term rest
      ≡ (total || ((term && all_true (tail_term rest)) || some_term (other_terms rest)))
unfolding evaluate_rest tail_term other_terms all_true some_term
evaluate_rest_lem total term [] = ground arith
evaluate_rest_lem total term ((result, logic) ∷ rest) = elim (Bool-cases (starts_term logic)) [
  | inl starts ↦ rw starts (ground (arith, evaluate_rest_lem (total || term) result rest))
  | inr joins ↦ rw joins (ground (arith, evaluate_rest_lem total (term && result) rest))
]

-- The verdict of a rule is the sum of products that its connectors write: it holds exactly if all
-- conditions of one of the groups between two ORs hold. A rule without conditions does not hold.
pub evaluate_conditions_iff :
    (cs : List (Bool × Text))
    → (evaluate_conditions cs ≡ true)
      ↔ Any (λ (t : List Bool). All (λ (b : Bool). b ≡ true) t) (terms cs)
unfolding evaluate_conditions terms some_term all_true
evaluate_conditions_iff [] = (λ h. cc, λ h. absurd h)
evaluate_conditions_iff ((result, logic) ∷ rest) =
    rw (evaluate_rest_lem false result rest)
      (some_term_iff ((result ∷ tail_term rest) ∷ other_terms rest))
