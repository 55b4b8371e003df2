-- ===== src/Reviews/Scores.antt =====
-- The scores of `name_match_score`.
use poolbrian_sms_automation.Prelude.{
  ◌≤◌, ◌<◌, String, Option, Bool, ◌||◌, List, [], ◌∷◌, length, arith, Bool-cases, inl, inr,
  contains_text, str_eq, count_where,
}
use poolbrian_sms_automation.Reviews.{
  Names, Score, parts_score, name_match_score, normalized_person_name,
}

-- A fraction of a positive denominator that is at most 1.
abbrev pub IsFraction : Score → Type 0
IsFraction s = (s.overlap ≤ s.parts) × (0 < s.parts)

count_where-le : (test : String → Bool) (xs : List String) → count_where test xs ≤ length xs
unfolding count_where
count_where-le test [] = omega arith
count_where-le test (x ∷ xs) = let ih = count_where-le test xs in ground arith

parts_score-IsFraction :
    (customer reviewer : List String) → IsFraction (parts_score customer reviewer)
parts_score-IsFraction [] reviewer = (omega arith, omega arith)
parts_score-IsFraction (c ∷ cs) [] = (omega arith, omega arith)
parts_score-IsFraction (c ∷ cs) (r ∷ rs) =
    let le = count_where-le (contains_text (r ∷ rs)) (c ∷ cs) in (omega arith, omega arith)

-- A score is between 0 and 1.
pub name_match_score-IsFraction :
    (py : Names) (customer_name reviewer_name : Option String)
    → IsFraction (name_match_score py customer_name reviewer_name)
unfolding name_match_score
name_match_score-IsFraction py a b =
    let customer = normalized_person_name py a in
    let reviewer = normalized_person_name py b in
    elim (Bool-cases (str_eq customer "" || str_eq reviewer "")) [
      | inl e ↦ rw e (omega arith, omega arith)
      | inr e ↦ rw e (elim (Bool-cases (str_eq customer reviewer)) [
        | inl same ↦ rw same (omega arith, omega arith)
        | inr other ↦ rw other (parts_score-IsFraction _ _)
      ])
    ]
