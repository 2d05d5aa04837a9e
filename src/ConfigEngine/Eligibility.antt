-- ===== src/ConfigEngine/Eligibility.antt =====
-- What the rule engine (app/modules/config_engine/service.py) accepts.
use event_platform_backend.Prelude.{
  ℕ, ◌+◌, ◌<◌, ◌≡◌, ◌↔◌, ◌⊎◌, true, false, Option, none, some, List, [], ◌∷◌, ◌++◌, ◌||◌,
  if◌then◌else◌, String, arith, All, ℤ, pos, leb_int,
}
use event_platform_backend.ConfigEngine.Rules.{
  Date, TeamSize, Rules, Answer, Field, ValidationError, calculate_age, is_given, provided,
  answer_to, is_blank, is_null, among, has_options, age_errors, team_size_errors, document_errors,
  check_eligibility, field_errors, validate_field_answers,
}

-- In calendar order, `as_of` is not before the birthday at which a person born on `dob` turns `n`.
abbrev pub HasTurned : Date → ℕ → Date → Type 0
HasTurned dob n as_of =
    (dob.year + n < as_of.year)
    ⊎ ((dob.year + n ≡ as_of.year)
        × ((dob.month < as_of.month) ⊎ ((dob.month ≡ as_of.month) × (dob.day < as_of.day + 1))))

-- calculate_age counts birthdays: it is at least `n` exactly when the n-th birthday has come.
pub calculate_age_iff :
    (dob as_of : Date) (n : ℕ)
    → (leb_int (pos n) (calculate_age dob as_of) ≡ true) ↔ HasTurned dob n as_of
unfolding calculate_age
calculate_age_iff dob as_of n = ground arith

append_nil : (xs ys : List ValidationError) → (xs ++ ys ≡ []) ↔ ((xs ≡ []) × (ys ≡ []))
append_nil [] ys = ground arith
append_nil (x ∷ xs) ys = ground arith

abbrev pub AtLeast : ℤ → Option ℤ → Type 0
AtLeast n none = Unit
AtLeast n (some m) = leb_int m n ≡ true

abbrev pub AtMost : ℤ → Option ℤ → Type 0
AtMost n none = Unit
AtMost n (some m) = leb_int n m ≡ true

-- A date of birth is needed where a bound is set, and the age is within the bounds.
abbrev pub AgeAllowed : Rules → Date → Option Date → Type 0
AgeAllowed rules event_date none = (rules.min_age ≡ none) × (rules.max_age ≡ none)
AgeAllowed rules event_date (some dob) =
    AtLeast (calculate_age dob event_date) rules.min_age
    × AtMost (calculate_age dob event_date) rules.max_age

-- The size of a team is within the bounds, where both are given.
abbrev pub SizeAllowed : Option TeamSize → Option ℤ → Type 0
SizeAllowed (some size) (some n) = AtLeast n size.min × AtMost n size.max
SizeAllowed _ _ = Unit

age_part_iff :
    (rules : Rules) (event_date : Date) (date_of_birth : Option Date)
    → ((if is_given rules.min_age || is_given rules.max_age
          then age_errors rules event_date date_of_birth
          else [])
        ≡ [])
      ↔ AgeAllowed rules event_date date_of_birth
unfolding age_errors
age_part_iff rules event_date none = ground arith
age_part_iff rules event_date (some dob) = ground arith

team_size_errors_iff :
    (size : Option TeamSize) (n : Option ℤ) → (team_size_errors size n ≡ []) ↔ SizeAllowed size n
unfolding team_size_errors
team_size_errors_iff size n = ground arith

document_errors_iff :
    (ds documents_provided : List String)
    → (document_errors ds documents_provided ≡ [])
      ↔ All (λ d. provided d documents_provided ≡ true) ds
unfolding document_errors
document_errors_iff [] documents_provided = ground arith
document_errors_iff (d ∷ ds) documents_provided =
    ground (arith, document_errors_iff ds documents_provided)

-- check_eligibility reports nothing exactly when the age, the size of the team and the documents
-- meet every rule that is set.
pub check_eligibility_iff :
    (rules : Rules) (event_date : Date) (date_of_birth : Option Date) (team_member_count : Option ℤ)
    (documents_provided : List String)
    → (check_eligibility rules event_date date_of_birth team_member_count documents_provided ≡ [])
      ↔ (AgeAllowed rules event_date date_of_birth
          × SizeAllowed rules.team_size team_member_count
          × All (λ d. provided d documents_provided ≡ true) rules.required_documents)
unfolding check_eligibility
check_eligibility_iff rules event_date date_of_birth team_member_count documents_provided =
    let team : List ValidationError = team_size_errors rules.team_size team_member_count in
    let documents : List ValidationError =
      document_errors rules.required_documents documents_provided in
    ground (
      arith,
      append_nil
          (if is_given rules.min_age || is_given rules.max_age
            then age_errors rules event_date date_of_birth
            else [])
          (team ++ documents),
      append_nil team documents,
      age_part_iff rules event_date date_of_birth,
      team_size_errors_iff rules.team_size team_member_count,
      document_errors_iff rules.required_documents documents_provided,
    )

-- An answer that a field takes: not blank where one is required, and one of the options of a
-- selection, where there is an answer and there are options.
abbrev pub Takes : Field → Answer → Type 0
Takes field value =
    (field.required ≡ true → is_blank value ≡ false)
    × (is_null value ≡ false
        → field.is_select ≡ true
        → has_options field.options ≡ true
        → among value field.options ≡ true)

field_errors_iff :
    (field : Field) (value : Answer) → (field_errors field value ≡ []) ↔ Takes field value
unfolding field_errors
field_errors_iff field value = ground arith

-- validate_field_answers reports nothing exactly when every field of the form takes its answer.
pub validate_field_answers_iff :
    (fields : List Field) (answers : List (String × Answer))
    → (validate_field_answers fields answers ≡ [])
      ↔ All (λ field. Takes field (answer_to field.key answers)) fields
unfolding validate_field_answers
validate_field_answers_iff [] answers = ground arith
validate_field_answers_iff (field ∷ fields) answers = ground (
  arith,
  append_nil (field_errors field (answer_to field.key answers))
      (validate_field_answers fields answers),
  field_errors_iff field (answer_to field.key answers),
  validate_field_answers_iff fields answers,
)
