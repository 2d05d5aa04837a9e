-- ===== src/ConfigEngine/Rules.antt =====
-- The rule engine of app/modules/config_engine/service.py. The keys that the engine reads hold
-- values of the types that the console writes there.
use event_platform_backend.Prelude.{
  ℕ, ◌==◌, ltb, Bool, true, false, not, ◌&&◌, ◌||◌, Option, none, some, List, [], ◌∷◌, ◌++◌, String,
  str_eq, if◌then◌else◌, ℤ, leb_int, minus, pred_int,
}

pub record Date : Type 0 where
  pub year : ℕ
  pub month : ℕ
  pub day : ℕ

pub record TeamSize : Type 0 where
  pub min : Option ℤ
  pub max : Option ℤ

-- The `rules` column of an event's configuration; an absent key and {} are none.
pub record Rules : Type 0 where
  pub min_age : Option ℤ
  pub max_age : Option ℤ
  pub team_size : Option TeamSize
  pub required_documents : List String

-- A JSON value of a form: null, a text, or another one, numbered up to Python's ==.
pub data Answer : Type 0 where
  null : Answer
  text : String → Answer
  other : ℕ → Answer

-- A field of a form; `options` is empty where the key is missing.
pub record Field : Type 0 where
  pub key : String
  pub label : String
  pub required : Bool
  pub is_select : Bool
  pub options : List Answer

-- A ValidationErrorItem, by what its text is made of.
pub data ValidationError : Type 0 where
  date_of_birth_required : ValidationError
  too_young too_old : ℤ → ℤ → ValidationError
  team_too_small team_too_large : ℤ → ℤ → ValidationError
  document_required : String → ValidationError
  answer_required : String → String → ValidationError
  not_an_option : String → Answer → String → List Answer → ValidationError

-- (a.month, a.day) < (b.month, b.day)
abbrev pub earlier_in_year : Date → Date → Bool
earlier_in_year a b = ltb a.month b.month || (a.month == b.month && ltb a.day b.day)

unfoldable pub calculate_age : Date → Date → ℤ
calculate_age dob as_of =
    if earlier_in_year as_of dob
    then pred_int (minus as_of.year dob.year)
    else minus as_of.year dob.year

-- if test: errors.append(error)
abbrev pub error_if : Bool → ValidationError → List ValidationError
error_if true e = e ∷ []
error_if false e = []

abbrev pub below : ℤ → Option ℤ → Bool
below n none = false
below n (some m) = not (leb_int m n)

abbrev pub above : ℤ → Option ℤ → Bool
above n none = false
above n (some m) = not (leb_int n m)

abbrev pub the : Option ℤ → ℤ
the none = ℤ.pos 0
the (some m) = m

abbrev pub is_given {ℓ} : {A : Type ℓ} → Option A → Bool
is_given none = false
is_given (some a) = true

unfoldable pub age_errors : Rules → Date → Option Date → List ValidationError
unfolding calculate_age
age_errors rules event_date none = ValidationError.date_of_birth_required ∷ []
age_errors rules event_date (some dob) =
    let age = calculate_age dob event_date in
    error_if (below age rules.min_age) (ValidationError.too_young (the rules.min_age) age)
    ++ error_if (above age rules.max_age) (ValidationError.too_old (the rules.max_age) age)

unfoldable pub team_size_errors : Option TeamSize → Option ℤ → List ValidationError
team_size_errors (some size) (some n) =
    error_if (below n size.min) (ValidationError.team_too_small (the size.min) n)
    ++ error_if (above n size.max) (ValidationError.team_too_large (the size.max) n)
team_size_errors _ _ = []

abbrev pub provided : String → List String → Bool
provided d [] = false
provided d (x ∷ xs) = str_eq x d || provided d xs

unfoldable pub document_errors : List String → List String → List ValidationError
document_errors [] documents_provided = []
document_errors (d ∷ ds) documents_provided =
    error_if (not (provided d documents_provided)) (ValidationError.document_required d)
    ++ document_errors ds documents_provided

unfoldable pub check_eligibility :
    Rules → Date → Option Date → Option ℤ → List String → List ValidationError
unfolding age_errors team_size_errors document_errors
check_eligibility rules event_date date_of_birth team_member_count documents_provided =
    (if is_given rules.min_age || is_given rules.max_age
      then age_errors rules event_date date_of_birth
      else [])
    ++ team_size_errors rules.team_size team_member_count
    ++ document_errors rules.required_documents documents_provided

-- answers.get(key), for answers in the order of their keys.
abbrev pub answer_to : String → List (String × Answer) → Answer
answer_to key [] = Answer.null
answer_to key (a ∷ rest) = if str_eq a.0 key then a.1 else answer_to key rest

abbrev pub same_answer : Answer → Answer → Bool
same_answer null null = true
same_answer (text a) (text b) = str_eq a b
same_answer (other a) (other b) = a == b
same_answer _ _ = false

abbrev pub among : Answer → List Answer → Bool
among a [] = false
among a (x ∷ xs) = same_answer x a || among a xs

-- value is None or value == ""
abbrev pub is_blank : Answer → Bool
is_blank null = true
is_blank (text t) = str_eq t ""
is_blank (other n) = false

abbrev pub is_null : Answer → Bool
is_null null = true
is_null _ = false

abbrev pub has_options : List Answer → Bool
has_options [] = false
has_options (x ∷ xs) = true

-- The body of the loop of validate_field_answers.
unfoldable pub field_errors : Field → Answer → List ValidationError
field_errors field value =
    if field.required && is_blank value
    then ValidationError.answer_required field.key field.label ∷ []
    else error_if
        (not (is_null value)
          && field.is_select
          && has_options field.options
          && not (among value field.options))
        (ValidationError.not_an_option field.key value field.label field.options)

unfoldable pub validate_field_answers : List Field → List (String × Answer) → List ValidationError
unfolding field_errors
validate_field_answers [] answers = []
validate_field_answers (field ∷ fields) answers =
    field_errors field (answer_to field.key answers) ++ validate_field_answers fields answers
