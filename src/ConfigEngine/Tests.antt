-- ===== src/ConfigEngine/Tests.antt =====
-- Registration windows and rules at concrete counts, instants and answers.
use event_platform_backend.Prelude.{
  refl, ◌≡◌, ◌↔◌, ◌≤◌, true, false, none, some, [], ◌∷◌, pos, leb_int, All, arith,
}
use event_platform_backend.Models.Events.{registration_open, RawDate, RawInt, DateTime, Offset}
use event_platform_backend.ConfigEngine.{
  calculate_registration_availability, parse_cancellation_deadline_at,
}
use event_platform_backend.ConfigEngine.Availability.{
  TakesRegistrations, BeforeDeadline, SeatsLeft, rank, takes_iff, availability_mono,
}
use event_platform_backend.ConfigEngine.Dates.{date_of_day, date_of}
use event_platform_backend.ConfigEngine.Configuration.{
  ConfigurationIn, upsert_field_schema, upsert_schema, add_schema,
}
use event_platform_backend.ConfigEngine.Service.{
  validate_registration, field_schemas_of, event_date,
}
use event_platform_backend.Session.{ok, ◌>>=◌, uuid4, modify, commit}
use event_platform_backend.Events.{get_event, get_configuration}
use event_platform_backend.Scenario.{one_left}
use event_platform_backend.ConfigEngine.Rules.{
  Rules, Date, Field, Answer, calculate_age, check_eligibility, provided, answer_to,
  validate_field_answers, ValidationError, age_errors, team_size_errors, document_errors,
  field_errors,
}
use event_platform_backend.ConfigEngine.Eligibility.{
  HasTurned, AgeAllowed, SizeAllowed, Takes, calculate_age_iff, check_eligibility_iff,
  validate_field_answers_iff,
}

takes_iff_example :
    TakesRegistrations
      (calculate_registration_availability registration_open (some (pos 5)) 4 (some 100) 99)
    ↔ ((registration_open ≡ registration_open)
        × BeforeDeadline (some 100) 99
        × SeatsLeft (some (pos 5)) 4)
takes_iff_example = takes_iff registration_open (some (pos 5)) 4 (some 100) 99

availability_mono_example :
    rank (calculate_registration_availability registration_open (some (pos 5)) 3 (some 100) 7)
    ≤ rank (calculate_registration_availability registration_open (some (pos 5)) 5 (some 100) 9)
availability_mono_example =
    availability_mono registration_open (some (pos 5)) 3 5 (some 100) 7 9 (omega arith)
      (omega arith)

abbrev adult_team : Rules
adult_team = record {
  min_age = some (pos 18);
  max_age = none;
  team_size = some (record { min = some (pos 5); max = some (pos 11) });
  required_documents = "aadhaar" ∷ [];
}

abbrev june_first : Date
june_first = record { year = 2026; month = 6; day = 1 }

abbrev june_second_2008 : Date
june_second_2008 = record { year = 2008; month = 6; day = 2 }

calculate_age_iff_example :
    (leb_int (pos 18) (calculate_age june_second_2008 june_first) ≡ true)
    ↔ HasTurned june_second_2008 18 june_first
calculate_age_iff_example = calculate_age_iff june_second_2008 june_first 18

check_eligibility_iff_example :
    (check_eligibility adult_team june_first (some june_second_2008) (some (pos 6)) ("aadhaar" ∷ [])
      ≡ [])
    ↔ (AgeAllowed adult_team june_first (some june_second_2008)
        × SizeAllowed adult_team.team_size (some (pos 6))
        × All (λ d. provided d ("aadhaar" ∷ []) ≡ true) adult_team.required_documents)
check_eligibility_iff_example =
    check_eligibility_iff adult_team june_first (some june_second_2008) (some (pos 6))
      ("aadhaar" ∷ [])

abbrev shirt : Field
shirt = record {
  key = "tshirt_size";
  label = "T-Shirt Size";
  required = true;
  is_select = true;
  options = Answer.text "S" ∷ Answer.text "M" ∷ [];
}

validate_field_answers_iff_example :
    (validate_field_answers (shirt ∷ []) (("tshirt_size", Answer.text "L") ∷ []) ≡ [])
    ↔ All
        (λ field. Takes field (answer_to field.key (("tshirt_size", Answer.text "L") ∷ [])))
        (shirt ∷ [])
validate_field_answers_iff_example =
    validate_field_answers_iff (shirt ∷ []) (("tshirt_size", Answer.text "L") ∷ [])

-- A deadline at 05:30 in a zone that is 05:30 east of UTC, in microseconds.
cancellation_deadline_run :
    parse_cancellation_deadline_at (
      some (record {
        registration_end_at = RawDate.falsy;
        cancellation_deadline_at =
            RawDate.iso (DateTime.aware 1800000019800000000 (Offset.east 19800000000));
        waitlist_promotion_timeout_minutes = RawInt.absent;
      }))
    ≡ some 1800000000000000000
unfolding parse_cancellation_deadline_at
cancellation_deadline_run = refl

-- The last day of the Gregorian cycle before 2001, a leap day, and the noon before it.
dates_run :
    (date_of_day 730484 ≡ record { year = 2000; month = 12; day = 31 })
    × (date_of_day 730178 ≡ record { year = 2000; month = 2; day = 29 })
    × (date_of (63087336000000000) ≡ record { year = 2000; month = 2; day = 28 })
    × (date_of_day 36583 ≡ record { year = 101; month = 3; day = 1 })
unfolding date_of
dates_run = (refl, refl, refl, refl)

abbrev three_seats : ConfigurationIn
three_seats = record {
  participation_types = "individual" ∷ [];
  fee_amount = none;
  currency = "INR";
  capacity = some (pos 3);
  volunteer_open = true;
  approval_required = false;
  discount_rules = none;
  registration_end_at = some (DateTime.naive 1800000000000000);
  cancellation_deadline_at = none;
  details = record {
    registration_end_at = RawDate.falsy;
    cancellation_deadline_at = RawDate.falsy;
    waitlist_promotion_timeout_minutes = RawInt.absent;
  };
  rules = adult_team;
}

-- A form that is written is the one that answers are checked against.
form_run :
    ((upsert_field_schema 1 "individual" (shirt ∷ []) >>= λ schema.
    validate_registration 1
      (record {
        participation_type = "individual";
        date_of_birth = none;
        documents_provided = [];
        answers = [];
      })
      none)
      one_left).0
    ≡ ok (ValidationError.answer_required "tshirt_size" "T-Shirt Size" ∷ [])
unfolding upsert_field_schema upsert_schema add_schema field_schemas_of validate_registration
    event_date date_of uuid4 modify commit get_event get_configuration check_eligibility age_errors
    team_size_errors document_errors validate_field_answers field_errors ◌>>=◌
form_run = refl
