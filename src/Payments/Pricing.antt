-- ===== src/Payments/Pricing.antt =====
-- PaymentService._calculate_amount (app/modules/payments/service.py): what a discount code leaves to
-- pay.
use event_platform_backend.Prelude.{
  ℕ, ◌+◌, ◌*◌, ◌≡◌, ◌≤◌, ◌⊎◌, refl, arith, true, Option, none, some, String, ℤ, pos, negsuc,
  not-eq_false,
}
use event_platform_backend.Models.Payments.{DiscountCode, DiscountType, percentage, fixed}
use event_platform_backend.Payments.Amounts.{
  discounted, at_least_zero, apply_code, calculate_amount,
}
use event_platform_backend.Payments.Repository.{codes_named, get_by_code}
use event_platform_backend.Session.{Session, ok, scalar_one_or_none, ◌>>=◌}
use event_platform_backend.Session.Stores.{Triple-lift}
use event_platform_backend.Session.Triples.{
  Ends, Triple, Triple-bind, Triple-pure, Triple-raise, Triple-given, after_query, after_guard,
}
use event_platform_backend.Store.{Db}

-- A reduction of `r` ten-thousandths off `base` hundredths leaves `amount`: never more than the base,
-- and exactly the difference unless that is negative.
abbrev pub Leaves : ℕ → ℕ → ℕ → Type 0
Leaves base r amount =
    (amount ≤ base * 100) × ((amount + r ≡ base * 100) ⊎ ((amount ≡ 0) × (base * 100 ≤ r)))

-- What a code of this type and value makes of `base`: a percentage is `base` times the value in
-- ten-thousandths, a whole unit is 10000 of them; a negative value is added.
abbrev pub Discounts : DiscountType → ℤ → ℕ → ℕ → Type 0
Discounts percentage (pos n) base amount = Leaves base (base * n) amount
Discounts fixed (pos n) base amount = Leaves base (n * 10000) amount
Discounts percentage (negsuc n) base amount = amount ≡ base * 100 + base * (n + 1)
Discounts fixed (negsuc n) base amount = amount ≡ base * 100 + (n + 1) * 10000

-- The one active code of the name that the event or every event has, and what it leaves.
abbrev pub Priced : ℕ → ℕ → Option String → Db → ℕ × Option String → Type 0
Priced base event_id none d r = r ≡ (base * 100, none)
Priced base event_id (some code) d r =
    (c : DiscountCode) × (scalar_one_or_none (codes_named code event_id d) ≡ ok (some c))
    × (c.is_active ≡ true)
    × (r.1 ≡ some c.code)
    × Discounts c.discount_type c.value base r.0

discounted_lem :
    (type : DiscountType) (value : ℤ) (base : ℕ)
    → Discounts type value base (at_least_zero (discounted type value base))
discounted_lem percentage (pos v) base = ground arith
discounted_lem fixed (pos v) base = ground arith
discounted_lem percentage (negsuc v) base = refl
discounted_lem fixed (negsuc v) base = refl

module _ (base event_id : ℕ) (code : String) (s : Session) where
  apply_code-Triple :
      (o : Option DiscountCode)
      → scalar_one_or_none (codes_named code event_id s.db) ≡ ok o
      → Triple
          (λ t. t ≡ s)
          (apply_code base o)
          (λ r t. (t ≡ s) × Priced base event_id (some code) s.db r)
          (λ t. t ≡ s)
  unfolding apply_code
  apply_code-Triple none found = Triple-raise _ (λ t h. h)
  apply_code-Triple (some c) found =
      after_guard (λ t h. h) _ _ _
        λ active. Triple-pure _ λ t h.
          (h, (c, found, not-eq_false _ active, refl, discounted_lem c.discount_type c.value base))

  code-Triple :
      Triple
        (λ t. t ≡ s)
        (calculate_amount base event_id (some code))
        (λ r t. (t ≡ s) × Priced base event_id (some code) s.db r)
        (λ t. t ≡ s)
  unfolding calculate_amount get_by_code codes_named
  code-Triple =
      Triple-bind
        {Q = λ o t. (scalar_one_or_none (codes_named code event_id s.db) ≡ ok o) × (t ≡ s)} _ _
        (after_query (λ t. t) s _ (λ t. codes_named code event_id t.db) _ (λ t. refl)
          (Triple-lift (λ t h. h) _))
        λ o. Triple-given _ (apply_code-Triple o)

-- Without a code the fee is charged in full. With one, a single active code of that name applies to the
-- event. A value that is not negative takes off that percentage of the fee, or that many whole units by
-- the type of the code: the amount is never more than the fee, exactly the difference, or 0 where that
-- is negative. A negative value is added in the same way. Nothing is written either way.
pub calculate_amount_bounded :
    (base event_id : ℕ) (code : Option String) (s : Session)
    → Ends
        (λ r t. (t ≡ s) × Priced base event_id code s.db r)
        (λ t. t ≡ s)
        (calculate_amount base event_id code s)
unfolding calculate_amount ◌>>=◌
calculate_amount_bounded base event_id none s = (refl, refl)
calculate_amount_bounded base event_id (some code) s = (code-Triple base event_id code s).run s refl
