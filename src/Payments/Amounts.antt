-- ===== src/Payments/Amounts.antt =====
-- PaymentService._calculate_amount (app/modules/payments/service.py). The base is in hundredths;
-- the amount is computed in ten-thousandths, where a percentage of it is a whole number.
use event_platform_backend.Prelude.{
  ℕ, ◌+◌, ◌*◌, not, Option, none, some, String, ℤ, pos, negsuc, minus,
}
use event_platform_backend.Models.Payments.{DiscountCode, DiscountType, percentage, fixed}
use event_platform_backend.Payments.Repository.{get_by_code}
use event_platform_backend.Session.{Action, pure, raise, raise_if, ◌>>=◌, ◌>>◌}
use event_platform_backend.Session.Errors.{discount_code_not_found}

-- What the code takes off a base of hundredths: a percentage of it, or whole units of 100.
abbrev pub reduction : DiscountType → ℕ → ℕ → ℕ
reduction percentage base value = base * value
reduction fixed base value = value * 10000

-- The base less the reduction. A code of negative value adds.
abbrev pub discounted : DiscountType → ℤ → ℕ → ℤ
discounted type (pos value) base = minus (base * 100) (reduction type base value)
discounted type (negsuc value) base = pos (base * 100 + reduction type base (value + 1))

-- max(discounted, 0)
abbrev pub at_least_zero : ℤ → ℕ
at_least_zero (pos n) = n
at_least_zero (negsuc n) = 0

unfoldable pub apply_code : ℕ → Option DiscountCode → Action (ℕ × Option String)
apply_code base none = raise (discount_code_not_found "Discount code not found or inactive.")
apply_code base (some discount) = do
  raise_if (not discount.is_active) (discount_code_not_found "Discount code not found or inactive.")
  pure (at_least_zero (discounted discount.discount_type discount.value base), some discount.code)

unfoldable pub calculate_amount : ℕ → ℕ → Option String → Action (ℕ × Option String)
unfolding apply_code
calculate_amount base event_id none = pure (base * 100, none)
calculate_amount base event_id (some code) = do
  discount ← get_by_code code event_id
  apply_code base discount
