-- ===== src/Base/Int.antt =====
-- Go's `int` on a 64-bit platform: strconv.Atoi, strconv.Itoa, `n + 1` and `a > b`.
use contribute_semaphore.Base.{
  ℕ, zero, suc, ◌+◌, ◌-◌, ◌^◌, ◌<◌, ◌≡◌, Bool, true, false, Option, none, some, [], ◌∷◌, arith,
}
use contribute_semaphore.Base.Tests.{ltb, leb, ◌==◌, if◌then◌else◌}
use contribute_semaphore.Base.Decimal.{
  itoa, parse_digits, parse_digits-itoa, itoa-All_digit, itoa-ne-nil, is_digit,
}
use contribute_semaphore.Base.Lists.{length, All}
use contribute_semaphore.Base.Text.{Text}

-- `negsuc n` is -(n + 1).
pub data ℤ : Type 0 where
  pos : ℕ → ℤ
  negsuc : ℕ → ℤ

abbrev pub int_limit : ℕ
int_limit = 2 ^ 63

abbrev opposite : ℕ → ℤ
opposite zero = pos 0
opposite (suc n) = negsuc n

-- The digits after a sign, within the range of int64.
positive : Text → Option ℤ
positive [] = none
positive (c ∷ s) = elim (parse_digits (c ∷ s) 0) [
  | none ↦ none
  | some v ↦ if ltb v int_limit then some (pos v) else none
]

negative : Text → Option ℤ
negative [] = none
negative (c ∷ s) = elim (parse_digits (c ∷ s) 0) [
  | none ↦ none
  | some v ↦ if leb v int_limit then some (opposite v) else none
]

unfoldable pub atoi : Text → Option ℤ
unfolding positive negative
atoi [] = none
atoi (c ∷ s) = if c == b'-' then negative s else if c == b'+' then positive s else positive (c ∷ s)

unfoldable pub int_text : ℤ → Text
int_text (pos n) = itoa n
int_text (negsuc n) = b'-' ∷ itoa (suc n)

-- `n + 1` wraps round at the limit.
unfoldable pub int_suc : ℤ → ℤ
int_suc (pos n) = if ltb (n + 1) int_limit then pos (n + 1) else negsuc (int_limit - 1)
int_suc (negsuc zero) = pos 0
int_suc (negsuc (suc n)) = negsuc n

unfoldable pub int_gt : ℤ → ℤ → Bool
int_gt (pos a) (pos b) = ltb b a
int_gt (pos a) (negsuc b) = true
int_gt (negsuc a) (pos b) = false
int_gt (negsuc a) (negsuc b) = ltb a b

-- A number that is all digits, within the range.
pub atoi-digits :
    (s : Text) (v : ℕ)
    → 0 < length s
    → All (λ c. is_digit c ≡ true) s
    → parse_digits s 0 ≡ some v
    → v < int_limit
    → atoi s ≡ some (pos v)
unfolding atoi
atoi-digits [] v h d e r = absurd (omega arith)
atoi-digits (c ∷ s) v h d e r = ground arith

-- Atoi reads what Itoa prints.
pub atoi-itoa : (n : ℕ) → n < int_limit → atoi (itoa n) ≡ some (pos n)
atoi-itoa n h = atoi-digits (itoa n) n (itoa-ne-nil n) (itoa-All_digit n) (parse_digits-itoa n) h
