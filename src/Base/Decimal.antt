-- ===== src/Base/Decimal.antt =====
-- strconv.Itoa and strconv.Atoi, and fmt's verb `%0wd`, on numbers that are not negative.
use contribute_semaphore.Base.{
  ℕ, zero, suc, ◌+◌, ◌-◌, ◌*◌, ◌/◌, ◌%◌, ◌<◌, ◌≡◌, refl, ap, ◌∙◌, inl, inr, Bool, true, ◌&&◌,
  Option, none, some, [], ◌∷◌, ◌++◌, arith,
}
use contribute_semaphore.Base.Tests.{ltb, leb, ◌==◌, if◌then◌else◌, ltb→lt, Bool-cases}
use contribute_semaphore.Base.Lists.{length, length-append, All, All-append}
use contribute_semaphore.Base.Text.{Text, text}

abbrev pub is_digit : ℕ → Bool
is_digit c = leb 48 c && leb c 57

-- The digits of a number, on fuel that exceeds it.
digits : ℕ → ℕ → Text
digits zero n = []
digits (suc fuel) n =
    let rest = digits fuel (n / 10) in
    if ltb n 10 then (48 + n) ∷ [] else rest ++ (48 + n % 10) ∷ []

unfoldable pub itoa : ℕ → Text
unfolding digits
itoa n = digits (suc n) n

-- `%0wd`: padded with zeros to w digits.
unfoldable pub padded : ℕ → ℕ → Text
padded zero n = if n == 0 then [] else itoa n
padded (suc w) n = padded w (n / 10) ++ (48 + n % 10) ∷ []

unfoldable pub parse_digits : Text → ℕ → Option ℕ
parse_digits [] acc = some acc
parse_digits (c ∷ s) acc =
    let rest = parse_digits s (acc * 10 + (c - 48)) in if is_digit c then rest else none

parse_digits-snoc :
    (s : Text) (acc d a : ℕ)
    → d < 10
    → parse_digits s acc ≡ some a
    → parse_digits (s ++ (48 + d) ∷ []) acc ≡ some (a * 10 + d)
unfolding parse_digits
parse_digits-snoc [] acc d a h e = ground arith
parse_digits-snoc (c ∷ s) acc d a h e =
    ground (arith, parse_digits-snoc s (acc * 10 + (c - 48)) d a)

parse_digits-digits : (fuel n : ℕ) → n < fuel → parse_digits (digits fuel n) 0 ≡ some n
unfolding digits
parse_digits-digits zero n h = absurd (omega arith)
parse_digits-digits (suc fuel) n h = elim (Bool-cases (ltb n 10)) [
  | inl small ↦ rw small (unfold parse_digits in ground (arith, ltb→lt n 10 small))
  | inr big ↦ rw big (
      parse_digits-snoc (digits fuel (n / 10)) 0 (n % 10) (n / 10) (omega arith)
        (parse_digits-digits fuel (n / 10) (ground arith))
      ∙ ap some (omega arith))
]

-- Parsing what `itoa` prints gives the number back.
pub parse_digits-itoa : (n : ℕ) → parse_digits (itoa n) 0 ≡ some n
unfolding itoa
parse_digits-itoa n = parse_digits-digits (suc n) n (omega arith)

digits-All_digit : (fuel n : ℕ) → All (λ c. is_digit c ≡ true) (digits fuel n)
unfolding digits
digits-All_digit zero n = tt
digits-All_digit (suc fuel) n = elim (Bool-cases (ltb n 10)) [
  | inl small ↦ rw small (ground (arith, ltb→lt n 10 small), tt)
  | inr big ↦ rw big (
      All-append (λ c. is_digit c ≡ true) (digits fuel (n / 10)) ((48 + n % 10) ∷ [])
        (digits-All_digit fuel (n / 10)) (ground arith, tt))
]

pub itoa-All_digit : (n : ℕ) → All (λ c. is_digit c ≡ true) (itoa n)
unfolding itoa
itoa-All_digit n = digits-All_digit (suc n) n

digits-ne-nil : (fuel n : ℕ) → n < fuel → 0 < length (digits fuel n)
unfolding digits
digits-ne-nil zero n h = absurd (omega arith)
digits-ne-nil (suc fuel) n h = elim (Bool-cases (ltb n 10)) [
  | inl small ↦ rw small (omega arith)
  | inr big ↦ rw big (omega (arith, length-append (digits fuel (n / 10)) ((48 + n % 10) ∷ [])))
]

pub itoa-ne-nil : (n : ℕ) → 0 < length (itoa n)
unfolding itoa
itoa-ne-nil n = digits-ne-nil (suc n) n (omega arith)

itoa_example : itoa 2047 ≡ text "2047"
unfolding itoa
itoa_example = refl

padded_example : padded 10 2047 ≡ text "0000002047"
unfolding padded itoa
padded_example = refl
