-- ===== src/Tasks/Version/Split.antt =====
-- Where the regular expression splits a version: around its last run of digits.
use contribute_semaphore.Base.{
  ℕ, zero, suc, ◌+◌, ◌<◌, ◌≡◌, refl, ap, ◌⊎◌, inl, inr, true, false, none, some, [], ◌∷◌, ◌++◌,
  arith,
}
use Prim.Native.Nat.add
use mathlib.Core.List.{append-nil}
use native.Mathlib.Nat.{add-zero, add-suc}
use contribute_semaphore.Base.Decimal.{is_digit}
use contribute_semaphore.Base.Lists.{
  length, length-append, take, drop, All, take-append, drop-append,
}
use contribute_semaphore.Base.Text.{Text}
use contribute_semaphore.Tasks.Version.{
  is_prefix_group, is_suffix_group, span_digits, Match, match_at, match_from, find_submatch, is_nil,
}

abbrev pub IsDigits : Text → Type 0
IsDigits = All (λ c. is_digit c ≡ true)

abbrev pub NoDigits : Text → Type 0
NoDigits = All (λ c. is_digit c ≡ false)

span_digits-append :
    (b s : Text) → IsDigits b → span_digits (b ++ s) ≡ (b ++ (span_digits s).0, (span_digits s).1)
unfolding span_digits
span_digits-append [] s h = refl
span_digits-append (c ∷ b) s h = ground (arith, span_digits-append b s h.1)

span_digits-none : (s : Text) → NoDigits s → span_digits s ≡ ([], s)
unfolding span_digits
span_digits-none [] h = refl
span_digits-none (c ∷ s) h = ground arith

NoDigits-drop : (j : ℕ) (s : Text) → NoDigits s → NoDigits (drop j s)
NoDigits-drop zero s h = h
NoDigits-drop (suc j) [] h = tt
NoDigits-drop (suc j) (c ∷ s) h = NoDigits-drop j s h.1

-- A first group that ends in a digit is none.
is_prefix_group-digits : (p b : Text) → IsDigits b → 0 < length b → is_prefix_group (p ++ b) ≡ false
unfolding is_prefix_group
is_prefix_group-digits [] [] h l = absurd (omega arith)
is_prefix_group-digits [] (c ∷ []) h l = ground arith
is_prefix_group-digits [] (c ∷ d ∷ b) h l = ground (arith, is_prefix_group-digits [] (d ∷ b) h.1)
is_prefix_group-digits (c ∷ []) [] h l = absurd (omega arith)
is_prefix_group-digits (c ∷ []) (d ∷ b) h l = ground (arith, is_prefix_group-digits [] (d ∷ b) h)
is_prefix_group-digits (c ∷ d ∷ p) b h l = ground (arith, is_prefix_group-digits (d ∷ p) b h l)

take-longer : (p s : Text) (j : ℕ) → take (length p + j) (p ++ s) ≡ p ++ take j s
take-longer [] s j = rw add.zero
take-longer (c ∷ p) s j = rw add.suc (ap (◌∷◌ c) (take-longer p s j))

drop-longer : (p s : Text) (j : ℕ) → drop (length p + j) (p ++ s) ≡ drop j s
drop-longer [] s j = rw add.zero
drop-longer (c ∷ p) s j = rw add.suc (drop-longer p s j)

-- Past the first group the text begins with digits, or has none from there on.
beyond :
    (j : ℕ) (b q : Text)
    → IsDigits b
    → NoDigits q
    → (IsDigits (take (suc j) (b ++ q)) × (0 < length (take (suc j) (b ++ q))))
      ⊎ NoDigits (drop (suc j) (b ++ q))
beyond j [] q h n = inr (NoDigits-drop (suc j) q n)
beyond zero (c ∷ b) q h n = inl ((h.0, tt), omega arith)
beyond (suc j) (c ∷ b) q h n = elim (beyond j b q h.1 n) [
  | inl (d, l) ↦ inl ((h.0, d), omega arith)
  | inr x ↦ inr x
]

is_nil-pos : (b : Text) → 0 < length b → is_nil b ≡ false
is_nil-pos [] h = absurd (omega arith)
is_nil-pos (c ∷ b) h = refl

match_from_of : (i : ℕ) (s : Text) (m : Match) → match_at i s ≡ some m → match_from i s ≡ some m
unfolding match_from
match_from_of zero s m h = h
match_from_of (suc i) s m h = rw (h, match_from)

module _ (p b q : Text) (hb : IsDigits b) (lb : 0 < length b) (nq : NoDigits q) where
  match_at-longer : (j : ℕ) → match_at (length p + suc j) (p ++ (b ++ q)) ≡ none
  unfolding match_at
  match_at-longer j =
      rw (take-longer p (b ++ q) (suc j), drop-longer p (b ++ q) (suc j))
        (elim (beyond j b q hb nq) [
          | inl (d, l) ↦ ground (arith, is_prefix_group-digits p (take (suc j) (b ++ q)) d l)
          | inr x ↦ rw (span_digits-none (drop (suc j) (b ++ q)) x) (ground arith)
        ])

  module _ (hp : is_prefix_group p ≡ true) (hq : is_suffix_group q ≡ true) where
    abbrev parts : Match
    parts = record { before = p; body = b; after = q }

    match_at-parts : match_at (length p) (p ++ (b ++ q)) ≡ some parts
    unfolding match_at
    match_at-parts =
        rw
          (
            take-append p (b ++ q),
            drop-append p (b ++ q),
            span_digits-append b q hb,
            span_digits-none q nq,
            append-nil b,
          )
          (ground (arith, is_nil-pos b lb))

    match_from-parts : (j : ℕ) → match_from (length p + j) (p ++ (b ++ q)) ≡ some parts
    unfolding match_from
    match_from-parts zero =
        rw add-zero (match_from_of (length p) (p ++ (b ++ q)) parts match_at-parts)
    match_from-parts (suc j) =
        let longer : match_at (suc (length p + j)) (p ++ (b ++ q)) ≡ none =
          rw add-suc at (match_at-longer j) in
        rw add-suc (rw (longer, match_from) (match_from-parts j))

    -- A version whose last run of digits stands between a first part and a last part that the
    -- groups of the regular expression accept is split around that run.
    pub find_submatch-parts : find_submatch (p ++ (b ++ q)) ≡ some parts
    unfolding find_submatch
    find_submatch-parts = rw (length-append p (b ++ q)) (match_from-parts (length (b ++ q)))
