-- ===== src/Tasks/Version/Next.antt =====
-- The next version: of a version of the same form, in all other cases, and where the code panics.
use contribute_semaphore.Base.{
  ℕ, ◌+◌, ◌-◌, ◌<◌, ◌≡◌, subst, ◌∙◌, ◌⊎◌, true, false, some, ◌++◌, arith,
}
use contribute_semaphore.Base.Tests.{ltb, if◌then◌else◌}
use mathlib.Core.List.{append_assoc}
use contribute_semaphore.Base.Decimal.{itoa, parse_digits}
use contribute_semaphore.Base.Int.{
  ℤ, pos, atoi, int_text, int_suc, int_gt, int_limit, atoi-itoa, atoi-digits,
}
use contribute_semaphore.Base.Lists.{length, length-append, take-append, drop-append}
use contribute_semaphore.Base.Text.{Text, text, has_prefix, has_prefix-append, text_eq_self}
use contribute_semaphore.Tasks.Version.{
  is_prefix_group, is_suffix_group, has_suffix, slice, next_from, get_next_build_version,
}
use contribute_semaphore.Tasks.Version.Split.{IsDigits, NoDigits, find_submatch-parts}
use contribute_semaphore.Tasks.World.{done, panic}

-- A version template: its last run of digits is `body`, which stands for `first`, within int.
pub record IsVersion (p b q : Text) (first : ℕ) : Type 0 where
  pub digits : IsDigits b
  pub some_digit : 0 < length b
  pub value : parse_digits b 0 ≡ some first
  pub in_range : first < int_limit
  pub before_ok : is_prefix_group p ≡ true
  pub after_ok : is_suffix_group q ≡ true
  pub after_plain : NoDigits q

has_suffix-append : (s t : Text) → has_suffix (s ++ t) t ≡ true
unfolding has_suffix
has_suffix-append s t =
    let e : length s + length t - length t ≡ length s = omega arith in
    rw (length-append s t, e, drop-append s t) (ground (arith, text_eq_self t))

slice-middle :
    (p m q : Text) → slice (length p) (length (p ++ (m ++ q)) - length q) (p ++ (m ++ q)) ≡ done m
unfolding slice
slice-middle p m q =
    let e : length p + (length m + length q) - length q ≡ length p + length m = omega arith in
    let f : length p + length m - length p ≡ length m = omega arith in
    rw (length-append p (m ++ q), length-append m q, e, f, drop-append p (m ++ q), take-append m q)
      (ground arith)

module _ (p b q : Text) (first : ℕ) (v : IsVersion p b q first) where
  next_from-first :
      (middle : Text) (curr : ℤ)
      → atoi middle ≡ some curr
      → next_from (p ++ (b ++ q)) (record { before = p; body = b; after = q }) middle
        ≡ done (p ++ (int_text (if int_gt (pos first) curr then pos first else int_suc curr) ++ q))
  unfolding next_from
  next_from-first middle curr e =
      rw (e, next_from) (rw (atoi-digits b first v.some_digit v.digits v.value v.in_range))

  -- When the current version has the template's ends, the text between them decides.
  pub next_between :
      (middle : Text)
      → get_next_build_version (p ++ (b ++ q)) (p ++ (middle ++ q))
        ≡ next_from (p ++ (b ++ q)) (record { before = p; body = b; after = q }) middle
  unfolding get_next_build_version
  next_between middle =
      let e : has_suffix (p ++ (middle ++ q)) q ≡ true =
        subst (λ t. has_suffix t q ≡ true) (append_assoc p middle q)
          (has_suffix-append (p ++ middle) q) in
      rw
        (
          find_submatch-parts p b q v.digits v.some_digit v.after_plain v.before_ok v.after_ok,
          get_next_build_version,
        )
        (rw (has_prefix-append p (middle ++ q), e, slice-middle p middle q))

  -- From a current version of the form of the start version, the next one has the number of the
  -- start version where that is greater, and else the number after the current one, which wraps
  -- round at the end of int.
  pub next_same_form :
      (n : ℕ)
      → n < int_limit
      → get_next_build_version (p ++ (b ++ q)) (p ++ (itoa n ++ q))
        ≡ done (p ++ (int_text (if ltb n first then pos first else int_suc (pos n)) ++ q))
  unfolding int_gt
  next_same_form n h = next_between (itoa n) ∙ next_from-first (itoa n) (pos n) (atoi-itoa n h)

  -- A current version without the first part or without the last part of the start version gives
  -- the start version.
  pub next_other_form :
      (current : Text)
      → (has_prefix current p ≡ false) ⊎ (has_suffix current q ≡ false)
      → get_next_build_version (p ++ (b ++ q)) current ≡ done (p ++ (b ++ q))
  unfolding get_next_build_version
  next_other_form current h =
      rw
        (
          find_submatch-parts p b q v.digits v.some_digit v.after_plain v.before_ok v.after_ok,
          get_next_build_version,
        )
        (ground arith)

  -- Where the first part and the last part of the start version overlap in the current version,
  -- the slice of the code panics.
  pub next_overlap_panics :
      (current : Text)
      → has_prefix current p ≡ true
      → has_suffix current q ≡ true
      → length current < length p + length q
      → get_next_build_version (p ++ (b ++ q)) current ≡ panic (text "slice bounds out of range")
  unfolding get_next_build_version slice has_suffix
  next_overlap_panics current h k l =
      rw
        (
          find_submatch-parts p b q v.digits v.some_digit v.after_plain v.before_ok v.after_ok,
          get_next_build_version,
        )
        (ground arith)
