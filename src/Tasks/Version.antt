-- ===== src/Tasks/Version.antt =====
-- getNextBuildVersion (services/tasks/TaskPool.go). The regular expression
-- `^(.*[^\d])?(\d+)([^\d].*)?$` is matched as package regexp does: the first group is tried at its
-- longest, and is left out last. In it `.` is any byte but a newline.
pub mod Split
pub mod Next
use contribute_semaphore.Base.{
  ℕ, zero, suc, ◌+◌, ◌-◌, ◌*◌, ◌/◌, ◌%◌, ◌^◌, ◌≤◌, ◌<◌, ◌≡◌, refl, sym, ap, subst, ◌∙◌, ◌≢◌, ◌↔◌,
  ◌⊎◌, inl, inr, Bool, true, false, not, ◌&&◌, ◌||◌, Option, none, some, List, [], ◌∷◌, ◌++◌, map,
  arith,
}
use contribute_semaphore.Base.Tests.{
  ltb, leb, ◌==◌, if◌then◌else◌, ltb→lt, lt→ltb, leb→le, le→leb, ==_iff, ==_self, tests, Bool-cases,
  Option-cases,
}
use contribute_semaphore.Base.Decimal.{itoa, is_digit}
use contribute_semaphore.Base.Int.{ℤ, pos, negsuc, atoi, int_text, int_suc, int_gt}
use contribute_semaphore.Base.Lists.{length, take, drop}
use contribute_semaphore.Base.Text.{Text, text, text_eq, has_prefix}
use contribute_semaphore.Tasks.World.{Outcome, done, panic}

abbrev pub newline : ℕ
newline = 10

unfoldable pub no_newline : Text → Bool
no_newline [] = true
no_newline (c ∷ s) = not (c == newline) && no_newline s

-- `(.*[^\d])?` on the whole of a text.
unfoldable pub is_prefix_group : Text → Bool
is_prefix_group [] = true
is_prefix_group (c ∷ []) = not (is_digit c)
is_prefix_group (c ∷ d ∷ s) = not (c == newline) && is_prefix_group (d ∷ s)

-- `([^\d].*)?` on the whole of a text.
unfoldable pub is_suffix_group : Text → Bool
unfolding no_newline
is_suffix_group [] = true
is_suffix_group (c ∷ s) = not (is_digit c) && no_newline s

-- `\d+`, at its longest.
unfoldable pub span_digits : Text → Text × Text
span_digits [] = ([], [])
span_digits (c ∷ s) =
    let rest = span_digits s in if is_digit c then (c ∷ rest.0, rest.1) else ([], c ∷ s)

abbrev pub is_nil : Text → Bool
is_nil [] = true
is_nil (c ∷ s) = false

pub record Match : Type 0 where
  pub before : Text
  pub body : Text
  pub after : Text

-- The match whose first group has the given length, if there is one.
unfoldable pub match_at : ℕ → Text → Option Match
match_at i s =
    let (body, after) = span_digits (drop i s) in
    if is_prefix_group (take i s) && (not (is_nil body) && is_suffix_group after)
    then some (record { before = take i s; body = body; after = after })
    else none

unfoldable pub match_from : ℕ → Text → Option Match
match_from zero s = match_at zero s
match_from (suc i) s =
    let shorter = match_from i s in elim (match_at (suc i) s) [ some m ↦ some m | none ↦ shorter ]

unfoldable pub find_submatch : Text → Option Match
find_submatch s = match_from (length s) s

-- strings.HasSuffix
unfoldable pub has_suffix : Text → Text → Bool
has_suffix s t = leb (length t) (length s) && text_eq (drop (length s - length t) s) t

-- `s[low:high]`; Go panics if low > high.
unfoldable pub slice : ℕ → ℕ → Text → Outcome Text
slice low high s =
    if ltb high low
    then panic (text "slice bounds out of range")
    else done (take (high - low) (drop low s))

-- The part from the first Atoi on: the current number, and the start's.
unfoldable pub next_from : Text → Match → Text → Outcome Text
next_from start m middle = elim (atoi middle) [
  | none ↦ done start
  | some curr ↦ elim (atoi m.body) [
    | none ↦ panic (text "value out of range")
    | some first ↦
        done (m.before ++ (int_text (if int_gt first curr then first else int_suc curr) ++ m.after))
  ]
]

abbrev bind_text : Outcome Text → (Text → Outcome Text) → Outcome Text
bind_text (done t) f = f t
bind_text (panic e) f = panic e

-- FindStringSubmatch returns four strings, so of the switch on their number only `case 3` is taken.
unfoldable pub get_next_build_version : Text → Text → Outcome Text
unfolding next_from
get_next_build_version start current = elim (find_submatch start) [
  | none ↦ done start
  | some m ↦
      if not (has_prefix current m.before) || not (has_suffix current m.after)
      then done start
      else bind_text (slice (length m.before) (length current - length m.after) current)
          (next_from start m)
]
