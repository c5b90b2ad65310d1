-- ===== src/Examples/Versions.antt =====
-- The theorems on versions, for the template "v1.9-rc".
use contribute_semaphore.Base.{◌≡◌, refl, arith}
use contribute_semaphore.Base.Decimal.{itoa, parse_digits}
use contribute_semaphore.Base.Int.{int_text, int_suc}
use contribute_semaphore.Base.Text.{text}
use contribute_semaphore.Tasks.Version.{
  is_prefix_group, is_suffix_group, no_newline, get_next_build_version,
}
use contribute_semaphore.Tasks.Version.Next.{IsVersion, next_same_form}
use contribute_semaphore.Tasks.World.{done}

is_version : IsVersion (text "v1.") (text "9") (text "-rc") 9
unfolding parse_digits is_prefix_group is_suffix_group no_newline
is_version = record {
  digits = (refl, tt);
  some_digit = omega arith;
  value = refl;
  in_range = omega arith;
  before_ok = refl;
  after_ok = refl;
  after_plain = (refl, (refl, (refl, tt)));
}

next_same_form_example :
    get_next_build_version (text "v1.9-rc") (text "v1.12-rc") ≡ done (text "v1.13-rc")
unfolding itoa int_text int_suc
next_same_form_example =
    next_same_form (text "v1.") (text "9") (text "-rc") 9 is_version 12 (omega arith)

overlapping : IsVersion (text "v-") (text "9") (text "-r") 9
unfolding parse_digits is_prefix_group is_suffix_group no_newline
overlapping = record {
  digits = (refl, tt);
  some_digit = omega arith;
  value = refl;
  in_range = omega arith;
  before_ok = refl;
  after_ok = refl;
  after_plain = (refl, (refl, tt));
}
