-- ===== src/Bolt/Object.antt =====
-- What db/bolt/BoltDb.go reads of a struct by reflection: its fields with their `db` tags, in the
-- order of the declaration. The fields with the tag `-` are not stored, and no stored type has a
-- field of a struct type without a tag, so that the second loop of getFieldNameByTagSuffix is idle.
use contribute_semaphore.Base.{
  suc, ◌-◌, ◌≡◌, refl, Bool, true, false, ◌&&◌, ◌||◌, Option, none, some, List, [], ◌∷◌, arith,
}
use contribute_semaphore.Base.Tests.{ltb, leb, ◌==◌, if◌then◌else◌}
use contribute_semaphore.Base.Decimal.{padded}
use contribute_semaphore.Base.Int.{ℤ, pos, negsuc}
use contribute_semaphore.Base.Lists.{length, drop}
use contribute_semaphore.Base.Text.{Text, text_eq}

-- The kinds that the code tells apart: an int, a string, a *int, and the rest.
pub data Value : Type 0 where
  int_value : ℤ → Value
  string_value : Text → Value
  pointer_value : Option ℤ → Value
  other_value : Text → Value

abbrev pub Object : Type 0
Object = List (Text × Value)

pub data ObjectId : Type 0 where
  int_object_id : ℤ → ObjectId
  str_object_id : Text → ObjectId

-- The verb `%010d`, whose width counts the sign.
unfoldable pub padded_int : ℤ → Text
padded_int (pos n) = padded 10 n
padded_int (negsuc n) = b'-' ∷ padded 9 (suc n)

unfoldable pub to_bytes : ObjectId → Text
unfolding padded_int
to_bytes (int_object_id i) = padded_int i
to_bytes (str_object_id s) = s

-- strings.HasSuffix
unfoldable pub has_suffix : Text → Text → Bool
has_suffix s t = leb (length t) (length s) && text_eq (drop (length s - length t) s) t

-- The first field whose tag ends so.
unfoldable pub field_by_tag_suffix : Text → Object → Option Value
unfolding has_suffix
field_by_tag_suffix suffix [] = none
field_by_tag_suffix suffix ((tag, v) ∷ fields) =
    let rest = field_by_tag_suffix suffix fields in if has_suffix tag suffix then some v else rest

unfoldable pub set_field : Text → Value → Object → Object
unfolding has_suffix
set_field suffix v [] = []
set_field suffix v ((tag, w) ∷ fields) =
    let rest = set_field suffix v fields in
    if has_suffix tag suffix then (tag, v) ∷ fields else (tag, w) ∷ rest

abbrev pub tags : Object → List Text
tags [] = []
tags ((tag, v) ∷ fields) = tag ∷ tags fields

pub field-set_field :
    (suffix : Text) (v w : Value) (o : Object)
    → field_by_tag_suffix suffix o ≡ some w
    → field_by_tag_suffix suffix (set_field suffix v o) ≡ some v
unfolding field_by_tag_suffix set_field
field-set_field suffix v w [] h = cc
field-set_field suffix v w ((tag, u) ∷ o) h = ground (arith, field-set_field suffix v w o)

pub tags-set_field : (suffix : Text) (v : Value) (o : Object) → tags (set_field suffix v o) ≡ tags o
unfolding set_field
tags-set_field suffix v [] = refl
tags-set_field suffix v ((tag, u) ∷ o) = ground (arith, tags-set_field suffix v o)

-- `<` on Go strings.
unfoldable pub text_lt : Text → Text → Bool
text_lt s [] = false
text_lt [] (b ∷ t) = true
text_lt (a ∷ s) (b ∷ t) = ltb a b || (a == b && text_lt s t)
