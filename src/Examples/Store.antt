-- ===== src/Examples/Store.antt =====
-- A database file in memory, and an encoding of objects whose fields are numbers, with their laws.
use contribute_semaphore.Base.{
  ℕ, ◌+◌, ◌≡◌, refl, sym, ap, subst, ◌∙◌, Bool, ◌&&◌, Option, none, some, List, [], ◌∷◌, arith,
}
use contribute_semaphore.Base.Tests.{if◌then◌else◌}
use contribute_semaphore.Base.Int.{pos, negsuc}
use contribute_semaphore.Base.Lists.{any}
use contribute_semaphore.Base.Text.{Text, text_eq, text_eq_self, eq_of_text_eq}
use contribute_semaphore.Bolt.Database.{Bbolt, BboltLaws, Codec, CodecLaws, stored}
use contribute_semaphore.Bolt.Object.{
  Object, int_value, string_value, pointer_value, other_value, tags,
}
use contribute_semaphore.Model.Store.{bind-eq-ok, Result, ok, err, failure, ◌>>=◌}

pub record File : Type 0 where
  pub buckets : List Text
  pub entries : List (Text × Text × Text)
  pub counter : ℕ

abbrev same : Text → Text → Text → Text → Bool
same b k c j = text_eq b c && text_eq k j

unfoldable pub find_entry : Text → Text → List (Text × Text × Text) → Option Text
find_entry c j [] = none
find_entry c j ((b, k, v) ∷ es) =
    let rest = find_entry c j es in if same b k c j then some v else rest

unfoldable pub cut_entry : Text → Text → List (Text × Text × Text) → List (Text × Text × Text)
cut_entry c j [] = []
cut_entry c j ((b, k, v) ∷ es) =
    let rest = cut_entry c j es in if same c j b k then rest else (b, k, v) ∷ rest

unfoldable pub rows_in : Text → List (Text × Text × Text) → List (Text × Text)
rows_in c [] = []
rows_in c ((b, k, v) ∷ es) = let rest = rows_in c es in if text_eq b c then (k, v) ∷ rest else rest

abbrev pub file_store : Bbolt File
file_store = record {
  has_bucket = λ b d. any (λ c. text_eq c b) d.buckets;
  create_bucket_if_not_exists = λ b d. ok (record d { buckets = b ∷ d.buckets });
  get = λ b k d. find_entry b k d.entries;
  cursor = λ b d. rows_in b d.entries;
  put = λ b k v d. ok (record d { entries = (b, k, v) ∷ d.entries });
  remove = λ b k d. ok (record d { entries = cut_entry b k d.entries });
  next_sequence = λ b d. ok (d.counter + 1, record d { counter = d.counter + 1 });
}

find-cut :
    (b k c j : Text) (es : List (Text × Text × Text))
    → find_entry c j (cut_entry b k es) ≡ (if same b k c j then none else find_entry c j es)
unfolding find_entry cut_entry
find-cut b k c j [] = ground arith
find-cut b k c j ((a, i, v) ∷ es) = ground (
  arith,
  find-cut b k c j es,
  eq_of_text_eq b a,
  eq_of_text_eq k i,
  eq_of_text_eq b c,
  eq_of_text_eq k j,
  eq_of_text_eq a c,
  eq_of_text_eq i j,
  text_eq_self a,
  text_eq_self i,
)

pub file_laws : BboltLaws file_store
unfolding find_entry
file_laws = record {
  get-put = λ b k v d d' c j h. ground arith;
  has_bucket-put = λ b k v d d' c h. ground arith;
  get-remove = λ b k d d' c j h. ground (arith, find-cut b k c j d.entries);
  has_bucket-create = λ b d d' h. ground (arith, text_eq_self b);
  has_bucket-create_kept = λ b d d' c h k. ground arith;
  get-create = λ b d d' c j h. ground arith;
  get-next_sequence = λ b d d' n c j h. ground arith;
  has_bucket-next_sequence = λ b d d' n c h. ground arith;
}

unfoldable pub encode : Object → Result Text
encode [] = ok []
encode ((t, int_value (pos n)) ∷ o) = encode o >>= λ s. ok (n ∷ s)
encode ((t, int_value (negsuc n)) ∷ o) = err (failure [])
encode ((t, string_value s) ∷ o) = err (failure [])
encode ((t, pointer_value p) ∷ o) = err (failure [])
encode ((t, other_value s) ∷ o) = err (failure [])

unfoldable pub decode : List Text → Text → Result Object
decode [] [] = ok []
decode [] (n ∷ s) = err (failure [])
decode (t ∷ ts) [] = err (failure [])
decode (t ∷ ts) (n ∷ s) = decode ts s >>= λ o. ok ((t, int_value (pos n)) ∷ o)

decode-encode : (o : Object) (s : Text) → encode o ≡ ok s → decode (tags o) s ≡ ok o
unfolding encode decode
decode-encode [] [] h = refl
decode-encode [] (n ∷ s) h = absurd (cc)
decode-encode ((t, int_value (pos n)) ∷ o) s h =
    bind-eq-ok (decode (t ∷ tags o) s ≡ ok ((t, int_value (pos n)) ∷ o)) (encode o)
      (λ s'. ok (n ∷ s')) {b = s}
      (λ s' e f.
        let q : n ∷ s' ≡ s = ground arith in
        subst (λ z. decode (t ∷ tags o) z ≡ ok ((t, int_value (pos n)) ∷ o)) q
          (ap (λ m. m >>= λ o'. ok ((t, int_value (pos n)) ∷ o')) (decode-encode o s' e)))
      h
decode-encode ((t, int_value (negsuc n)) ∷ o) s h = absurd (cc)
decode-encode ((t, string_value x) ∷ o) s h = absurd (cc)
decode-encode ((t, pointer_value p) ∷ o) s h = absurd (cc)
decode-encode ((t, other_value x) ∷ o) s h = absurd (cc)

-- Where all texts are kept, all objects are.
pub stored-same :
    (c : Codec)
    → c.to_valid_utf8 ≡ (λ s. s)
    → c.stored_other ≡ (λ s. s)
    → (o : Object) → stored c o ≡ o
stored-same c f g [] = refl
stored-same c f g ((t, int_value i) ∷ o) = ap (◌∷◌ (t, int_value i)) (stored-same c f g o)
stored-same c f g ((t, string_value s) ∷ o) = rw (f, stored-same c f g o) refl
stored-same c f g ((t, pointer_value p) ∷ o) = ap (◌∷◌ (t, pointer_value p)) (stored-same c f g o)
stored-same c f g ((t, other_value s) ∷ o) = rw (g, stored-same c f g o) refl

abbrev pub codec : Codec
codec = record {
  marshal_object = encode;
  unmarshal_object = decode;
  to_valid_utf8 = λ s. s;
  stored_other = λ s. s;
}

pub codec_laws : CodecLaws codec
codec_laws = record {
  unmarshal-marshal = λ o s h. decode-encode o s h ∙ ap ok (sym (stored-same codec refl refl o));
}
