-- ===== src/Bolt/Ids.antt =====
-- The keys that objects are filed under (intObjectID.ToBytes and createObject in db/bolt/BoltDb.go)
-- and their order, which a cursor follows.
use contribute_semaphore.Base.{
  ℕ, zero, suc, ◌+◌, ◌-◌, ◌/◌, ◌%◌, ◌^◌, ◌≤◌, ◌<◌, ◌≡◌, refl, sym, ◌∙◌, true, false, not, ◌&&◌,
  ◌||◌, [], ◌∷◌, ◌++◌, arith,
}
use contribute_semaphore.Base.Tests.{ltb, lt→ltb, le→leb}
use contribute_semaphore.Base.Decimal.{padded}
use contribute_semaphore.Base.Int.{pos}
use contribute_semaphore.Base.Lists.{length, length-append}
use contribute_semaphore.Base.Text.{Text}
use contribute_semaphore.Bolt.Object.{padded_int, text_lt, to_bytes, int_object_id}
use contribute_semaphore.Bolt.Objects.{inverted_id, max_id}

length-padded : (w n : ℕ) → n < 10 ^ w → length (padded w n) ≡ w
unfolding padded
length-padded zero n h = ground arith
length-padded (suc w) n h =
    length-append (padded w (n / 10)) ((48 + n % 10) ∷ [])
    ∙ omega (arith, length-padded w (n / 10) (omega arith))

text_lt-snoc :
    (s t : Text) (a b : ℕ)
    → length s ≡ length t
    → (text_lt s t ≡ false → text_lt t s ≡ false → s ≡ t)
      × (text_lt (s ++ a ∷ []) (t ++ b ∷ []) ≡ (text_lt s t || (not (text_lt t s) && ltb a b)))
unfolding text_lt
text_lt-snoc [] [] a b h = (λ p q. refl, ground arith)
text_lt-snoc [] (y ∷ t) a b h = absurd (omega arith)
text_lt-snoc (x ∷ s) [] a b h = absurd (omega arith)
text_lt-snoc (x ∷ s) (y ∷ t) a b h =
    let ih = text_lt-snoc s t a b (ground arith) in
    (λ p q. ground (arith, ih.0), ground (arith, ih.1))

-- Zero-padded decimals of one width are in the order of the numbers.
padded_order : (w m n : ℕ) → m < 10 ^ w → n < 10 ^ w → text_lt (padded w m) (padded w n) ≡ ltb m n
unfolding padded text_lt
padded_order zero m n h k = ground arith
padded_order (suc w) m n h k =
    (text_lt-snoc (padded w (m / 10)) (padded w (n / 10)) (48 + m % 10) (48 + n % 10)
      (length-padded w (m / 10) (omega arith) ∙ sym (length-padded w (n / 10) (omega arith)))).1
    ∙ rw
        (
          padded_order w (m / 10) (n / 10) (omega arith) (omega arith),
          padded_order w (n / 10) (m / 10) (omega arith) (omega arith),
        )
        (ground arith)

-- The keys of two IDs that are not negative and have up to ten digits are in the order of the IDs.
pub to_bytes_order :
    (m n : ℕ)
    → m < 10 ^ 10
    → n < 10 ^ 10
    → text_lt (to_bytes (int_object_id (pos m))) (to_bytes (int_object_id (pos n))) ≡ ltb m n
unfolding to_bytes padded_int
to_bytes_order m n h k = padded_order 10 m n h k

text_lt_irrefl : (s : Text) → text_lt s s ≡ false
unfolding text_lt
text_lt_irrefl [] = refl
text_lt_irrefl (a ∷ s) = ground (arith, text_lt_irrefl s)

-- Two IDs that are not negative and have up to ten digits have one key only when they are equal.
pub to_bytes-injective :
    (m n : ℕ)
    → m < 10 ^ 10
    → n < 10 ^ 10
    → to_bytes (int_object_id (pos m)) ≡ to_bytes (int_object_id (pos n))
    → m ≡ n
to_bytes-injective m n h k e = ground (
  arith,
  to_bytes_order m n h k,
  to_bytes_order n m k h,
  text_lt_irrefl (to_bytes (int_object_id (pos n))),
)

-- Of two numbers that the counter of an inverted table gives, up to MaxID, the later one has the
-- key that a cursor meets first.
pub newest_first :
    (m n : ℕ)
    → m < n
    → n ≤ max_id
    → text_lt (to_bytes (int_object_id (inverted_id n))) (to_bytes (int_object_id (inverted_id m)))
      ≡ true
unfolding inverted_id
newest_first m n h k =
    rw (le→leb n max_id k, le→leb m max_id (omega arith))
      (to_bytes_order (max_id - n) (max_id - m) (omega arith) (omega arith)
        ∙ lt→ltb (max_id - n) (max_id - m) (omega arith))
