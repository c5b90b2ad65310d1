-- ===== src/Repo/Cache.antt =====
-- Which directories ClearCache removes (db/Repository.go).
use contribute_semaphore.Base.{
  ℕ, ◌≡◌, refl, subst, inl, inr, true, false, none, some, List, [], ◌∷◌, ◌++◌, arith,
}
use contribute_semaphore.Base.Tests.{◌==◌, Bool-cases}
use contribute_semaphore.Base.Decimal.{itoa, is_digit, itoa-All_digit, parse_digits-itoa}
use contribute_semaphore.Base.Lists.{All}
use mathlib.Core.List.{append_assoc}
use contribute_semaphore.Base.Text.{Text, text, has_prefix, has_prefix-append}
use contribute_semaphore.Host.{Host, Call}
use contribute_semaphore.Model.Resources.{Repository}
use contribute_semaphore.Repo.{dir_name_prefix, get_dir_name, DirEntry, clear_cache}

-- Two runs of digits before an underscore.
eq_of_prefix :
    (s t u : Text)
    → All (λ c. is_digit c ≡ true) s
    → All (λ c. is_digit c ≡ true) t
    → has_prefix (s ++ b'_' ∷ u) (t ++ b'_' ∷ []) ≡ true
    → s ≡ t
unfolding has_prefix
eq_of_prefix [] [] u hs ht p = refl
eq_of_prefix [] (b ∷ t) u hs ht p = absurd (ground arith)
eq_of_prefix (a ∷ s) [] u hs ht p = absurd (ground arith)
eq_of_prefix (a ∷ s) (b ∷ t) u hs ht p = ground (arith, eq_of_prefix s t u hs.1 ht.1)

itoa_injective : (m n : ℕ) → itoa m ≡ itoa n → m ≡ n
itoa_injective m n e = ground (arith, parse_digits-itoa m, parse_digits-itoa n)

drop_prefix : (p s t : Text) → has_prefix (p ++ s) (p ++ t) ≡ true → has_prefix s t ≡ true
unfolding has_prefix
drop_prefix [] s t h = h
drop_prefix (a ∷ p) s t h = drop_prefix p s t (ground arith)

prefix-own :
    (r q : Repository) (template_id : ℕ)
    → has_prefix (get_dir_name template_id q) (dir_name_prefix r) ≡ (q.id == r.id)
unfolding get_dir_name dir_name_prefix
prefix-own r q template_id = elim (Bool-cases (q.id == r.id)) [
  | inl e ↦
      let same : q.id ≡ r.id = ground arith in
      rw (e, same) (has_prefix-append (dir_name_prefix r) (itoa template_id))
  | inr n ↦ elim (Bool-cases (has_prefix (get_dir_name template_id q) (dir_name_prefix r))) [
    | inr out ↦ rw (n, out) refl
    | inl p ↦
        let shorter =
          drop_prefix (text "repository_") (itoa q.id ++ b'_' ∷ itoa template_id)
            (itoa r.id ++ b'_' ∷ [])
            (subst (λ z. has_prefix (text "repository_" ++ z) (dir_name_prefix r) ≡ true)
              (append_assoc (itoa q.id) (b'_' ∷ []) (itoa template_id)) p) in
        let texts =
          eq_of_prefix (itoa q.id) (itoa r.id) (itoa template_id) (itoa-All_digit q.id)
            (itoa-All_digit r.id) shorter in
        absurd (ground (arith, itoa_injective q.id r.id texts))
  ]
]

-- The directories of repositories, each with the number of a template.
abbrev pub entries : List (Repository × ℕ) → List DirEntry
entries [] = []
entries ((q, template_id) ∷ qs) =
    record { name = get_dir_name template_id q; is_dir = true } ∷ entries qs

module _ {F : Type 0} (h : Host F) (tmp_path : Text) where
  -- The directories of one repository are removed, until an error.
  abbrev pub remove_own : ℕ → List (Repository × ℕ) → Call F
  remove_own id [] f = (f, none)
  remove_own id ((q, template_id) ∷ qs) f = elim (q.id == id) [
    | false ↦ remove_own id qs f
    | true ↦
        let (f', error) = h.remove_all (h.join (tmp_path ∷ get_dir_name template_id q ∷ [])) f in
        elim error [ some x ↦ (f', some x) | none ↦ remove_own id qs f' ]
  ]

  -- Among the directories of repositories, ClearCache removes those of its own repository, for
  -- whatever template, and no others, until an error.
  pub clear_cache-eq :
      (r : Repository) (qs : List (Repository × ℕ)) (f : F)
      → clear_cache h tmp_path r (entries qs) f ≡ remove_own r.id qs f
  unfolding clear_cache
  clear_cache-eq r [] f = refl
  clear_cache-eq r ((q, template_id) ∷ qs) f = ground (
    arith,
    prefix-own r q template_id,
    clear_cache-eq r qs f,
    clear_cache-eq r qs (h.remove_all (h.join (tmp_path ∷ get_dir_name template_id q ∷ [])) f).0,
  )
