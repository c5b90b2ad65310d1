-- ===== src/Examples/Ciphering.antt =====
-- A toy cipher and a table with a key for each project, with their laws, and the theorems on access keys at
-- them.
use contribute_semaphore.Base.{
  ℕ, ◌≡◌, refl, subst, ap, ◌≢◌, Bool, true, false, ◌&&◌, Option, none, some, List, [], ◌∷◌, ◌++◌,
  inl, inr, arith,
}
use contribute_semaphore.Base.Tests.{◌==◌, if◌then◌else◌, Bool-cases}
use contribute_semaphore.Base.Lists.{All, length}
use contribute_semaphore.Base.Text.{Text, text, text_eq, eq_of_text_eq}
use contribute_semaphore.Examples.Disk.{key}
use contribute_semaphore.Keys.Cipher.{
  Decoded, decoded, other_error, Gcm, Ciphers, CipherLaws, ends_with_newline,
}
use contribute_semaphore.Keys.RoundTrip.{is_utf8, Fills, with_secret_of, deserialize-serialize}
use contribute_semaphore.Keys.Secret.{
  serialize_secret, deserialize_secret2, store_secret, encrypt, plaintext, open_encoded, open_plain,
  unmarshal_field, validate_key, validate_secret,
}
use contribute_semaphore.Keys.Table.{
  KeyTable, KeyTableLaws, stored, Distinct, rekey_access_keys, rekey_projects, rekey_keys,
  rekey_key, project_id_of, key_to_write, update_access_key,
}
use contribute_semaphore.Keys.Rekey.{ProjectRekeyed, rekey_access_keys-Rekeyed}
use contribute_semaphore.Keys.Update.{update_access_key-opens}
use contribute_semaphore.Model.Resources.{
  AccessKey, AccessKeyType, ssh, no_key, login_password, other_key, LoginPassword, SshKey, Project,
}
use contribute_semaphore.Model.Store.{Result, ok, err, failure, not_found, ◌>>=◌}

-- All but the last byte.
unfoldable pub but_last : Text → Result Text
but_last [] = err (failure (text "illegal base64 data"))
but_last (c ∷ []) = ok []
but_last (c ∷ d ∷ s) = but_last (d ∷ s) >>= λ r. ok (c ∷ r)

but_last-append : (s : Text) → but_last (s ++ b'A' ∷ []) ≡ ok s
unfolding but_last
but_last-append [] = refl
but_last-append (c ∷ []) = refl
but_last-append (c ∷ d ∷ s) = ap (λ m. m >>= λ r. ok (c ∷ r)) (but_last-append (d ∷ s))

ends-append : (s : Text) → ends_with_newline (s ++ b'A' ∷ []) ≡ false
ends-append [] = refl
ends-append (c ∷ []) = refl
ends-append (c ∷ d ∷ s) = ends-append (d ∷ s)

unfoldable pub marshal_ssh : SshKey → Result Text
marshal_ssh k =
    if text_eq k.login [] && text_eq k.passphrase []
    then ok (b'{' ∷ k.private_key)
    else err (failure (text "not supported"))

unfoldable pub marshal_login : LoginPassword → Result Text
marshal_login k =
    if text_eq k.login [] then ok (b'{' ∷ k.password) else err (failure (text "not supported"))

unfoldable pub unmarshal_ssh : Text → Decoded SshKey
unmarshal_ssh [] = other_error (failure (text "unexpected end of JSON input"))
unmarshal_ssh (c ∷ s) = decoded (record { login = []; passphrase = []; private_key = s })

unfoldable pub unmarshal_login : Text → Decoded LoginPassword
unmarshal_login [] = other_error (failure (text "unexpected end of JSON input"))
unmarshal_login (c ∷ s) = decoded (record { login = []; password = s })

unfoldable pub unseal : Text → Text → Result Text
unseal nonce [] = err (failure (text "cipher: message authentication failed"))
unseal nonce (c ∷ s) = ok s

abbrev pub gcm : Gcm
gcm = record { nonce_size = 2; seal = λ nonce s. b'#' ∷ s; unseal = unseal }

abbrev pub ciphers : Ciphers
ciphers = record {
  encode_base64 = λ s. s ++ b'A' ∷ [];
  decode_base64 = but_last;
  valid_utf8 = λ s. true;
  to_valid_utf8 = λ s. s;
  marshal_ssh_key = marshal_ssh;
  unmarshal_ssh_key = unmarshal_ssh;
  marshal_login_password = marshal_login;
  unmarshal_login_password = unmarshal_login;
  new_gcm = λ s. ok gcm;
}

unmarshal-marshal_ssh :
    (k : SshKey) (s : Text) → marshal_ssh k ≡ ok s → (s ≢ []) × (unmarshal_ssh s ≡ decoded k)
unfolding marshal_ssh unmarshal_ssh
unmarshal-marshal_ssh k s h = elim (Bool-cases (text_eq k.login [] && text_eq k.passphrase [])) [
  | inl e ↦
      let q : b'{' ∷ k.private_key ≡ s = ground arith in
      let l : k.login ≡ [] = eq_of_text_eq k.login [] (ground arith) in
      let p : k.passphrase ≡ [] = eq_of_text_eq k.passphrase [] (ground arith) in
      (λ n. cc (q, n), rw (← q) ground (arith, l, p))
  | inr e ↦ absurd (ground arith)
]

unmarshal-marshal_login :
    (k : LoginPassword) (s : Text)
    → marshal_login k ≡ ok s
    → (s ≢ []) × (unmarshal_login s ≡ decoded k)
unfolding marshal_login unmarshal_login
unmarshal-marshal_login k s h = elim (Bool-cases (text_eq k.login [])) [
  | inl e ↦
      let q : b'{' ∷ k.password ≡ s = ground arith in
      let l : k.login ≡ [] = eq_of_text_eq k.login [] e in
      (λ n. cc (q, n), rw (← q) ground (arith, l))
  | inr e ↦ absurd (ground arith)
]

append-A : (s : Text) → s ++ b'A' ∷ [] ≢ []
append-A [] = λ e. cc e
append-A (c ∷ s) = λ e. cc e

pub cipher_laws : CipherLaws ciphers
unfolding unseal
cipher_laws = record {
  decode-encode = but_last-append;
  encode-ne-nil = λ s ne. append-A s;
  encode-utf8 = λ s. refl;
  to_valid_utf8-valid = λ s h. refl;
  encode_newline = ends-append;
  marshal_ssh_key-ne-nil = λ k s h. (unmarshal-marshal_ssh k s h).0;
  unmarshal-marshal_ssh_key = λ k s u h. (unmarshal-marshal_ssh k s h).1;
  marshal_login_password-ne-nil = λ k s h. (unmarshal-marshal_login k s h).0;
  unmarshal-marshal_login_password = λ k s u h. (unmarshal-marshal_login k s h).1;
  unseal-seal = λ key g nonce plaintext h l.
      let e : gcm ≡ g = ground arith in
      subst (λ z. z.unseal nonce (z.seal nonce plaintext) ≡ ok plaintext) e refl;
  seal-ne-nil = λ key g nonce plaintext h.
      let e : gcm ≡ g = ground arith in subst (λ z. z.seal nonce plaintext ≢ []) e (λ n. cc n);
}

any_utf8 : (k : AccessKey) (t : AccessKeyType) → is_utf8 ciphers t k ≡ true
any_utf8 k ssh = refl
any_utf8 k login_password = refl
any_utf8 k no_key = refl
any_utf8 k (other_key t) = refl

abbrev pub login_key : AccessKey
login_key = record key {
  id = 3;
  name = text "deploy";
  type = login_password;
  project_id = some 1;
  login_password = record { login = []; password = text "pw" };
  override_secret = true;
}

abbrev bytes : ℕ → Result Text
bytes n = if n == 2 then ok (1 ∷ 2 ∷ []) else err (failure (text "unexpected EOF"))

bytes_fill : Fills bytes
bytes_fill n s h = elim (Bool-cases (n == 2)) [
  | inl e ↦ let q : 1 ∷ 2 ∷ [] ≡ s = ground arith in subst (λ z. length z ≡ n) q (ground arith)
  | inr e ↦ absurd (ground arith)
]

-- What the secret is under an encryption key.
abbrev sealed_key : AccessKey
sealed_key = record login_key { secret = some (1 ∷ 2 ∷ (text "#{pwA")) }

deserialize-serialize_example : deserialize_secret2 ciphers (text "kA") sealed_key ≡ ok sealed_key
unfolding serialize_secret store_secret encrypt plaintext marshal_login but_last text_eq
deserialize-serialize_example =
    deserialize-serialize ciphers cipher_laws (text "kA") bytes login_key sealed_key sealed_key
      bytes_fill refl refl refl refl

-- A table with one key for each project at most.
abbrev Slots : Type 0
Slots = ℕ → Option AccessKey

abbrev listed : Option AccessKey → List AccessKey
listed none = []
listed (some k) = k ∷ []

abbrev with_id : ℕ → Option AccessKey → Result AccessKey
with_id id none = err not_found
with_id id (some k) = if k.id == id then ok k else err not_found

abbrev is_key : ℕ → Option AccessKey → Bool
is_key id none = false
is_key id (some k) = k.id == id

abbrev project : ℕ → Project
project id = record {
  id = id;
  name = text "demo";
  created = 0;
  alert = false;
  alert_chat = none;
  max_parallel_tasks = 2;
}

abbrev key_table : KeyTable Slots
key_table = record {
  get_projects = λ d. ok (project 1 ∷ project 2 ∷ []);
  get_access_keys = λ p d. ok (listed (d p));
  get_access_key = λ p id d. with_id id (d p);
  create_key = λ p k d. err (failure []);
  update_key = λ p k d.
      if is_key k.id (d p)
      then ok (λ q. if p == q then some (stored ciphers k) else d q)
      else err not_found;
}

-- The slots after a write that succeeds.
abbrev put_slot : ℕ → AccessKey → Slots → Slots
put_slot p k d q = if p == q then some (stored ciphers k) else d q

update_key-put_slot :
    (p : ℕ) (k : AccessKey) (d d' : Slots)
    → key_table.update_key p k d ≡ ok d'
    → (is_key k.id (d p) ≡ true) × (put_slot p k d ≡ d')
update_key-put_slot p k d d' h = elim (Bool-cases (is_key k.id (d p))) [
  | inl e ↦ (e, ground arith)
  | inr e ↦ absurd (ground arith)
]

get-put_slot :
    (p : ℕ) (k : AccessKey) (d : Slots) (q id : ℕ)
    → is_key k.id (d p) ≡ true
    → with_id id (put_slot p k d q)
      ≡ (if (p == q) && (k.id == id) then ok (stored ciphers k) else with_id id (d q))
get-put_slot p k d q id h = go (d p) refl
  where
    go :
        (o : Option AccessKey)
        → d p ≡ o
        → with_id id (put_slot p k d q)
          ≡ (if (p == q) && (k.id == id) then ok (stored ciphers k) else with_id id (d q))
    go none e = absurd (ground arith)
    go (some old) e = ground arith

key_table_laws : KeyTableLaws ciphers key_table
key_table_laws = record {
  get-update = λ p k d d' q id h.
      let (old, e) = update_key-put_slot p k d d' h in
      subst
        (λ z.
          with_id id (z q)
          ≡ (if (p == q) && (k.id == id) then ok (stored ciphers k) else with_id id (d q)))
        e (get-put_slot p k d q id old);
  get_all-update = λ p k d d' q h ne.
      subst (λ z. ok (listed (z q)) ≡ ok (listed (d q))) (update_key-put_slot p k d d' h).1
        (ground (arith, ne));
}

open_to_utf8 :
    (ks : List AccessKey)
    → All
        (λ k.
          (o : AccessKey)
          → deserialize_secret2 ciphers [] k ≡ ok o
          → is_utf8 ciphers o.type o ≡ true)
        ks
open_to_utf8 [] = tt
open_to_utf8 (k ∷ ks) = (λ o h. any_utf8 o o.type, open_to_utf8 ks)

-- The list of one key of the project is in order.
in_order :
    (p : ℕ) (k : AccessKey) (ks : List AccessKey)
    → k.project_id ≡ some p
    → ok (k ∷ []) ≡ ok ks
    → All (λ k. k.project_id ≡ some p) ks
      × Distinct (λ k. k.id) ks
      × All
          (λ k.
            (o : AccessKey)
            → deserialize_secret2 ciphers [] k ≡ ok o
            → is_utf8 ciphers o.type o ≡ true)
          ks
in_order p k ks own e =
    let same : k ∷ [] ≡ ks = ground arith in
    (
      subst (All (λ k. k.project_id ≡ some p)) same (own, tt),
      subst (Distinct (λ k. k.id)) same (tt, tt),
      open_to_utf8 ks,
    )

-- The keys of two projects under no encryption key.
abbrev slots : Slots
slots p =
    if p == 1
    then some (stored ciphers (record login_key { secret = some (text "{pwA") }))
    else if p == 2
    then some
        (stored ciphers (record login_key { project_id = some 2; secret = some (text "{xA") }))
    else none

abbrev ready : Result Slots → Slots
ready (ok d) = d
ready (err e) = slots

abbrev rekeyed : Slots
rekeyed = ready (rekey_access_keys ciphers key_table (text "kA") [] (λ k. bytes) slots)

rekey_access_keys-Rekeyed_example :
    All
      (ProjectRekeyed ciphers cipher_laws key_table key_table_laws
        (text "kA")
        []
        (λ k. bytes)
        (λ k. bytes_fill)
        slots
        rekeyed)
      (project 1 ∷ project 2 ∷ [])
unfolding rekey_access_keys rekey_projects rekey_keys rekey_key project_id_of deserialize_secret2
    open_encoded open_plain unmarshal_field unmarshal_login serialize_secret store_secret encrypt
    plaintext marshal_login but_last text_eq
rekey_access_keys-Rekeyed_example =
    rekey_access_keys-Rekeyed ciphers cipher_laws key_table key_table_laws (text "kA") []
      (λ k. bytes) (λ k. bytes_fill) (project 1 ∷ project 2 ∷ []) slots rekeyed refl
      ((λ e. omega arith, tt), (tt, tt))
      (λ ks e. in_order 1 _ ks refl e, (λ ks e. in_order 2 _ ks refl e, tt)) refl

update_access_key-opens_example :
    (k : AccessKey) × (key_table.get_access_key 1 3
        (ready (update_access_key ciphers key_table (text "kA") bytes login_key slots))
      ≡ ok k)
    × (deserialize_secret2 ciphers (text "kA") k ≡ ok (with_secret_of login_password login_key k))
unfolding update_access_key key_to_write validate_key validate_secret project_id_of serialize_secret
    store_secret encrypt plaintext marshal_login but_last text_eq
update_access_key-opens_example =
    update_access_key-opens ciphers key_table key_table_laws (text "kA") bytes cipher_laws login_key
      slots (ready (update_access_key ciphers key_table (text "kA") bytes login_key slots)) 1
      bytes_fill refl refl refl refl
