-- ===== src/Keys/Cipher.antt =====
-- What db/AccessKey.go asks of encoding/base64, encoding/json, crypto/aes and crypto/cipher, with
-- what it relies on.
use contribute_semaphore.Base.{ℕ, ◌≡◌, ◌≢◌, Bool, true, false, ◌&&◌, [], ◌∷◌}
use contribute_semaphore.Base.Tests.{◌==◌}
use contribute_semaphore.Base.Lists.{length}
use contribute_semaphore.Base.Text.{Text}
use contribute_semaphore.Model.Resources.{LoginPassword, SshKey}
use contribute_semaphore.Model.Store.{Result, ok, Error}

-- What json.Unmarshal comes to: the code tells a *json.SyntaxError from the other errors.
pub data Decoded {ℓ} (A : Type ℓ) : Type ℓ where
  decoded : A → Decoded A
  syntax_error other_error : Error → Decoded A

-- cipher.AEAD: `seal nonce plaintext` is what Seal appends to its first argument.
pub record Gcm : Type 0 where
  pub nonce_size : ℕ
  pub seal : Text → Text → Text
  pub unseal : Text → Text → Result Text

-- `to_valid_utf8` is what JSON keeps of a string; `new_gcm` is aes.NewCipher and cipher.NewGCM on it.
pub record Ciphers : Type 0 where
  pub encode_base64 : Text → Text
  pub decode_base64 : Text → Result Text
  pub valid_utf8 : Text → Bool
  pub to_valid_utf8 : Text → Text
  pub marshal_ssh_key : SshKey → Result Text
  pub unmarshal_ssh_key : Text → Decoded SshKey
  pub marshal_login_password : LoginPassword → Result Text
  pub unmarshal_login_password : Text → Decoded LoginPassword
  pub new_gcm : Text → Result Gcm

-- The last byte is a line feed.
abbrev pub ends_with_newline : Text → Bool
ends_with_newline [] = false
ends_with_newline (c ∷ []) = c == 10
ends_with_newline (c ∷ d ∷ s) = ends_with_newline (d ∷ s)

-- JSON keeps a string that is valid UTF-8.
abbrev pub ssh_key_is_utf8 : Ciphers → SshKey → Bool
ssh_key_is_utf8 c k =
    c.valid_utf8 k.login && (c.valid_utf8 k.passphrase && c.valid_utf8 k.private_key)

abbrev pub login_password_is_utf8 : Ciphers → LoginPassword → Bool
login_password_is_utf8 c k = c.valid_utf8 k.login && c.valid_utf8 k.password

-- Base64 is decoded to what was encoded, is never empty but for the empty text, is valid UTF-8 and
-- has no line feed; JSON keeps what is valid UTF-8; a struct in JSON is not empty and is read back; a nonce opens what it
-- sealed, with a tag that is not empty.
pub record CipherLaws (c : Ciphers) : Type 0 where
  pub decode-encode : (s : Text) → c.decode_base64 (c.encode_base64 s) ≡ ok s
  pub encode-ne-nil : (s : Text) → s ≢ [] → c.encode_base64 s ≢ []
  pub encode-utf8 : (s : Text) → c.valid_utf8 (c.encode_base64 s) ≡ true
  pub to_valid_utf8-valid : (s : Text) → c.valid_utf8 s ≡ true → c.to_valid_utf8 s ≡ s
  pub encode_newline : (s : Text) → ends_with_newline (c.encode_base64 s) ≡ false
  pub marshal_ssh_key-ne-nil : (k : SshKey) (s : Text) → c.marshal_ssh_key k ≡ ok s → s ≢ []
  pub unmarshal-marshal_ssh_key :
      (k : SshKey) (s : Text)
      → ssh_key_is_utf8 c k ≡ true
      → c.marshal_ssh_key k ≡ ok s
      → c.unmarshal_ssh_key s ≡ decoded k
  pub marshal_login_password-ne-nil :
      (k : LoginPassword) (s : Text) → c.marshal_login_password k ≡ ok s → s ≢ []
  pub unmarshal-marshal_login_password :
      (k : LoginPassword) (s : Text)
      → login_password_is_utf8 c k ≡ true
      → c.marshal_login_password k ≡ ok s
      → c.unmarshal_login_password s ≡ decoded k
  pub unseal-seal :
      (key : Text) (g : Gcm) (nonce plaintext : Text)
      → c.new_gcm key ≡ ok g
      → length nonce ≡ g.nonce_size
      → g.unseal nonce (g.seal nonce plaintext) ≡ ok plaintext
  pub seal-ne-nil :
      (key : Text) (g : Gcm) (nonce plaintext : Text)
      → c.new_gcm key ≡ ok g
      → g.seal nonce plaintext ≢ []
