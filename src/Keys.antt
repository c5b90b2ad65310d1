-- ===== src/Keys.antt =====
-- Access keys and their secrets: db/AccessKey.go and db/bolt/access_key.go.
pub mod Cipher
pub mod Secret
pub mod Table
pub mod Stored
pub mod RoundTrip
pub mod SameKey
pub mod Rekey
pub mod Update
pub mod Install
