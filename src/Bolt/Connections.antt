-- ===== src/Bolt/Connections.antt =====
-- Connect and Close (db/bolt/BoltDb.go), StoreSession (db/Store.go): the file is open while a token
-- holds a connection.
use contribute_semaphore.Base.{◌≡◌, refl, ap, ◌∙◌, Bool, true, false, not, List, [], ◌∷◌, arith}
use contribute_semaphore.Base.Tests.{ltb, if◌then◌else◌}
use contribute_semaphore.Base.Lists.{length, any, keep}
use contribute_semaphore.Base.Text.{Text, text, text_eq, text_eq_self}
use contribute_semaphore.Tasks.World.{Outcome, done, panic, ◌>>=◌}

-- The map of connections as the list of its keys; `file_open` is `d.db != nil`.
pub record BoltDb : Type 0 where
  pub connections : List Text
  pub file_open : Bool

abbrev pub exists : Text → BoltDb → Bool
exists token d = any (λ t. text_eq t token) d.connections

abbrev pub is_none {ℓ} : {A : Type ℓ} → List A → Bool
is_none [] = true
is_none (t ∷ ts) = false

-- `opened` says whether the name of the file is known and bbolt.Open succeeds, `closed` whether its
-- Close does.
unfoldable pub connect : Bool → Text → BoltDb → Outcome BoltDb
connect opened token d =
    if exists token d
    then panic (text "Connection already exists")
    else if is_none d.connections
    then (if opened
        then done (record { connections = token ∷ d.connections; file_open = true })
        else panic (text "cannot open the file"))
    else done (record d { connections = token ∷ d.connections })

unfoldable pub close : Bool → Text → BoltDb → Outcome BoltDb
close closed token d =
    let rest = keep (λ t. not (text_eq t token)) d.connections in
    if exists token d
    then (if ltb 1 (length d.connections)
        then done (record d { connections = rest })
        else if closed
        then done (record { connections = rest; file_open = false })
        else panic (text "cannot close the file"))
    else panic (text "can not close closed connection")

-- The callback runs between the two, unless the connection is permanent.
unfoldable pub store_session :
    Bool → Bool → Bool → Text → (BoltDb → Outcome BoltDb) → BoltDb → Outcome BoltDb
unfolding connect close
store_session permanent opened closed token callback d =
    if permanent then callback d else connect opened token d >>= callback >>= close closed token

-- The file is open just while a token is held.
abbrev pub IsConnected : BoltDb → Type 0
IsConnected d = d.file_open ≡ not (is_none d.connections)

keep_all :
    (token : Text) (ts : List Text)
    → any (λ t. text_eq t token) ts ≡ false
    → keep (λ t. not (text_eq t token)) ts ≡ ts
keep_all token [] h = refl
keep_all token (t ∷ ts) h = ground (arith, keep_all token ts)

session :
    (ts : List Text) (f : Bool) (token : Text)
    → IsConnected (record { connections = ts; file_open = f })
    → any (λ t. text_eq t token) ts ≡ false
    → (connect true token (record { connections = ts; file_open = f }) >>= close true token)
      ≡ done (record { connections = ts; file_open = f })
unfolding connect close
session [] f token h n = ground (arith, h, text_eq_self token)
session (t ∷ ts) f token h n = ground (arith, h, text_eq_self token, keep_all token (t ∷ ts))

-- Where the file is open just while a token is held, a session under a token that is not held,
-- whose callback leaves the connections alone and whose opening and closing succeed, ends as it
-- began.
pub store_session_restores :
    (token : Text) (callback : BoltDb → Outcome BoltDb) (d : BoltDb)
    → IsConnected d
    → exists token d ≡ false
    → ((c : BoltDb) → callback c ≡ done c)
    → store_session false true true token callback d ≡ done d
unfolding store_session
store_session_restores token callback d h n k =
    ap (λ m. m >>= close true token) (idle (connect true token d))
    ∙ session d.connections d.file_open token h n
  where
    idle : (m : Outcome BoltDb) → (m >>= callback) ≡ m
    idle (panic m) = refl
    idle (done c) = k c
