-- ===== src/Sockets/Hub.antt =====
-- The hub that broadcasts messages to the web sockets (api/sockets/pool.go): a connection is a
-- reference to its channel `send`, which holds up to 256 messages (api/sockets/handler.go).
use contribute_semaphore.Base.{ℕ, Bool, true, not, ◌&&◌, List, [], ◌∷◌, ◌++◌}
use contribute_semaphore.Base.Tests.{ltb, ◌==◌, if◌then◌else◌}
use contribute_semaphore.Base.Lists.{any, keep, length}
use contribute_semaphore.Base.Text.{Text, text}
use contribute_semaphore.Tasks.World.{Ref, Outcome, done, panic, ◌>>=◌, update}

pub record Connection : Type 0 where
  pub user_id : ℕ
  pub buffer : List Text
  pub closed : Bool

abbrev pub capacity : ℕ
capacity = 256

-- The keys of the map of connections, in the order of a loop, and the connections themselves.
pub record Hub : Type 0 where
  pub connections : List Ref
  pub memory : Ref → Connection

pub data HubEvent : Type 0 where
  register unregister : Ref → HubEvent
  broadcast : ℕ → Text → HubEvent

abbrev pub holds : Ref → List Ref → Bool
holds c cs = any (λ d. d == c) cs

unfoldable pub pushed : Text → Connection → Connection
pushed msg c = record c { buffer = c.buffer ++ msg ∷ [] }

unfoldable pub shut : Connection → Connection
shut c = record c { closed = true }

-- close(c.send), which panics on a closed channel.
unfoldable pub close_send : Ref → (Ref → Connection) → Outcome (Ref → Connection)
close_send c memory =
    if (memory c).closed
    then panic (text "close of closed channel")
    else done (update memory c (shut (memory c)))

-- The message is not for this connection.
abbrev pub skips : ℕ → Connection → Bool
skips user c = ltb 0 user && not (user == c.user_id)

abbrev pub has_room : Connection → Bool
has_room c = ltb (length c.buffer) capacity

-- The loop over the connections: those that stay, and all of them. A send that would wait closes
-- the connection; one on a closed channel panics.
unfoldable pub send_each :
    ℕ → Text → List Ref → (Ref → Connection) → Outcome (List Ref × (Ref → Connection))
unfolding close_send
send_each user msg [] memory = done ([], memory)
send_each user msg (c ∷ cs) memory =
    if skips user (memory c)
    then (send_each user msg cs memory >>= λ r. done (c ∷ r.0, r.1))
    else if (memory c).closed
    then panic (text "send on closed channel")
    else if has_room (memory c)
    then (send_each user msg cs (update memory c (pushed msg (memory c))) >>= λ r.
        done (c ∷ r.0, r.1))
    else (close_send c memory >>= send_each user msg cs)

-- One round of the loop of run.
unfoldable pub hub_step : HubEvent → Hub → Outcome Hub
unfolding send_each
hub_step (register c) h =
    done (if holds c h.connections then h else record h { connections = c ∷ h.connections })
hub_step (unregister c) h =
    if holds c h.connections
    then (close_send c h.memory >>= λ memory.
        done (record { connections = keep (λ d. not (d == c)) h.connections; memory = memory }))
    else done h
hub_step (broadcast user msg) h = send_each user msg h.connections h.memory >>= λ r.
    done (record { connections = r.0; memory = r.1 })
