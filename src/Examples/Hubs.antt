-- ===== src/Examples/Hubs.antt =====
-- The theorems on the hub, for two connections of one user, the second of them slow, and one of
-- another user.
use contribute_semaphore.Base.{ℕ, zero, suc, refl, false, List, [], ◌∷◌}
use contribute_semaphore.Base.Tests.{◌==◌, if◌then◌else◌}
use contribute_semaphore.Base.Text.{Text, text}
use contribute_semaphore.Sockets.Delivery.{IsOpen, Sent, broadcast-Sent}
use contribute_semaphore.Sockets.Hub.{Connection, Hub, broadcast, send_each, close_send, hub_step}
use contribute_semaphore.Tasks.World.{Ref, Outcome, done, panic}

repeated : ℕ → List Text
repeated zero = []
repeated (suc n) = text "line" ∷ repeated n

abbrev connection : ℕ → List Text → Connection
connection user buffer = record { user_id = user; buffer = buffer; closed = false }

abbrev memory : Ref → Connection
memory c =
    if c == 0
    then connection 1 []
    else if c == 1
    then connection 1 (repeated 256)
    else connection 2 []

abbrev hub : Hub
hub = record { connections = 0 ∷ 1 ∷ 2 ∷ []; memory = memory }

opened : IsOpen hub
opened = (refl, refl, (refl, refl, (refl, refl, tt)))

abbrev after : Outcome Hub → Hub
after (done h) = h
after (panic m) = hub

broadcast-Sent_example :
    Sent 1
      (text "done")
      (0 ∷ 1 ∷ 2 ∷ [])
      memory
      (after (hub_step (broadcast 1 (text "done")) hub)).connections
      (after (hub_step (broadcast 1 (text "done")) hub)).memory
unfolding hub_step send_each close_send repeated
broadcast-Sent_example =
    broadcast-Sent 1 (text "done") hub (after (hub_step (broadcast 1 (text "done")) hub)) opened
      refl
