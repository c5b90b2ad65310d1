-- ===== src/Sockets/Delivery.antt =====
-- The hub never uses a closed channel, and a broadcast reaches those it is for (api/sockets/pool.go).
use contribute_semaphore.Base.{
  ℕ, ◌≡◌, refl, sym, ap, subst, ◌∙◌, inl, inr, Bool, true, false, not, ◌&&◌, ◌||◌, List, [], ◌∷◌,
  arith,
}
use contribute_semaphore.Base.Tests.{◌==◌, if◌then◌else◌, ==_iff, ==_self, Bool-cases}
use contribute_semaphore.Base.Lists.{keep}
use contribute_semaphore.Base.Text.{Text}
use contribute_semaphore.Sockets.Hub.{
  Connection, Hub, HubEvent, register, unregister, broadcast, holds, close_send, pushed, shut,
  skips, has_room, send_each, hub_step,
}
use contribute_semaphore.Tasks.World.{Ref, done, ◌>>=◌, update}

-- The connections of a list are different, and their channels are open.
abbrev pub AllOpen : List Ref → (Ref → Connection) → Type 0
AllOpen [] memory = Unit
AllOpen (c ∷ cs) memory = ((memory c).closed ≡ false) × (holds c cs ≡ false) × AllOpen cs memory

-- What a broadcast makes of a connection, and whether the connection stays.
abbrev pub delivered : ℕ → Text → Connection → Connection
delivered user msg c = if skips user c then c else if has_room c then pushed msg c else shut c

abbrev pub stays : ℕ → Connection → Bool
stays user c = skips user c || has_room c

AllOpen-update :
    (cs : List Ref) (memory : Ref → Connection) (c : Ref) (x : Connection)
    → holds c cs ≡ false
    → AllOpen cs memory
    → AllOpen cs (update memory c x)
AllOpen-update [] memory c x n a = tt
AllOpen-update (d ∷ cs) memory c x n (o, u, a) =
    (ground (arith, ==_iff c d, ==_iff d c), u, AllOpen-update cs memory c x (ground arith) a)

pushed_closed : (msg : Text) (c : Connection) → (pushed msg c).closed ≡ c.closed
unfolding pushed
pushed_closed msg c = refl

-- After a broadcast to the connections of a list.
pub record Sent (user : ℕ) (msg : Text) (cs : List Ref) (memory : Ref → Connection) (ds : List Ref)
    (memory' : Ref → Connection) : Type 0 where
  pub all_open : AllOpen ds memory'
  pub inside : (c : Ref) → holds c cs ≡ true → memory' c ≡ delivered user msg (memory c)
  pub outside : (c : Ref) → holds c cs ≡ false → memory' c ≡ memory c
  pub left : (c : Ref) → holds c ds ≡ (holds c cs && stays user (memory c))

module _ (user : ℕ) (msg : Text) (c : Ref) (cs : List Ref) (memory : Ref → Connection)
    (s : skips user (memory c) ≡ false) (o : (memory c).closed ≡ false) where
  send_room :
      has_room (memory c) ≡ true
      → send_each user msg (c ∷ cs) memory ≡ (
          send_each user msg cs (update memory c (pushed msg (memory c))) >>= λ r.
          done (c ∷ r.0, r.1))
  unfolding send_each
  send_room h = ground arith

  send_full :
      has_room (memory c) ≡ false
      → send_each user msg (c ∷ cs) memory
        ≡ send_each user msg cs (update memory c (shut (memory c)))
  unfolding send_each close_send
  send_full h = ground arith

send_each-Sent :
    (user : ℕ) (msg : Text) (cs : List Ref) (memory : Ref → Connection)
    → AllOpen cs memory
    → (r : List Ref × (Ref → Connection)) × (send_each user msg cs memory ≡ done r)
      × Sent user msg cs memory r.0 r.1
unfolding send_each close_send
send_each-Sent user msg [] memory a = (
  ([], memory),
  refl,
  record { all_open = tt; inside = λ c h. absurd (cc); outside = λ c h. refl; left = λ c. refl },
)
send_each-Sent user msg (c ∷ cs) memory (o, u, a) = elim (Bool-cases (skips user (memory c))) [
  | inl s ↦
      let (r, e, h) = send_each-Sent user msg cs memory a in
      (
        (c ∷ r.0, r.1),
        rw (s, send_each) (ap (λ m. m >>= λ r. done (c ∷ r.0, r.1)) e),
        record {
          all_open = (ground (arith, h.outside c u), ground (arith, h.left c), h.all_open);
          inside = λ d k. ground (arith, h.inside d, h.outside d, ==_iff c d);
          outside = λ d k. ground (arith, h.outside d);
          left = λ d. ground (arith, h.left d, ==_iff c d);
        },
      )
  | inr s ↦ elim (Bool-cases (has_room (memory c))) [
    | inl room ↦
        let memory' = update memory c (pushed msg (memory c)) in
        let (r, e, h) = send_each-Sent user msg cs memory' (AllOpen-update cs memory c _ u a) in
        (
          (c ∷ r.0, r.1),
          send_room user msg c cs memory s o room ∙ (ap (λ m. m >>= λ r. done (c ∷ r.0, r.1)) e),
          record {
            all_open = (
              ground (arith, h.outside c u, ==_self c, pushed_closed msg (memory c)),
              ground (arith, h.left c),
              h.all_open,
            );
            inside = λ d k. ground (arith, h.inside d, h.outside d, ==_iff c d);
            outside = λ d k. ground (arith, h.outside d, ==_iff c d);
            left = λ d. ground (arith, h.left d, ==_iff c d);
          },
        )
    | inr full ↦
        let memory' = update memory c (shut (memory c)) in
        let (r, e, h) = send_each-Sent user msg cs memory' (AllOpen-update cs memory c _ u a) in
        (
          r,
          send_full user msg c cs memory s o full ∙ e,
          record {
            all_open = h.all_open;
            inside = λ d k. ground (arith, h.inside d, h.outside d, ==_iff c d);
            outside = λ d k. ground (arith, h.outside d, ==_iff c d);
            left = λ d. ground (arith, h.left d, ==_iff c d);
          },
        )
  ]
]

holds-keep :
    (c e : Ref) (cs : List Ref) → holds e cs ≡ false → holds e (keep (λ d. not (d == c)) cs) ≡ false
holds-keep c e [] h = refl
holds-keep c e (d ∷ cs) h = ground (arith, holds-keep c e cs)

AllOpen-keep :
    (c : Ref) (x : Connection) (cs : List Ref) (memory : Ref → Connection)
    → AllOpen cs memory
    → AllOpen (keep (λ d. not (d == c)) cs) (update memory c x)
AllOpen-keep c x [] memory a = tt
AllOpen-keep c x (d ∷ cs) memory (o, u, a) = elim (Bool-cases (d == c)) [
  | inl e ↦ rw e (AllOpen-keep c x cs memory a)
  | inr e ↦
      rw e
        (ground (arith, ==_iff c d, ==_iff d c), holds-keep c d cs u, AllOpen-keep c x cs memory a)
]

AllOpen-holds :
    (c : Ref) (cs : List Ref) (memory : Ref → Connection)
    → AllOpen cs memory
    → holds c cs ≡ true
    → (memory c).closed ≡ false
AllOpen-holds c [] memory a h = cc
AllOpen-holds c (d ∷ cs) memory (o, u, a) h =
    ground (arith, ==_iff d c, AllOpen-holds c cs memory a)

abbrev pub IsOpen : Hub → Type 0
IsOpen h = AllOpen h.connections h.memory

-- Where the connections of the hub are different and open, a round of its loop never panics on a
-- closed channel and leaves them so, if a connection that is registered is open.
pub hub_step-IsOpen :
    (e : HubEvent) (h : Hub)
    → IsOpen h
    → ((c : Ref) → e ≡ register c → (h.memory c).closed ≡ false)
    → (h' : Hub) × (hub_step e h ≡ done h') × IsOpen h'
unfolding hub_step close_send
hub_step-IsOpen (register c) h a f = elim (Bool-cases (holds c h.connections)) [
  | inl k ↦ (h, rw k refl, a)
  | inr k ↦ (record h { connections = c ∷ h.connections }, rw k refl, (f c refl, k, a))
]
hub_step-IsOpen (unregister c) h a f = elim (Bool-cases (holds c h.connections)) [
  | inl k ↦ (
    record {
      connections = keep (λ d. not (d == c)) h.connections;
      memory = update h.memory c (shut (h.memory c));
    },
    ground (arith, AllOpen-holds c h.connections h.memory a k),
    AllOpen-keep c (shut (h.memory c)) h.connections h.memory a,
  )
  | inr k ↦ (h, rw k refl, a)
]
hub_step-IsOpen (broadcast user msg) h a f =
    let (r, e, s) = send_each-Sent user msg h.connections h.memory a in
    (
      record { connections = r.0; memory = r.1 },
      ap (λ m. m >>= λ r. done (record { connections = r.0; memory = r.1 })) e,
      s.all_open,
    )

-- After a broadcast of a hub whose connections are different and open, each connection that it is
-- for has the message, or is closed and gone when its channel was full; the others are as before,
-- and those that stay are different and open.
pub broadcast-Sent :
    (user : ℕ) (msg : Text) (h h' : Hub)
    → IsOpen h
    → hub_step (broadcast user msg) h ≡ done h'
    → Sent user msg h.connections h.memory h'.connections h'.memory
unfolding hub_step
broadcast-Sent user msg h h' a e =
    let (r, f, s) = send_each-Sent user msg h.connections h.memory a in
    let q : record { connections = r.0; memory = r.1 } ≡ h' =
      done-eq
        (sym (ap (λ m. m >>= λ r. done (record { connections = r.0; memory = r.1 })) f) ∙ e) in
    subst (λ (z : Hub). Sent user msg h.connections h.memory z.connections z.memory) q s
  where
    done-eq : {a b : Hub} → done a ≡ done b → a ≡ b
    done-eq k = ground arith
