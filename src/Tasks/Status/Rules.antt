-- ===== src/Tasks/Status/Rules.antt =====
-- What SetStatus does to a task, to the database and to those who are told.
use contribute_semaphore.Base.{
  ℕ, ◌≡◌, refl, ◌≢◌, ◌⊎◌, inl, inr, Bool, true, false, not, ◌||◌, List, [], ◌∷◌, ◌++◌, map, arith,
}
use contribute_semaphore.Base.Tests.{if◌then◌else◌, ==_self, Bool-cases}
use mathlib.Core.List.{append-nil, append_assoc}
use contribute_semaphore.Base.Text.{Text}
use contribute_semaphore.Model.Status.{
  TaskStatus, waiting, starting, running, stopping, stopped, success, fail, other, status_eq,
  status_eq_self,
}
use contribute_semaphore.Model.Store.{TaskStore, Result, ok, err}
use contribute_semaphore.Tasks.Alert.{
  send_mail_alert, send_telegram_alert, send_slack_alert, mail_messages,
}
use contribute_semaphore.Tasks.Status.{refused, mark, alerts, save_status, set_status}
use contribute_semaphore.Tasks.World.{
  Ref, World, TaskRunner, Message, update_message, Outcome, done, panic, ◌>>=◌, >>=-eq-done,
  set_runner, send, update,
}

-- The diagram of the statuses as SetStatus draws it: `stopped` has no way out, `running` none back to
-- `waiting`, `stopping` none back to `waiting` or `running`, and all else is allowed.
pub data ◌⟶◌ (s : TaskStatus) (t : TaskStatus) : Type 0 where
  stay : s ≡ t → s ⟶ t
  free : s ≢ running → s ≢ stopping → s ≢ stopped → s ⟶ t
  from_running : s ≡ running → t ≢ waiting → s ⟶ t
  from_stopping : s ≡ stopping → t ≢ waiting → t ≢ running → s ⟶ t

infix 40 ◌⟶◌
pub not_refused-⟶ : (s t : TaskStatus) → refused s t ≡ false → s ⟶ t
unfolding refused
not_refused-⟶ running t h = from_running refl (ground arith)
not_refused-⟶ stopping t h = from_stopping refl (ground arith) (ground arith)
not_refused-⟶ stopped t h = cc
not_refused-⟶ waiting t h = free (λ e. cc) (λ e. cc) (λ e. cc)
not_refused-⟶ starting t h = free (λ e. cc) (λ e. cc) (λ e. cc)
not_refused-⟶ success t h = free (λ e. cc) (λ e. cc) (λ e. cc)
not_refused-⟶ fail t h = free (λ e. cc) (λ e. cc) (λ e. cc)
not_refused-⟶ (other x) t h = free (λ e. cc) (λ e. cc) (λ e. cc)

pub ⟶-not_refused : (s t : TaskStatus) → s ≢ t → s ⟶ t → refused s t ≡ false
unfolding refused
⟶-not_refused s t n (stay e) = absurd (n e)
⟶-not_refused s t n (free a b c) = ground arith
⟶-not_refused s t n (from_running e h) = ground arith
⟶-not_refused s t n (from_stopping e h k) = ground arith

-- One world is the other with more messages sent.
abbrev pub OnlySends : {S : Type 0} → World S → World S → Type 0
OnlySends w v = (ms : List Message) × (v ≡ send ms w)

module _ {S : Type 0} where
  OnlySends-refl : (w : World S) → OnlySends w w
  OnlySends-refl w = ([], ground (arith, append-nil w.outbox))

  OnlySends-trans : (u v w : World S) → OnlySends u v → OnlySends v w → OnlySends u w
  OnlySends-trans u v w (ms, e) (ns, f) = (ms ++ ns, ground (arith, append_assoc u.outbox ms ns))

module _ {S : Type 0} (db : TaskStore S) where
  mail-OnlySends : (r : Ref) (w v : World S) → send_mail_alert db r w ≡ done v → OnlySends w v
  unfolding send_mail_alert
  mail-OnlySends r w v h = elim (Bool-cases (not w.config.email_alert || not (w.runners r).alert)) [
    | inl off ↦ ([], ground (arith, append-nil w.outbox))
    | inr on ↦ (mail_messages db (w.runners r).task.id (w.runners r).users w.store, ground arith)
  ]

  if-OnlySends :
      (b : Bool) (m : Outcome Text) (f : Text → Message) (w v : World S)
      → (if b then done w else (m >>= λ x. done (send (f x ∷ []) w))) ≡ done v
      → OnlySends w v
  if-OnlySends true m f w v h = ([], ground (arith, append-nil w.outbox))
  if-OnlySends false (panic x) f w v h = absurd (cc)
  if-OnlySends false (done x) f w v h = (f x ∷ [], cc)

  telegram-OnlySends :
      (r : Ref) (w v : World S) → send_telegram_alert db r w ≡ done v → OnlySends w v
  unfolding send_telegram_alert
  telegram-OnlySends r w v h = if-OnlySends _ _ _ w v h

  slack-OnlySends : (r : Ref) (w v : World S) → send_slack_alert db r w ≡ done v → OnlySends w v
  unfolding send_slack_alert
  slack-OnlySends r w v h = if-OnlySends _ _ _ w v h

  chat-OnlySends :
      (b : Bool) (r : Ref) (w v : World S)
      → (if b then send_telegram_alert db r w >>= send_slack_alert db r else done w) ≡ done v
      → OnlySends w v
  chat-OnlySends false r w v h = ([], ground (arith, append-nil w.outbox))
  chat-OnlySends true r w v h =
      >>=-eq-done (OnlySends w v) (send_telegram_alert db r w) (send_slack_alert db r)
        (λ u p q. OnlySends-trans w u v (telegram-OnlySends r w u p) (slack-OnlySends r u v q)) h

  if-mail-OnlySends :
      (b : Bool) (r : Ref) (w v : World S)
      → (if b then send_mail_alert db r w else done w) ≡ done v
      → OnlySends w v
  if-mail-OnlySends false r w v h = ([], ground (arith, append-nil w.outbox))
  if-mail-OnlySends true r w v h = mail-OnlySends r w v h

  -- The alerts do nothing but send.
  pub alerts-OnlySends :
      (now : ℕ) (r : Ref) (new : TaskStatus) (w v : World S)
      → alerts db now r new w ≡ done v
      → OnlySends w v
  unfolding alerts
  alerts-OnlySends now r new w v h =
      >>=-eq-done (OnlySends w v) (if status_eq new fail then send_mail_alert db r w else done w) _
        (λ u p q.
          OnlySends-trans w u v (if-mail-OnlySends (status_eq new fail) r w u p)
            (chat-OnlySends (status_eq new success || status_eq new fail) r u v q))
        h

  abbrev pub news : TaskRunner → List Message
  news t = map (λ u. update_message u t.task) t.users

  -- A call that changed the task: the diagram allows it, the task is written to the database, each
  -- user of the project is told, and nothing else of the state changes but for alerts sent after.
  pub record Changed (now : ℕ) (r : Ref) (new : TaskStatus) (w v : World S) : Type 0 where
    pub stored : S
    pub alerts_sent : List Message
    pub moved : (w.runners r).task.status ≢ new
    pub allowed : (w.runners r).task.status ⟶ new
    pub saved : db.update_task (mark now new (w.runners r)).task w.store ≡ ok stored
    pub result : v ≡ record w {
      runners = update w.runners r (mark now new (w.runners r));
      store = stored;
      outbox = (w.outbox ++ news (mark now new (w.runners r))) ++ alerts_sent;
    }

  pub save_status-saved :
      (now : ℕ) (r : Ref) (w v : World S)
      → save_status db now r w ≡ done v
      → (s : S) × (db.update_task (w.runners r).task w.store ≡ ok s)
        × (v ≡ record w { outbox = w.outbox ++ news (w.runners r); store = s })
  unfolding save_status
  save_status-saved now r w v h = go (db.update_task (w.runners r).task w.store) refl
    where
      go :
          (x : Result S)
          → db.update_task (w.runners r).task w.store ≡ x
          → (s : S) × (db.update_task (w.runners r).task w.store ≡ ok s)
            × (v ≡ record w { outbox = w.outbox ++ news (w.runners r); store = s })
      go (ok s) e = (s, e, ground arith)
      go (err x) e = absurd (ground arith)

  pub save_status-Changed :
      (now : ℕ) (r : Ref) (new : TaskStatus) (w u v : World S)
      → status_eq new (w.runners r).task.status ≡ false
      → refused (w.runners r).task.status new ≡ false
      → save_status db now r (set_runner r (mark now new (w.runners r)) w) ≡ done u
      → alerts db now r new u ≡ done v
      → Changed now r new w v
  save_status-Changed now r new w u v p q e f =
      let sv = save_status-saved now r (set_runner r (mark now new (w.runners r)) w) u e in
      let al = alerts-OnlySends now r new u v f in
      record {
        stored = sv.0;
        alerts_sent = al.0;
        moved = λ x. ground (arith, status_eq_self new);
        allowed = not_refused-⟶ (w.runners r).task.status new q;
        saved = ground (arith, sv.1, ==_self r);
        result = ground (arith, sv.2, al.1, ==_self r);
      }

  -- A call of SetStatus that returns either changes nothing, or was allowed by the diagram of the
  -- statuses, wrote the task with its new status to the database, told each user of the project,
  -- and changed nothing else but for alerts that it sent.
  pub set_status-Changed :
      (now : ℕ) (r : Ref) (new : TaskStatus) (w v : World S)
      → set_status db now r new w ≡ done v
      → (v ≡ w) ⊎ Changed now r new w v
  unfolding set_status
  set_status-Changed now r new w v h = go (status_eq new old) (refused old new) refl refl
    where
      old : TaskStatus
      old = (w.runners r).task.status

      go :
          (a b : Bool)
          → status_eq new old ≡ a
          → refused old new ≡ b
          → (v ≡ w) ⊎ Changed now r new w v
      go true b p q = inl (ground arith)
      go false true p q = inl (ground arith)
      go false false p q =
          >>=-eq-done ((v ≡ w) ⊎ Changed now r new w v)
            (save_status db now r (set_runner r (mark now new (w.runners r)) w))
            (alerts db now r new) {b = v}
            (λ u e f. inr (save_status-Changed now r new w u v p q e f)) (ground arith)
