-- ===== src/Tasks/Alert.antt =====
-- sendMailAlert, sendTelegramAlert and sendSlackAlert (services/tasks/alert.go): who is told, and
-- what. How a mail is built and posted, and the answer of the chat service, are left out.
use contribute_semaphore.Base.{
  ℕ, Bool, true, false, not, ◌||◌, ◌&&◌, List, [], ◌∷◌, ◌++◌, Option, some, none,
}
use contribute_semaphore.Base.Tests.{if◌then◌else◌}
use contribute_semaphore.Base.Decimal.{itoa}
use contribute_semaphore.Base.Text.{Text, text}
use contribute_semaphore.Model.Status.{success, status_eq}
use contribute_semaphore.Model.Store.{TaskStore, ok, err}
use contribute_semaphore.Model.Task.{Task}
use contribute_semaphore.Tasks.Incoming.{incoming_fuel, get_incoming_version}
use contribute_semaphore.Tasks.World.{
  Ref, World, TaskRunner, Alert, Message, mail_alert, telegram_alert, slack_alert, Outcome, done,
  panic, ◌>>=◌, runner, send,
}

abbrev is_empty : Text → Bool
is_empty [] = true
is_empty (b ∷ s) = false

unfoldable pub chat_id : Text → Option Text → Text
chat_id default none = default
chat_id default (some c) = if is_empty c then default else c

abbrev description : Task → Text
description t = if is_empty t.message then [] else text "- " ++ t.message

module _ {S : Type 0} (db : TaskStore S) where
  -- The loop over the users of the project; a user that cannot be read has no Alert flag.
  unfoldable pub mail_messages : ℕ → List ℕ → S → List Message
  mail_messages task_id [] s = []
  mail_messages task_id (u ∷ us) s =
      let rest = mail_messages task_id us s in
      elim (db.get_user u s) [
        | ok user ↦ if user.alert then mail_alert user.email task_id ∷ rest else rest
        | err e ↦ rest
      ]

  unfoldable pub send_mail_alert : Ref → World S → Outcome (World S)
  unfolding mail_messages
  send_mail_alert r w =
      let t = runner r w in
      if not w.config.email_alert || not t.alert
      then done w
      else done (send (mail_messages t.task.id t.users w.store) w)

  -- A task whose user is gone makes the alert panic.
  unfoldable pub author : Option ℕ → S → Outcome Text
  author none s = done []
  author (some u) s = elim (db.get_user u s) [
    | ok user ↦ done user.name
    | err e ↦ panic (text "cannot read the author")
  ]

  abbrev or_empty : Option (Option Text) → Text
  or_empty (some (some v)) = v
  or_empty (some none) = []
  or_empty none = []

  -- The version that Telegram is told: the task's own, or that of the build it deploys.
  telegram_version : Task → S → Text
  telegram_version t s = elim t.version [
    | some v ↦ v
    | none ↦ elim t.build_task_id [
      | some b ↦ or_empty (get_incoming_version db s incoming_fuel t)
      | none ↦ []
    ]
  ]

  -- What Slack is told instead: the number of the build.
  slack_version : Task → Text
  slack_version t = elim t.version [
    | some v ↦ v
    | none ↦ elim t.build_task_id [ some b ↦ text "build " ++ itoa b | none ↦ [] ]
  ]

  suppressed : TaskRunner → Bool
  suppressed t = t.template.suppress_success_alerts && status_eq t.task.status success

  abbrev alert_of : TaskRunner → Text → Text → Alert
  alert_of t version name = record {
    task_id = t.task.id;
    name = t.template.name;
    task_result = t.task.status;
    task_version = version;
    task_description = description t.task;
    author = name;
  }

  unfoldable pub send_telegram_alert : Ref → World S → Outcome (World S)
  unfolding telegram_version suppressed author chat_id
  send_telegram_alert r w =
      let t = runner r w in
      let chat = chat_id w.config.telegram_chat t.alert_chat in
      if not w.config.telegram_alert || not t.alert || suppressed t || is_empty chat
      then done w
      else (author t.task.user_id w.store >>= λ name.
          done
            (send (telegram_alert chat (alert_of t (telegram_version t.task w.store) name) ∷ []) w))

  unfoldable pub send_slack_alert : Ref → World S → Outcome (World S)
  unfolding slack_version suppressed author
  send_slack_alert r w =
      let t = runner r w in
      if not w.config.slack_alert || not t.alert || suppressed t
      then done w
      else (author t.task.user_id w.store >>= λ name.
          done (send (slack_alert (alert_of t (slack_version t.task) name) ∷ []) w))
