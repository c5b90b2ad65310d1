-- ===== src/Model/Status.antt =====
-- lib/Logger.go: the status of a task, a string type. `other` is a string that is none of the
-- seven constants, such as the empty one that a fresh struct holds.
use contribute_semaphore.Base.{◌≡◌, refl, Bool, true, false, ◌||◌, arith}
use contribute_semaphore.Base.Text.{Text, text, text_eq, text_eq_self, eq_of_text_eq}

pub data TaskStatus : Type 0 where
  waiting starting running stopping stopped success fail : TaskStatus
  other : Text → TaskStatus

-- Equality of two statuses, which Go takes on the strings.
abbrev pub status_eq : TaskStatus → TaskStatus → Bool
status_eq waiting waiting = true
status_eq starting starting = true
status_eq running running = true
status_eq stopping stopping = true
status_eq stopped stopped = true
status_eq success success = true
status_eq fail fail = true
status_eq (other s) (other t) = text_eq s t
status_eq _ _ = false

abbrev pub status_text : TaskStatus → Text
status_text waiting = text "waiting"
status_text starting = text "starting"
status_text running = text "running"
status_text stopping = text "stopping"
status_text stopped = text "stopped"
status_text success = text "success"
status_text fail = text "error"
status_text (other s) = s

unfoldable pub is_finished : TaskStatus → Bool
is_finished s = status_eq s stopped || status_eq s success || status_eq s fail

pub status_eq_self : (s : TaskStatus) → status_eq s s ≡ true
status_eq_self (other s) = text_eq_self s
status_eq_self waiting = refl
status_eq_self _ = refl

pub eq_of_status_eq : (s t : TaskStatus) → status_eq s t ≡ true → s ≡ t
eq_of_status_eq (other s) (other t) h = ground (arith, eq_of_text_eq s t)
eq_of_status_eq waiting t h = ground arith
eq_of_status_eq s t h = ground arith
