-- ===== src/Ui/Event.antt =====
-- `event` of ui/event.cpp. A context is the number of its object, and `none` is the null pointer.
use read_mail_really_fast.Prelude.{ℕ, Bool, true, false, Option}

pub record Event : Type 0 where
  pub event_sender : Option ℕ
  pub handled : Bool

-- the constructor
unfoldable pub event : Option ℕ → Event
event sender = record { event_sender = sender; handled = false }

unfoldable pub get_sender : Event → Option ℕ
get_sender e = e.event_sender

unfoldable pub has_been_handled : Event → Bool
has_been_handled e = e.handled

unfoldable pub set_handled : Event → Event
set_handled e = record e { handled = true }
