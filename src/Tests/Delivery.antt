-- ===== src/Tests/Delivery.antt =====
-- Scheduled messages and notifications.
use hanmir_talk.Prelude.{◌+◌, ◌≡◌, refl, true, false, none, List, [], ◌∷◌, All, Ident, lookup}
use hanmir_talk.Tests.{sample_text, sample_user}
use hanmir_talk.User.{team_member}
use hanmir_talk.Room.{group}
use hanmir_talk.Schedule.{
  Scheduled, Schedule, World, create_scheduled, list_due, poll_item, poll_once,
}
use hanmir_talk.Schedule.Delivery.{
  Step, Reach, IsDelivered, KeepsText, open_at, poll_once-Settles, Reach-IsDelivered,
}
use hanmir_talk.Notification.{Notification}

abbrev scheduled : Scheduled
scheduled = record {
  id = 11;
  room_id = 3;
  user_id = 1;
  content = "hello";
  attachment_id = none;
  scheduled_at = 50;
  sent_at = none;
  cancelled_at = none;
  error = none;
  created_at = 10;
}

abbrev world : Schedule → World
world rows = record {
  schedule = rows;
  users = sample_user 1 team_member ∷ [];
  files = [];
  rooms = record {
    rooms =
        record {
          id = 3;
          name = "Team";
          type = group;
          description = none;
          project_id = none;
          members = record { user_id = 1; is_owner = true } ∷ [];
        }
        ∷ [];
    muted = [];
    pinned = [];
    hidden = [];
  };
  messages = record { rooms = []; last_read = []; pinned = [] };
  emitted = [];
  rejoined = [];
}

sample_text-KeepsText : KeepsText sample_text
sample_text-KeepsText s h = h

poll_once-Settles_example :
    All
      (λ item.
        open_at item.id
          (poll_once sample_text (λ id. id + 100) 60 (world ((11, scheduled) ∷ []))).schedule
        ≡ false)
      (list_due 60 ((11, scheduled) ∷ []))
poll_once-Settles_example =
    poll_once-Settles sample_text (λ id. id + 100) 60 (world ((11, scheduled) ∷ []))
      sample_text-KeepsText

nothing-IsDelivered : IsDelivered (world [])
unfolding lookup
nothing-IsDelivered k = refl

-- A message is scheduled and the poller comes twice with the same item.
Reach-IsDelivered_example : IsDelivered (
    poll_item sample_text 112 70 scheduled (
      poll_item sample_text 111 60 scheduled
        (world (create_scheduled 11 10 3 "hello" 50 none 1 []).0)))
unfolding lookup
Reach-IsDelivered_example =
    Reach-IsDelivered (world []) _
      (Reach.step
        (Reach.step (Reach.step Reach.start (Step.creates 11 10 3 "hello" 50 none 1 refl))
          (Step.polls sample_text 111 60 scheduled))
        (Step.polls sample_text 112 70 scheduled))
      nothing-IsDelivered

abbrev notification : Ident → Ident → Notification
notification id user = record {
  id = id;
  user_id = user;
  kind = "mention";
  title = "Kim";
  body = none;
  link = none;
  read_at = none;
  created_at = 10;
}

abbrev inbox : List Notification
inbox = notification 1 5 ∷ notification 2 6 ∷ notification 3 5 ∷ []
