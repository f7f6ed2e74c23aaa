-- ===== src/Tests/Talk.antt =====
-- Reactions, notices and decisions: one message with reactions, one notice for two users.
use hanmir_talk.Prelude.{
  none, List, ◌≡◌, refl, true, false, some, [], ◌∷◌, map, arith, option_map, Ident, lookup,
}
use Prim.Native.String.{String}
use hanmir_talk.Reaction.{Reactions, list_for_message, list_detail_for_message}
use hanmir_talk.Reaction.Chips.{chip_of, list_for_message-details}
use hanmir_talk.Decision.{
  DecisionRow, Decision, Decisions, Accessors, DecisionInput, deleted_text, find_decision,
  soft_delete_decision,
}
use hanmir_talk.Decision.Deleting.{
  DecisionOp, creates, deletes, confirms, run_decisions, soft_delete_decision-final,
}
use hanmir_talk.Notice.{Notices, mark_confirmed}
use hanmir_talk.Notice.Confirming.{IsCounted, mark_confirmed-IsCounted}

-- User 1 reacted twice and user 2 once.
abbrev rows : Reactions
rows = (20, (1, 31 ∷ 32 ∷ []) ∷ (2, 32 ∷ []) ∷ []) ∷ []

abbrev name_of : Ident → String
name_of id = "Kim"

list_for_message-details_example :
    list_for_message 20 (some 2) rows
    ≡ map (chip_of (some 2)) (list_detail_for_message name_of 20 rows)
list_for_message-details_example = list_for_message-details 20 (some 2) name_of rows

-- User 1 has confirmed the notice and user 2 has not.
abbrev board : Notices
board = record {
  data_ =
      record {
        id = 7;
        title = "Move";
        body = "Monday";
        author_team = "Office";
        created_at = 5;
        is_mandatory = true;
        total_recipients = 2;
        confirmed_count = 1;
        my_confirmed = false;
      }
      ∷ [];
  confirmations = (1, (7, 6) ∷ []) ∷ [];
}

mark_confirmed-IsCounted_example :
    IsCounted (mark_confirmed 8 7 2 board).0
    × ((mark_confirmed 9 7 2 (mark_confirmed 8 7 2 board).0).0 ≡ (mark_confirmed 8 7 2 board).0)
unfolding lookup
mark_confirmed-IsCounted_example = mark_confirmed-IsCounted 8 9 7 2 board (tt, tt) (refl, tt)

abbrev decided : DecisionRow
decided = record {
  id = 4;
  project_id = 2;
  title = "Colour";
  content = "Blue";
  decided_by_id = 1;
  decision_date = 20;
  source_message_id = some 20;
  source_room_id = some 3;
  created_at = 5;
  updated_at = 5;
  is_deleted = false;
}

-- User 1 has confirmed the decision.
abbrev decisions : Decisions
decisions = record { rows = decided ∷ []; confirmations = (1, (4, 6) ∷ []) ∷ [] }

abbrev nobody : Accessors
nobody = record { users = []; message_room = λ m. none }

abbrev another : DecisionInput
another = record {
  title = "Shape";
  content = "Round";
  decision_date = none;
  source_message_id = none;
}

-- Another decision is made, and user 2 tries to confirm the deleted one.
abbrev calls : List DecisionOp
calls = creates 5 9 20 2 another 1 ∷ confirms 10 4 2 ∷ confirms 11 5 2 ∷ deletes 12 4 ∷ []

soft_delete_decision-final_example :
    ((soft_delete_decision 8 4 decisions).1 ≡ true)
    × (find_decision nobody 4
          (some 1)
          (run_decisions nobody calls (soft_delete_decision 8 4 decisions).0)
        ≡ find_decision nobody 4 (some 1) (soft_delete_decision 8 4 decisions).0)
    × (option_map
          (λ (v : Decision). v.title)
          (find_decision nobody 4 (some 1) (soft_delete_decision 8 4 decisions).0)
        ≡ some deleted_text)
    × (option_map
          (λ (v : Decision). v.content)
          (find_decision nobody 4 (some 1) (soft_delete_decision 8 4 decisions).0)
        ≡ some deleted_text)
soft_delete_decision-final_example =
    soft_delete_decision-final nobody 8 4 decided calls (some 1) decisions refl
      ((λ e. absurd (ground arith)), (tt, (tt, (tt, tt))))
