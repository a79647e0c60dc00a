-- ===== src/Wire/Session/Events.antt =====
-- What `next_event` of lib.drift does to a statement and its session.
use drift_mariadb_client.Base.{ℕ, ◌≡◌, refl, Bool, false, List, Text, Bytes, Outcome}
use drift_mariadb_client.Base.{returned, raised, leb, if◌then◌else◌, length}
use drift_mariadb_client.Wire.{Decoded, ResultSetCell, Utf8Error, read_u16le}
use drift_mariadb_client.Wire.ResultSet.{is_eof_terminator_packet, decode_text_row}
use drift_mariadb_client.Wire.Transport.{◌then_run◌}
use drift_mariadb_client.Wire.Session.{apply_status, mark_dead}
use drift_mariadb_client.Base.{if_either, if_false}
use drift_mariadb_client.Wire.Session.Statement.{
  Mode, mode_pending_ok, mode_pending_err, mode_resultset, mode_need_next_first, mode_done,
  Statement, StatementEvent, row, result_set_end, statement_end, statement_err, Stepped,
  read_packet, set_statement_terminal, or_kill, next_first, read_definitions, read_terminator,
  end_result_set, read_row, in_mode, rounds, next_event,
}
use drift_mariadb_client.Wire.Session.Open.{
  IsOpen, IsFinished, IsDead, After, same_session, started, read_packet-After, next_first-After,
  read_definitions-After, read_terminator-After,
}

module _ (r : Bool) (n : ℕ) where
  module _ (utf8_from_bytes : Bytes → Outcome Utf8Error Text) where
    end_result_set-IsOpen :
        (d : ℕ) (st : Statement) (payload : Bytes)
        → IsOpen r n d st
        → IsOpen r n d (end_result_set utf8_from_bytes st payload)
    unfolding end_result_set apply_status
    end_result_set-IsOpen d st payload h =
        if_either (IsOpen r n d) _ _ _ (same_session r n refl refl applied)
          (same_session r n refl refl applied)
      where
        full : Bool
        full = leb 5 (length payload)

        applied : IsOpen r n d (record st {
          session =
              apply_status st.session
                (if full then read_u16le payload 3 else 0)
                (if full then read_u16le payload 1 else 0);
        })
        applied = record {
          going_on = h.going_on;
          still_open = h.still_open;
          in_use = h.in_use;
          same_reusable = h.same_reusable;
          bounded = h.bounded;
        }

    -- What an event leaves: a row and the end of a result were read, others are the last.
    abbrev Left : Stepped StatementEvent → Type 0
    Left (returned (row _), st) = IsOpen r n 4 st
    Left (returned result_set_end, st) = IsOpen r n 4 st
    Left (returned (statement_end _), st) = IsFinished r st
    Left (returned (statement_err _), st) = IsFinished r st
    Left (raised _, st) = IsOpen r n 0 st

    then_run-Left {ℓ} :
        {A : Type ℓ} (m : Decoded A × Statement) (k : A → Statement → Stepped StatementEvent)
        → After r n 0 m
        → ((a : A) (st : Statement) → IsOpen r n 0 st → Left (k a st))
        → Left (m then_run k)
    then_run-Left (returned a, st) k h step = step a st h
    then_run-Left (raised e, st) k h step = h

    row-Left :
        (m : Decoded (List ResultSetCell)) (st : Statement)
        → IsOpen r n 4 st
        → Left ((m, st) then_run λ cells st'. (returned (row cells), st'))
    row-Left (returned cells) st h = h
    row-Left (raised e) st h = started r n 4 st h

    packet-Left :
        (m : Stepped Bytes)
        → After r n 4 m
        → Left (
            m then_run λ payload st.
            if is_eof_terminator_packet payload
            then (returned result_set_end, end_result_set utf8_from_bytes st payload)
            else ((decode_text_row payload st.column_count, st) then_run λ cells st'.
                (returned (row cells), st')))
    packet-Left (returned payload, st) h =
        if_either Left (is_eof_terminator_packet payload) _ _ (end_result_set-IsOpen 4 st payload h)
          (row-Left (decode_text_row payload st.column_count) st h)
    packet-Left (raised e, st) h = h

    read_row-Left : (st : Statement) → IsOpen r n 0 st → Left (read_row utf8_from_bytes st)
    unfolding read_row
    read_row-Left st h = packet-Left (read_packet st) (read_packet-After r n st h)

    in_mode-Left :
        (m : Mode) (st : Statement) → IsOpen r n 0 st → Left (in_mode utf8_from_bytes m st)
    unfolding in_mode set_statement_terminal apply_status
    in_mode-Left mode_pending_ok st h = record {
      is_through = refl;
      still_open = h.still_open;
      is_free = refl;
      same_reusable = h.same_reusable;
    }
    in_mode-Left mode_pending_err st h = record {
      is_through = refl;
      still_open = h.still_open;
      is_free = refl;
      same_reusable = h.same_reusable;
    }
    in_mode-Left mode_resultset st h =
        then_run-Left (read_definitions utf8_from_bytes st.column_defs_remaining st) _
          (read_definitions-After r n utf8_from_bytes st.column_defs_remaining st h)
          (λ _ s hs.
            then_run-Left (read_terminator utf8_from_bytes s) _
              (read_terminator-After r n utf8_from_bytes s hs) (λ _ s' h'. read_row-Left s' h'))
    in_mode-Left mode_need_next_first st h = h
    in_mode-Left mode_done st h = h

    rounds-Left : (m : Mode) (st : Statement) → IsOpen r n 0 st → Left (rounds utf8_from_bytes m st)
    unfolding rounds
    rounds-Left mode_need_next_first st h =
        then_run-Left (next_first utf8_from_bytes st) _ (next_first-After r n utf8_from_bytes st h)
          (λ _ s hs. in_mode-Left s.mode s hs)
    rounds-Left mode_pending_ok st h = in_mode-Left mode_pending_ok st h
    rounds-Left mode_pending_err st h = in_mode-Left mode_pending_err st h
    rounds-Left mode_resultset st h = in_mode-Left mode_resultset st h
    rounds-Left mode_done st h = in_mode-Left mode_done st h

-- What `next_event` leaves of an open statement, `n` bytes before the end of its stream.
abbrev pub Leaves : Bool → ℕ → Stepped StatementEvent → Type 0
Leaves r n (returned (row _), st) = IsOpen r n 4 st
Leaves r n (returned result_set_end, st) = IsOpen r n 4 st
Leaves r n (returned (statement_end _), st) = IsFinished r st
Leaves r n (returned (statement_err _), st) = IsFinished r st
Leaves r n (raised _, st) = (st.consumed_terminal ≡ false) × IsDead st.session

or_kill-Leaves :
    (utf8_from_bytes : Bytes → Outcome Utf8Error Text) (r : Bool) (n : ℕ)
    (m : Stepped StatementEvent)
    → Left r n utf8_from_bytes m
    → Leaves r n (or_kill m)
unfolding mark_dead
or_kill-Leaves u r n (returned (row _), st) h = h
or_kill-Leaves u r n (returned result_set_end, st) h = h
or_kill-Leaves u r n (returned (statement_end _), st) h = h
or_kill-Leaves u r n (returned (statement_err _), st) h = h
or_kill-Leaves u r n (raised e, st) h = (h.going_on, record { is_shut = refl; is_spent = refl })

pub next_event-Leaves :
    (utf8_from_bytes : Bytes → Outcome Utf8Error Text) (r : Bool) (n : ℕ) (st : Statement)
    → IsOpen r n 0 st
    → Leaves r n (next_event utf8_from_bytes st)
unfolding next_event
next_event-Leaves u r n st h = if_false (Leaves r n) st.consumed_terminal _ _ h.going_on (
    if_false (Leaves r n) st.session.is_closed _ _ h.still_open
      (or_kill-Leaves u r n (rounds u st.mode st) (rounds-Left r n u st.mode st h)))
