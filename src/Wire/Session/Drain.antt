-- ===== src/Wire/Session/Drain.antt =====
-- How packages/mariadb-wire-proto/src/lib.drift begins a statement and drains it.
use drift_mariadb_client.Base.{ℕ, zero, suc, Bool, true, false, ◌||◌, [], ◌∷◌, Text, Bytes, Outcome}
use drift_mariadb_client.Base.{returned, raised, if◌then◌else◌, length}
use drift_mariadb_client.Base.Int.{pos}
use drift_mariadb_client.Wire.{Decoded, error_at, Utf8Error, out_of_rounds}
use drift_mariadb_client.Wire.Transport.{WireSession, ◌then_run◌, bytes_of, session_reset_seq}
use drift_mariadb_client.Wire.Session.{mark_dead, require_ready, command_send_recv}
use drift_mariadb_client.Wire.Session.Statement.{
  Mode, mode_pending_ok, mode_pending_err, mode_need_next_first, mode_done, Statement,
  StatementEvent, row, result_set_end, statement_end, statement_err, Stepped, empty_ok, empty_err,
  init_statement_from_first, next_event,
}

abbrev pub is_terminal : StatementEvent → Bool
is_terminal (row _) = false
is_terminal result_set_end = false
is_terminal (statement_end _) = true
is_terminal (statement_err _) = true

abbrev pub is_row : StatementEvent → Bool
is_row (row _) = true
is_row _ = false

abbrev pub is_between : Mode → Bool
is_between mode_pending_ok = true
is_between mode_pending_err = true
is_between mode_need_next_first = true
is_between _ = false

abbrev pub fresh_statement : WireSession → Statement
fresh_statement session = record {
  session = session;
  mode = mode_done;
  column_count = pos 0;
  column_defs_remaining = 0;
  column_defs = [];
  awaiting_coldef_terminator = false;
  pending_ok = empty_ok;
  pending_err = empty_err;
  consumed_terminal = false;
}

abbrev pub or_abandon : Stepped (Unit {0}) → Stepped (Unit {0})
or_abandon (returned _, st) = (returned tt, st)
or_abandon (raised e, st) =
    (raised e, record st { session = record (mark_dead st.session) { active_statement = false } })

abbrev pub com_query : Bytes → Bytes
com_query sql = 3 ∷ sql

abbrev pub in_statement {ℓ} : {A : Type ℓ} → Decoded A × WireSession → Decoded A × Statement
in_statement (r, session) = (r, fresh_statement session)

module _ (utf8_from_bytes : Bytes → Outcome Utf8Error Text) where
  unfoldable pub skip_loop : ℕ → Statement → Stepped (Unit {0})
  skip_loop zero statement = (raised (error_at out_of_rounds 0), statement)
  skip_loop (suc fuel) statement = next_event utf8_from_bytes statement then_run λ event st.
      if is_terminal event then (returned tt, st) else skip_loop fuel st

  -- Each round but the last takes bytes from the stream.
  unfoldable pub skip_remaining : Statement → Stepped (Unit {0})
  skip_remaining statement =
      let fuel = suc (length (bytes_of statement.session.stream.arrivals)) in
      if statement.consumed_terminal then (returned tt, statement) else skip_loop fuel statement

  -- `skip_result` stops behind the rows of one result.
  unfoldable pub skip_rows : ℕ → Statement → Stepped (Unit {0})
  skip_rows zero statement = (raised (error_at out_of_rounds 0), statement)
  skip_rows (suc fuel) statement = next_event utf8_from_bytes statement then_run λ event st.
      if is_row event then skip_rows fuel st else (returned tt, st)

  unfoldable pub skip_result : Statement → Stepped (Unit {0})
  skip_result statement =
      let fuel = suc (length (bytes_of statement.session.stream.arrivals)) in
      if statement.consumed_terminal || is_between statement.mode
      then (returned tt, statement)
      else skip_rows fuel statement

  -- The session that a statement leaves when it goes out of scope.
  unfoldable pub destroy : Statement → WireSession
  destroy statement =
      let (done, st) = skip_remaining statement in
      if statement.consumed_terminal then statement.session else elim done as (λ _. WireSession) [
        | returned _ ↦ st.session
        | raised _ ↦ mark_dead st.session
      ]

  -- The statement for the first answer. On an error only its session is left.
  unfoldable pub begin_statement : WireSession → Bytes → Stepped (Unit {0})
  begin_statement session first = or_abandon (
      init_statement_from_first utf8_from_bytes
        (fresh_statement (record session { active_statement = true })) first)

  unfoldable pub query : Bytes → WireSession → Stepped (Unit {0})
  unfolding command_send_recv
  query sql session = in_statement (require_ready session, session) then_run λ _ st.
      in_statement (command_send_recv (com_query sql) (session_reset_seq st.session))
      then_run λ first st'. begin_statement st'.session first
