-- ===== src/Wire/Session/Statement.antt =====
-- Statements of packages/mariadb-wire-proto/src/lib.drift: query, next_event, the skips, destroy.
use drift_mariadb_client.Base.{
  ℕ, zero, suc, Bool, true, false, List, [], ◌∷◌, ◌++◌, Text, Bytes, Outcome,
}
use drift_mariadb_client.Base.{returned, raised, leb, nat_eq, if◌then◌else◌, length}
use drift_mariadb_client.Base.Int.{ℤ, pos, negsuc}
use drift_mariadb_client.Wire.{
  Decoded, error_at, read_u16le, OkPacket, ErrPacket, ColumnDef, ResultSetCell, Utf8Error,
  statement_consumed, session_closed, statement_invalid_mode, resultset_missing_coldef_terminator,
}
use drift_mariadb_client.Wire.ResultSet.{
  FirstResponseRoute, ok_packet, err_packet, result_set, discriminate_first_response,
  is_eof_terminator_packet, decode_text_row,
}
use drift_mariadb_client.Wire.Responses.{decode_ok_packet, decode_err_packet}
use drift_mariadb_client.Wire.Columns.{ColumnCountDecoded, decode_column_count, decode_column_def}
use drift_mariadb_client.Wire.Transport.{WireSession, ◌then_run◌, session_read_packet}
use drift_mariadb_client.Wire.Session.{apply_status, mark_dead, has_flag}

pub data Mode : Type 0 where
  mode_pending_ok mode_pending_err mode_resultset mode_need_next_first mode_done : Mode

pub record Statement : Type 0 where
  pub session : WireSession
  pub mode : Mode
  pub column_count : ℤ
  pub column_defs_remaining : ℕ
  pub column_defs : List ColumnDef
  pub awaiting_coldef_terminator : Bool
  pub pending_ok : OkPacket
  pub pending_err : ErrPacket
  pub consumed_terminal : Bool

pub data StatementEvent : Type 0 where
  row : List ResultSetCell → StatementEvent
  result_set_end : StatementEvent
  statement_end : OkPacket → StatementEvent
  statement_err : ErrPacket → StatementEvent

abbrev pub Stepped : Type 0 → Type 0
Stepped A = Decoded A × Statement

abbrev pub empty_ok : OkPacket
empty_ok = record { affected_rows = 0; last_insert_id = 0; status_flags = 0; warnings = 0 }

abbrev pub empty_err : ErrPacket
empty_err = record { error_code = 0; sql_state = []; message = [] }

-- `session_read_packet(statement.session)`
abbrev pub read_packet : Statement → Stepped Bytes
read_packet statement =
    let (got, session) = session_read_packet statement.session in
    (got, record statement { session = session })

abbrev pub kill : Statement → Statement
kill statement = record statement { session = mark_dead statement.session }

unfoldable pub set_statement_terminal : Statement → Statement
set_statement_terminal statement = record statement {
  mode = mode_done;
  consumed_terminal = true;
  session = record session { active_statement = false };
}
  where
    open statement use {session}

-- How many definitions are to come; the loop takes a negative count for none.
abbrev definitions_of : ℤ → ℕ
definitions_of (pos n) = n
definitions_of (negsuc n) = 0

abbrev pub enter_result_set : Statement → ColumnCountDecoded → Statement
enter_result_set statement count = record statement {
  column_count = count.column_count;
  column_defs = [];
  column_defs_remaining = if count.metadata_follows then definitions_of count.column_count else 0;
  awaiting_coldef_terminator = count.metadata_follows;
  mode = mode_resultset;
}

-- Each failure of a step of `next_event` ends the session.
abbrev pub or_kill : Stepped StatementEvent → Stepped StatementEvent
or_kill (returned event, statement) = (returned event, statement)
or_kill (raised e, statement) = (raised e, kill statement)

module _ (utf8_from_bytes : Bytes → Outcome Utf8Error Text) where
  unfoldable pub init_routed : Statement → Bytes → FirstResponseRoute → Stepped (Unit {0})
  init_routed statement first ok_packet =
      elim (decode_ok_packet first) as (λ _. Stepped (Unit {0})) [
        | raised e ↦ (raised e, statement)
        | returned ok ↦ (returned tt, record statement { pending_ok = ok; mode = mode_pending_ok })
      ]
  init_routed statement first err_packet =
      elim (decode_err_packet utf8_from_bytes first) as (λ _. Stepped (Unit {0})) [
        | raised e ↦ (raised e, statement)
        | returned err ↦
            (returned tt, record statement { pending_err = err; mode = mode_pending_err })
      ]
  init_routed statement first result_set =
      elim (decode_column_count first statement.session.metadata_suppression_negotiated)
        as (λ _. Stepped (Unit {0})) [
          | raised e ↦ (raised e, statement)
          | returned count ↦ (returned tt, enter_result_set statement count)
        ]

  unfoldable pub init_statement_from_first : Statement → Bytes → Stepped (Unit {0})
  init_statement_from_first statement first =
      (discriminate_first_response first, statement) then_run λ route st. init_routed st first route

  -- The round of the loop for MODE_NEED_NEXT_FIRST.
  unfoldable pub next_first : Statement → Stepped (Unit {0})
  next_first statement =
      read_packet statement then_run λ first st. init_statement_from_first st first

  -- The rounds for the column definitions.
  unfoldable pub read_definitions : ℕ → Statement → Stepped (Unit {0})
  read_definitions zero statement = (returned tt, statement)
  read_definitions (suc n) statement = read_packet statement then_run λ payload st.
      (decode_column_def utf8_from_bytes payload, st) then_run λ def st'.
      read_definitions n
        (record st' { column_defs = st'.column_defs ++ (def ∷ []); column_defs_remaining = n })

  -- The round for their terminator.
  unfoldable pub read_terminator : Statement → Stepped (Unit {0})
  read_terminator statement =
      let read = read_packet statement then_run λ payload st.
      if is_eof_terminator_packet payload
      then (returned tt, record st { awaiting_coldef_terminator = false })
      else (raised (error_at resultset_missing_coldef_terminator 0), st) in
      if statement.awaiting_coldef_terminator then read else (returned tt, statement)

  -- The end of the rows: another result may follow.
  unfoldable pub end_result_set : Statement → Bytes → Statement
  end_result_set statement payload =
      let full = leb 5 (length payload) in
      let warnings = if full then read_u16le payload 1 else 0 in
      let status = if full then read_u16le payload 3 else 0 in
      let st = record statement { session = apply_status statement.session status warnings } in
      if has_flag status 8 then record st { mode = mode_need_next_first } else record st {
        pending_ok = record empty_ok { status_flags = status; warnings = warnings };
        mode = mode_pending_ok;
      }

  unfoldable pub read_row : Statement → Stepped StatementEvent
  read_row statement = read_packet statement then_run λ payload st.
      if is_eof_terminator_packet payload
      then (returned result_set_end, end_result_set st payload)
      else ((decode_text_row payload st.column_count, st) then_run λ cells st'.
          (returned (row cells), st'))

  unfoldable pub in_mode : Mode → Statement → Stepped StatementEvent
  in_mode mode_pending_ok statement =
      let ok = statement.pending_ok in
      let session = apply_status statement.session ok.status_flags ok.warnings in
      (returned (statement_end ok), set_statement_terminal (record statement { session = session }))
  in_mode mode_pending_err statement = (
    returned (statement_err statement.pending_err),
    record (set_statement_terminal statement) { pending_err = empty_err },
  )
  in_mode mode_resultset statement =
      read_definitions statement.column_defs_remaining statement then_run λ _ st.
      read_terminator st then_run λ _ st'. read_row st'
  in_mode mode_need_next_first statement = (raised (error_at statement_invalid_mode 4), statement)
  in_mode mode_done statement = (raised (error_at statement_invalid_mode 5), statement)

  -- The rounds of the loop. The first answer to come has its round first; it leaves a mode of one of
  -- the other rounds.
  unfoldable pub rounds : Mode → Statement → Stepped StatementEvent
  rounds mode_need_next_first statement = next_first statement then_run λ _ st. in_mode st.mode st
  rounds m statement = in_mode m statement

  unfoldable pub next_event : Statement → Stepped StatementEvent
  next_event statement =
      if statement.consumed_terminal
      then (raised (error_at statement_consumed 0), statement)
      else if statement.session.is_closed
      then (raised (error_at session_closed 0), statement)
      else or_kill (rounds statement.mode statement)
