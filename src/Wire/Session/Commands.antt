-- ===== src/Wire/Session/Commands.antt =====
-- The commands of packages/mariadb-wire-proto/src/lib.drift for transactions, pings and the reuse
-- of a session by a pool.
use drift_mariadb_client.Base.{
  ℕ, ◌+◌, Bool, true, false, not, ◌||◌, [], ◌∷◌, Text, Bytes, Outcome, codes,
}
use drift_mariadb_client.Base.{returned, raised, ltb, ◌==◌, nat_eq, if◌then◌else◌, length}
use drift_mariadb_client.Wire.{
  PacketDecodeError, Decoded, error_at, error_with_server, byte_at, OkPacket, Utf8Error,
  session_closed, session_not_reusable, active_statement_present, unexpected_row_in_tx_command,
  unexpected_resultset_in_tx_command, tx_command_server_err, ping_unexpected_response,
  reset_connection_empty_response, reset_connection_unsupported, reset_connection_server_err,
  reset_connection_unexpected_response, close_failed,
}
use drift_mariadb_client.Wire.Responses.{decode_ok_packet, decode_err_packet}
use drift_mariadb_client.Wire.Transport.{WireSession, ◌then_run◌, session_write_packet}
use drift_mariadb_client.Wire.Session.{
  Ran, apply_status, mark_dead, require_ready, begin_command, command_send_recv,
}
use drift_mariadb_client.Wire.Session.Statement.{
  StatementEvent, row, result_set_end, statement_end, statement_err, next_event,
}
use drift_mariadb_client.Wire.Session.Drain.{query, destroy}

-- Whether closing the stream succeeds is an argument. The answer to COM_QUIT is not awaited.
unfoldable pub close : Bool → WireSession → Ran (Unit {0})
close closes session =
    let shut = record session {
      active_statement = false;
      is_closed = true;
      state = record state { reusable = false };
      expected_seq_id = 0;
    } in
    let (_, quit) = session_write_packet (1 ∷ []) shut in
    let answer = if closes then returned tt else raised (error_at close_failed 0) in
    if session.is_closed then (returned tt, session) else (answer, quit)
  where
    open session use {state}

-- What a command that must end with an OK packet makes of its first event.
unfoldable pub expect_ok : ℕ → StatementEvent → Decoded OkPacket
expect_ok base (row _) = raised (error_at unexpected_row_in_tx_command base)
expect_ok base result_set_end = raised (error_at unexpected_resultset_in_tx_command (base + 1))
expect_ok base (statement_err err) = raised (error_with_server tx_command_server_err (base + 2) err)
expect_ok base (statement_end ok) = returned ok

-- An OK packet's flags; an answer that is no OK packet changes nothing.
unfoldable pub note_status : Bytes → WireSession → WireSession
note_status resp session = elim (decode_ok_packet resp) as (λ _. WireSession) [
  | returned ok ↦ apply_status session ok.status_flags ok.warnings
  | raised _ ↦ session
]

unfoldable pub ping : WireSession → Ran (Unit {0})
ping session = begin_command session then_run λ _ s.
    command_send_recv (14 ∷ []) s then_run λ resp s'.
    if ltb (length resp) 1 || not (byte_at resp 0 == 0)
    then (raised (error_at ping_unexpected_response 0), mark_dead s')
    else (returned tt, note_status resp s')

abbrev pub is_unsupported : PacketDecodeError → Bool
is_unsupported e = elim e.tag as (λ _. Bool) [ reset_connection_unsupported ↦ true | _ ↦ false ]

abbrev pub or_dead {ℓ} : {A : Type ℓ} → Decoded A × WireSession → Ran (Unit {0})
or_dead (returned _, session) = (returned tt, session)
or_dead (raised e, session) = (raised e, mark_dead session)

-- The last test of `reset_for_pool_reuse`.
unfoldable pub if_reusable : WireSession → Ran (Unit {0})
if_reusable session =
    if not session.state.reusable
    then (raised (error_at session_not_reusable 0), session)
    else (returned tt, session)

module _ (utf8_from_bytes : Bytes → Outcome Utf8Error Text) where
  -- The statement goes out of scope at the end.
  unfoldable pub query_expect_ok : Bytes → ℕ → WireSession → Ran OkPacket
  query_expect_ok sql base session =
      let (begun, statement) = query utf8_from_bytes sql session in
      let (event, after) = next_event utf8_from_bytes statement in
      elim begun as (λ _. Ran OkPacket) [
        | raised e ↦ (raised e, statement.session)
        | returned _ ↦ elim event as (λ _. Ran OkPacket) [
          | raised e ↦ (raised e, destroy utf8_from_bytes after)
          | returned ev ↦ (expect_ok base ev, destroy utf8_from_bytes after)
        ]
      ]

  abbrev pub guarded : Bytes → ℕ → WireSession → Ran OkPacket
  guarded sql base session =
      (require_ready session, session) then_run λ _ s. query_expect_ok sql base s

  unfoldable pub set_autocommit : Bool → WireSession → Ran OkPacket
  set_autocommit true session = guarded (codes "SET autocommit=1") 4000 session
  set_autocommit false session = guarded (codes "SET autocommit=0") 4010 session

  unfoldable pub commit : WireSession → Ran OkPacket
  commit session = guarded (codes "COMMIT") 5000 session

  unfoldable pub rollback : WireSession → Ran OkPacket
  rollback session = guarded (codes "ROLLBACK") 6000 session

  -- An ERR packet as the answer: 1047 is an unknown command.
  unfoldable pub reset_refused : Bytes → Decoded (Unit {0})
  reset_refused resp = elim (decode_err_packet utf8_from_bytes resp) as (λ _. Decoded (Unit {0})) [
    | returned err ↦
        if err.error_code == 1047
        then raised (error_at reset_connection_unsupported 0)
        else raised (error_with_server reset_connection_server_err 0 err)
    | raised _ ↦ raised (error_at reset_connection_server_err 0)
  ]

  unfoldable pub reset_connection : WireSession → Ran (Unit {0})
  reset_connection session = begin_command session then_run λ _ s.
      command_send_recv (31 ∷ []) s then_run λ resp s'.
      if ltb (length resp) 1
      then (raised (error_at reset_connection_empty_response 0), mark_dead s')
      else if byte_at resp 0 == 0
      then (returned tt, note_status resp s')
      else if byte_at resp 0 == 255
      then (reset_refused resp, s')
      else (raised (error_at reset_connection_unexpected_response 0), mark_dead s')

  -- ROLLBACK, SET autocommit=1 and a ping, as far as they are needed.
  unfoldable pub reset_by_hand : WireSession → Ran (Unit {0})
  reset_by_hand session =
      (if session.state.in_transaction then or_dead (rollback session) else (returned tt, session))
      then_run λ _ s.
          (if not s.state.autocommit_enabled
            then or_dead (set_autocommit true s)
            else (returned tt, s))
          then_run λ _ s'. or_dead (ping s') then_run λ _ s3. if_reusable s3

  unfoldable pub after_reset : Decoded (Unit {0}) × WireSession → Ran (Unit {0})
  after_reset (returned _, session) = if_reusable session
  after_reset (raised e, session) =
      if session.is_closed || not session.state.reusable
      then (raised (error_at session_not_reusable 0), session)
      else if is_unsupported e
      then reset_by_hand (record session { reset_connection_supported = false })
      else (raised e, session)

  unfoldable pub reset_for_pool_reuse : WireSession → Ran (Unit {0})
  reset_for_pool_reuse session =
      if session.is_closed
      then (raised (error_at session_closed 0), session)
      else if session.active_statement
      then (raised (error_at active_statement_present 0), session)
      else if session.reset_connection_supported
      then after_reset (reset_connection session)
      else reset_by_hand session
