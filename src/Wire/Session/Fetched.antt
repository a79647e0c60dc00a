-- ===== src/Wire/Session/Fetched.antt =====
-- `query` and `next_event` of lib.drift against the packets of a result set.
use drift_mariadb_client.Base.{
  ℕ, suc, ◌^◌, ◌<◌, ◌≡◌, refl, sym, ap, ◌∙◌, arith, Bool, true, false, List, [], ◌∷◌, ◌++◌,
  append-nil, map, Text, Bytes, Outcome,
}
use mathlib.Core.Path.{subst}
use drift_mariadb_client.Base.{returned, nat_eq, length, All}
use drift_mariadb_client.Base.Int.{pos}
use drift_mariadb_client.Wire.{Decoded, Utf8Error, ResultSetCell}
use drift_mariadb_client.Wire.Lenenc.{lenenc_int}
use drift_mariadb_client.Wire.Reads.{decode_lenenc_int_at-lenenc_int}
use drift_mariadb_client.Wire.ResultSet.{
  result_set, discriminate_first_response, is_eof_terminator_packet,
}
use drift_mariadb_client.Wire.ResultSet.Rows.{row_bytes}
use drift_mariadb_client.Wire.Columns.{decode_column_count}
use drift_mariadb_client.Wire.Transport.{
  WireSession, ◌then_run◌, session_write_packet, session_read_packet, session_reset_seq,
}
use drift_mariadb_client.Wire.Session.{has_flag, command_send_recv, or_die}
use drift_mariadb_client.Wire.Session.Statement.{
  Statement, StatementEvent, row, Stepped, init_routed, init_statement_from_first,
}
use drift_mariadb_client.Wire.Session.Drain.{com_query, begin_statement, query}
use drift_mariadb_client.Wire.Session.Idle.{
  IsReady, session_write_packet-Kept, require_ready-IsReady,
}
use drift_mariadb_client.Wire.Session.Streaming.{
  Sends, IsReading, session_read_packet-Sends, IsDefinition,
}
use drift_mariadb_client.Wire.Session.Delivered.{
  next_events, Gives, end_events, eof_bytes, next_events-Gives,
}

-- The packet of a column count other than 0 is that of a result set.
discriminate-lenenc_int :
    (n : ℕ) → 0 < n → discriminate_first_response (lenenc_int n) ≡ returned result_set
unfolding discriminate_first_response lenenc_int
discriminate-lenenc_int n h = ground arith

decode_column_count-lenenc_int :
    (n : ℕ) (negotiated : Bool)
    → n < 2 ^ 63
    → decode_column_count (lenenc_int n) negotiated
      ≡ returned (record { column_count = pos n; metadata_follows = true })
unfolding decode_column_count
decode_column_count-lenenc_int n negotiated h =
    let read = rw append-nil at (decode_lenenc_int_at-lenenc_int [] [] n (omega arith)) in
    rw read (ground arith)

module _ (utf8_from_bytes : Bytes → Outcome Utf8Error Text) where
  begin_statement-lenenc_int {ℓ} :
      (P : Stepped (Unit {0}) → Type ℓ) (n : ℕ) (s : WireSession)
      → 0 < n
      → n < 2 ^ 63
      → s.is_closed ≡ false
      → ((st : Statement)
          → IsReading n n true st
          → st.session ≡ record s { active_statement = true }
          → P (returned tt, st))
      → P (begin_statement utf8_from_bytes s (lenenc_int n))
  unfolding begin_statement init_statement_from_first init_routed
  begin_statement-lenenc_int P n s some few open_still go =
      rw
        (
          discriminate-lenenc_int n some,
          ◌then_run◌,
          init_routed,
          decode_column_count-lenenc_int n s.metadata_suppression_negotiated few,
        )
        (go _
          (record {
            going_on = refl;
            still_open = open_still;
            in_rows = refl;
            is_wide = refl;
            to_come = refl;
            is_awaiting = refl;
          })
          refl)

  sent-received :
      (payload answer : Bytes) (s sent after : WireSession)
      → session_write_packet payload s ≡ (returned tt, sent)
      → session_read_packet sent ≡ (returned answer, after)
      → command_send_recv payload s ≡ (returned answer, after)
  unfolding command_send_recv
  sent-received payload answer s sent after w e = rw (w, or_die, ◌then_run◌, e) refl

  -- `query` and the events that its caller takes.
  abbrev pub fetch : Bytes → ℕ → WireSession → Decoded (List StatementEvent) × Statement
  fetch sql n session =
      query utf8_from_bytes sql session then_run λ _ st. next_events utf8_from_bytes n st

  at_answer {ℓ} :
      (P : Stepped (Unit {0}) → Type ℓ) (sql answer : Bytes) (session sent after : WireSession)
      → IsReady session
      → session_write_packet (com_query sql) (session_reset_seq session) ≡ (returned tt, sent)
      → session_read_packet sent ≡ (returned answer, after)
      → P (begin_statement utf8_from_bytes after answer)
      → P (query utf8_from_bytes sql session)
  unfolding query
  at_answer P sql answer session sent after h w e p =
      rw
        (
          require_ready-IsReady session h,
          ◌then_run◌,
          sent-received (com_query sql) answer _ sent after w e,
        )
        p

  abbrev Answered : List StatementEvent → ℕ → Stepped (Unit {0}) → Type 0
  Answered events n m = Gives events (m then_run λ _ st. next_events utf8_from_bytes n st)

  -- If the session is ready, the packet of the query is written without an error, and what the
  -- server sends, in chunks of any sizes and without a failing read, are numbered packets, each
  -- shorter than 2^24, of a count of columns that is positive and below 2^63, of as many
  -- definitions that decode_column_def reads, of a terminator, of rows of as many cells, of an
  -- end that announces no other result, and any others, then query and the calls of next_event
  -- after it return exactly these rows, the end of the result set and the end of the statement
  -- with the flags and warnings that were sent; after them the statement is through and its
  -- session open and without an active statement.
  pub fetch-Gives :
      (sql : Bytes) (session sent : WireSession) (defs : List Bytes) (terminator : Bytes)
      (rows : List (List ResultSetCell)) (status warnings : ℕ) (more : List Bytes)
      → IsReady session
      → session_write_packet (com_query sql) (session_reset_seq session) ≡ (returned tt, sent)
      → 0 < length defs
      → length defs < 2 ^ 63
      → All (IsDefinition utf8_from_bytes) defs
      → is_eof_terminator_packet terminator ≡ true
      → All (λ cells. length cells ≡ length defs) rows
      → has_flag status 8 ≡ false
      → Sends
          (lenenc_int (length defs)
            ∷ (defs ++ (terminator ∷ (map row_bytes rows ++ (eof_bytes status warnings ∷ more)))))
          sent
      → Gives
          (map row rows ++ end_events status warnings)
          (fetch sql (suc (suc (length rows))) session)
  fetch-Gives sql session sent defs terminator rows status warnings more h w some few ok ends wide
        no_more sends =
      let kept = session_write_packet-Kept (com_query sql) (session_reset_seq session) in
      let open_still : sent.is_closed ≡ false =
        sym (ap (λ m. m.1.is_closed) w) ∙ kept.same_closed ∙ h.is_open in
      let payloads =
        defs ++ (terminator ∷ (map row_bytes rows ++ (eof_bytes status warnings ∷ more))) in
      let (left, e, rest) =
        session_read_packet-Sends (lenenc_int (length defs)) payloads sent sends in
      let answered =
        Answered (map row rows ++ end_events status warnings) (suc (suc (length rows))) in
      at_answer answered sql _ session sent _ h w e (
        begin_statement-lenenc_int answered (length defs) _ some few open_still λ st reading same.
          next_events-Gives utf8_from_bytes rows status warnings (length defs) defs more terminator
            st ok ends wide no_more reading (subst (Sends payloads) (sym same) rest))
