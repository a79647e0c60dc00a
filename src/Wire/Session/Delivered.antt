-- ===== src/Wire/Session/Delivered.antt =====
-- `next_event` of lib.drift on the packets of rows and their end, up to the last event.
use drift_mariadb_client.Base.{
  ℕ, zero, suc, ◌^◌, ◌<◌, ◌≡◌, refl, sym, ap, ◌∙◌, arith, true, false, List, [], ◌∷◌, ◌++◌, Text,
  Bytes, Outcome,
}
use drift_mariadb_client.Base.{
  returned, raised, leb, nat_eq, if◌then◌else◌, length, All, if_true, if_false, map, map_outcome,
}
use mathlib.Core.Path.{subst}
use drift_mariadb_client.Base.Int.{pos}
use drift_mariadb_client.Wire.{Decoded, Utf8Error, ResultSetCell, OkPacket, read_u16le}
use drift_mariadb_client.Wire.ResultSet.{is_eof_terminator_packet, decode_text_row}
use drift_mariadb_client.Wire.ResultSet.Rows.{
  row_bytes, decode_text_row-row_bytes, is_eof-row_bytes,
}
use drift_mariadb_client.Wire.Responses.Packets.{u16le}
use drift_mariadb_client.Wire.Transport.{◌then_run◌}
use drift_mariadb_client.Wire.Session.{apply_status, has_flag}
use drift_mariadb_client.Wire.Session.Statement.{
  mode_pending_ok, Statement, StatementEvent, row, result_set_end, statement_end, Stepped, empty_ok,
  or_kill, end_result_set, read_row, in_mode, rounds, next_event, set_statement_terminal,
}
use drift_mariadb_client.Wire.Session.Streaming.{
  Sends, IsReading, after_read, read_packet-Sends, IsDefinition, at_row, past_definitions,
}

-- The packet that ends the rows.
abbrev pub eof_bytes : ℕ → ℕ → Bytes
eof_bytes status warnings = 254 ∷ (u16le warnings ++ u16le status)

is_eof-eof_bytes :
    (status warnings : ℕ) → is_eof_terminator_packet (eof_bytes status warnings) ≡ true
unfolding is_eof_terminator_packet nat_eq
is_eof-eof_bytes status warnings = refl

abbrev pub end_ok : ℕ → ℕ → OkPacket
end_ok status warnings = record empty_ok { status_flags = status; warnings = warnings }

-- A statement behind its last row.
record IsEnding (ok : OkPacket) (st : Statement) : Type 0 where
  pub going_on : st.consumed_terminal ≡ false
  pub still_open : st.session.is_closed ≡ false
  pub is_pending : st.mode ≡ mode_pending_ok
  pub holds_ok : st.pending_ok ≡ ok

-- These events, and then the session is free for another command.
abbrev pub Gives : List StatementEvent → Decoded (List StatementEvent) × Statement → Type 0
Gives events (r, st) =
    (r ≡ returned events)
    × (st.consumed_terminal ≡ true)
    × (st.session.active_statement ≡ false)
    × (st.session.is_closed ≡ false)

and_event :
    (event : StatementEvent) (events : List StatementEvent)
    (m : Decoded (List StatementEvent) × Statement)
    → Gives events m
    → Gives (event ∷ events) (m then_run λ es s. (returned (event ∷ es), s))
and_event event events (returned es, s) (e, through, free, open_still) =
    (ap (map_outcome (λ x. x) (λ xs. event ∷ xs)) e, through, free, open_still)
and_event event events (raised x, s) (e, through, free, open_still) = absurd cc

abbrev pub end_events : ℕ → ℕ → List StatementEvent
end_events status warnings = result_set_end ∷ statement_end (end_ok status warnings) ∷ []

module _ (utf8_from_bytes : Bytes → Outcome Utf8Error Text) where
  -- A row of the result's width.
  row-Sends {ℓ} :
      (P : Stepped StatementEvent → Type ℓ) (cells : List ResultSetCell) (columns : ℕ)
      (payloads : List Bytes) (st : Statement)
      → length cells ≡ columns
      → IsReading columns 0 false st
      → Sends (row_bytes cells ∷ payloads) st.session
      → ((s : Statement)
          → IsReading columns 0 false s
          → Sends payloads s.session
          → P (returned (row cells), s))
      → P (or_kill (read_row utf8_from_bytes st))
  unfolding read_row
  row-Sends P cells columns payloads st wide h sends go =
      let fits : length (row_bytes cells) < 2 ^ 24 = sends.0.0 in
      let decoded =
        ap (decode_text_row (row_bytes cells)) (h.is_wide ∙ ap pos (sym wide))
        ∙ decode_text_row-row_bytes cells (omega arith) in
      read_packet-Sends (λ m. P (or_kill m)) _ (row_bytes cells) payloads st sends
        λ left rest.
          if_false (λ m. P (or_kill m)) (is_eof_terminator_packet (row_bytes cells)) _ _
            (is_eof-row_bytes cells)
            (subst
              (λ r.
                P (
                  or_kill
                    ((r, after_read st left) then_run λ cells' s. (returned (row cells'), s))))
              (sym decoded)
              (go (after_read st left)
                (record {
                  going_on = h.going_on;
                  still_open = h.still_open;
                  in_rows = h.in_rows;
                  is_wide = h.is_wide;
                  to_come = h.to_come;
                  is_awaiting = h.is_awaiting;
                })
                rest))

  -- The end of the rows, when no other result follows.
  end-Sends {ℓ} :
      (P : Stepped StatementEvent → Type ℓ) (status warnings columns : ℕ) (payloads : List Bytes)
      (st : Statement)
      → has_flag status 8 ≡ false
      → IsReading columns 0 false st
      → Sends (eof_bytes status warnings ∷ payloads) st.session
      → ((s : Statement) → IsEnding (end_ok status warnings) s → P (returned result_set_end, s))
      → P (or_kill (read_row utf8_from_bytes st))
  unfolding read_row end_result_set apply_status
  end-Sends P status warnings columns payloads st no_more h sends go =
      let packet = eof_bytes status warnings in
      let same_status : read_u16le packet 3 ≡ status = omega arith in
      let same_warnings : read_u16le packet 1 ≡ warnings = omega arith in
      let quiet : has_flag (if leb 5 (length packet) then read_u16le packet 3 else 0) 8 ≡ false =
        rw same_status no_more in
      read_packet-Sends (λ m. P (or_kill m)) _ packet payloads st sends
        λ left rest.
          if_true (λ m. P (or_kill m)) (is_eof_terminator_packet packet) _ _
            (is_eof-eof_bytes status warnings)
            (if_false (λ s. P (returned result_set_end, s)) _ _ _ quiet
              (go _ (record {
                going_on = h.going_on;
                still_open = h.still_open;
                is_pending = refl;
                holds_ok = rw (same_status, same_warnings) refl;
              })))

  -- The last event.
  last-Event {ℓ} :
      (P : Stepped StatementEvent → Type ℓ) (ok : OkPacket) (st : Statement)
      → IsEnding ok st
      → ((s : Statement)
          → s.consumed_terminal ≡ true
          → s.session.active_statement ≡ false
          → s.session.is_closed ≡ false
          → P (returned (statement_end ok), s))
      → P (next_event utf8_from_bytes st)
  unfolding next_event rounds in_mode set_statement_terminal apply_status
  last-Event P ok st h go = if_false P st.consumed_terminal _ _ h.going_on (
      if_false P st.session.is_closed _ _ h.still_open (
        subst (λ m. P (or_kill (rounds utf8_from_bytes m st))) (sym h.is_pending)
          (subst (λ o. P (returned (statement_end o), last)) (sym h.holds_ok)
            (go last refl refl h.still_open))))
    where
      last : Statement
      last = set_statement_terminal (record st {
        session = apply_status st.session st.pending_ok.status_flags st.pending_ok.warnings;
      })

  -- So many events, one after another.
  abbrev pub next_events : ℕ → Statement → Decoded (List StatementEvent) × Statement
  next_events zero st = (returned [], st)
  next_events (suc n) st = next_event utf8_from_bytes st then_run λ event s.
      next_events n s then_run λ events s'. (returned (event ∷ events), s')

  abbrev followed : ℕ → Stepped StatementEvent → Decoded (List StatementEvent) × Statement
  followed n m =
      m then_run λ event s. next_events n s then_run λ events s'. (returned (event ∷ events), s')

  rows-Gives :
      (rows : List (List ResultSetCell)) (status warnings columns : ℕ) (payloads : List Bytes)
      (st : Statement)
      → All (λ cells. length cells ≡ columns) rows
      → has_flag status 8 ≡ false
      → IsReading columns 0 false st
      → Sends (map row_bytes rows ++ (eof_bytes status warnings ∷ payloads)) st.session
      → Gives
          (map row rows ++ end_events status warnings)
          (followed (suc (length rows)) (or_kill (read_row utf8_from_bytes st)))
  rows-Gives [] status warnings columns payloads st wide no_more h sends =
      let ok = end_ok status warnings in
      end-Sends (λ m. Gives (end_events status warnings) (followed 1 m)) status warnings columns
        payloads st no_more h sends
        λ s ending. and_event result_set_end (statement_end ok ∷ []) (next_events 1 s) (
          last-Event (λ m. Gives (statement_end ok ∷ []) (followed 0 m)) ok s ending
            (λ s' through free open_still. (refl, through, free, open_still)))
  rows-Gives (cells ∷ rows) status warnings columns payloads st (w, wide) no_more h sends =
      let events = map row rows ++ end_events status warnings in
      let others = map row_bytes rows ++ (eof_bytes status warnings ∷ payloads) in
      row-Sends (λ m. Gives (row cells ∷ events) (followed (suc (suc (length rows))) m)) cells
        columns others st w h sends
        λ s hs rest. and_event (row cells) events (next_events (suc (suc (length rows))) s) (
          at_row utf8_from_bytes (λ m. Gives events (followed (suc (length rows)) m)) s columns hs
            (rows-Gives rows status warnings columns payloads s wide no_more hs rest))

  -- The events of a statement whose result is to come from its definitions on.
  pub next_events-Gives :
      (rows : List (List ResultSetCell)) (status warnings columns : ℕ) (defs payloads : List Bytes)
      (terminator : Bytes) (st : Statement)
      → All (IsDefinition utf8_from_bytes) defs
      → is_eof_terminator_packet terminator ≡ true
      → All (λ cells. length cells ≡ columns) rows
      → has_flag status 8 ≡ false
      → IsReading columns (length defs) true st
      → Sends
          (defs ++ (terminator ∷ (map row_bytes rows ++ (eof_bytes status warnings ∷ payloads))))
          st.session
      → Gives
          (map row rows ++ end_events status warnings)
          (next_events (suc (suc (length rows))) st)
  next_events-Gives rows status warnings columns defs payloads terminator st ok ends wide no_more h
        sends =
      past_definitions utf8_from_bytes
        (λ m. Gives (map row rows ++ end_events status warnings) (followed (suc (length rows)) m))
        st columns defs terminator _ ok ends h sends
        (λ s hs rest. rows-Gives rows status warnings columns payloads s wide no_more hs rest)
