-- ===== src/Wire/Session/Streaming.antt =====
-- `next_event` of lib.drift on a stream that holds whole packets: definitions, rows, their end.
use drift_mariadb_client.Base.{
  ℕ, ◌+◌, ◌%◌, ◌≡◌, refl, sym, Bool, true, false, List, [], ◌∷◌, ◌++◌, Text, Bytes, Outcome,
}
use drift_mariadb_client.Base.{returned, nat_eq, length, All, if_true, if_false}
use mathlib.Core.Path.{subst}
use drift_mariadb_client.Base.Int.{pos}
use drift_mariadb_client.Wire.{Decoded, Utf8Error, ColumnDef}
use drift_mariadb_client.Wire.ResultSet.{is_eof_terminator_packet}
use drift_mariadb_client.Wire.Columns.{decode_column_def}
use drift_mariadb_client.Wire.Transport.{
  Arrival, WireSession, ◌then_run◌, with_arrivals, session_read_packet,
}
use drift_mariadb_client.Wire.Transport.Chunks.{Holds, next_seq, session_read_packet-Reads}
use drift_mariadb_client.Wire.Transport.Conversation.{packets_from}
use drift_mariadb_client.Wire.Session.Statement.{
  mode_resultset, Statement, StatementEvent, Stepped, read_packet, or_kill, read_definitions,
  read_terminator, read_row, in_mode, rounds, next_event,
}
use drift_mariadb_client.Fixture.Framing.{WirePacket, FitsHeader, stream_of}

-- The unread bytes of a session are these payloads as packets, numbered from the one expected.
abbrev pub Sends : List Bytes → WireSession → Type 0
Sends payloads session =
    All FitsHeader (packets_from session.expected_seq_id payloads)
    × Holds session (stream_of (packets_from session.expected_seq_id payloads))

-- A statement that reads a result of so many columns, with so many definitions to come and their
-- terminator or not.
pub record IsReading (columns defs : ℕ) (awaiting : Bool) (st : Statement) : Type 0 where
  pub going_on : st.consumed_terminal ≡ false
  pub still_open : st.session.is_closed ≡ false
  pub in_rows : st.mode ≡ mode_resultset
  pub is_wide : st.column_count ≡ pos columns
  pub to_come : st.column_defs_remaining ≡ defs
  pub is_awaiting : st.awaiting_coldef_terminator ≡ awaiting

abbrev pub after_read : Statement → List Arrival → Statement
after_read st left = record st { session = with_arrivals (next_seq st.session) left }

-- The first payload is read, and the others are left.
pub session_read_packet-Sends :
    (payload : Bytes) (payloads : List Bytes) (session : WireSession)
    → Sends (payload ∷ payloads) session
    → (left : List Arrival) × (session_read_packet session
        ≡ (returned payload, with_arrivals (next_seq session) left))
      × Sends payloads (with_arrivals (next_seq session) left)
session_read_packet-Sends payload payloads session ((fits, fit), holds) =
    let packet : WirePacket = record { seq = session.expected_seq_id; payload = payload } in
    let more = stream_of (packets_from ((session.expected_seq_id + 1) % 256) payloads) in
    let (left, e, flow, rest) = session_read_packet-Reads session packet more fits refl holds in
    (left, e, (fit, (flow, rest)))

-- The same for what follows a read.
pub read_packet-Sends {ℓ κ} :
    {B : Type ℓ} (P : Decoded B × Statement → Type κ)
    (k : Bytes → Statement → Decoded B × Statement) (payload : Bytes) (payloads : List Bytes)
    (st : Statement)
    → Sends (payload ∷ payloads) st.session
    → ((left : List Arrival)
        → Sends payloads (after_read st left).session
        → P (k payload (after_read st left)))
    → P (read_packet st then_run k)
read_packet-Sends P k payload payloads st sends go =
    let (left, e, rest) = session_read_packet-Sends payload payloads st.session sends in
    rw (e, ◌then_run◌) (go left rest)

module _ (utf8_from_bytes : Bytes → Outcome Utf8Error Text) where
  -- A packet that `decode_column_def` reads.
  abbrev pub IsDefinition : Bytes → Type 0
  IsDefinition payload =
      (def : ColumnDef) × (decode_column_def utf8_from_bytes payload ≡ returned def)

  read_definitions-Sends {ℓ κ} :
      {B : Type ℓ} (P : Decoded B × Statement → Type κ)
      (k : Unit {0} → Statement → Decoded B × Statement) (columns : ℕ) (awaiting : Bool)
      (defs payloads : List Bytes) (st : Statement)
      → All IsDefinition defs
      → IsReading columns (length defs) awaiting st
      → Sends (defs ++ payloads) st.session
      → ((s : Statement) → IsReading columns 0 awaiting s → Sends payloads s.session → P (k tt s))
      → P (read_definitions utf8_from_bytes (length defs) st then_run k)
  unfolding read_definitions
  read_definitions-Sends P k columns awaiting [] payloads st ok h sends go = go st h sends
  read_definitions-Sends P k columns awaiting (d ∷ defs) payloads st ((def, e), ok) h sends go =
      read_packet-Sends (λ m. P (m then_run k)) _ d (defs ++ payloads) st sends
        λ left rest.
          rw (e, ◌then_run◌)
            (read_definitions-Sends P k columns awaiting defs payloads _ ok
              (record {
                going_on = h.going_on;
                still_open = h.still_open;
                in_rows = h.in_rows;
                is_wide = h.is_wide;
                to_come = refl;
                is_awaiting = h.is_awaiting;
              })
              rest go)

  read_terminator-Sends {ℓ κ} :
      {B : Type ℓ} (P : Decoded B × Statement → Type κ)
      (k : Unit {0} → Statement → Decoded B × Statement) (columns : ℕ) (payload : Bytes)
      (payloads : List Bytes) (st : Statement)
      → is_eof_terminator_packet payload ≡ true
      → IsReading columns 0 true st
      → Sends (payload ∷ payloads) st.session
      → ((s : Statement) → IsReading columns 0 false s → Sends payloads s.session → P (k tt s))
      → P (read_terminator utf8_from_bytes st then_run k)
  unfolding read_terminator
  read_terminator-Sends P k columns payload payloads st ends h sends go =
      if_true (λ m. P (m then_run k)) st.awaiting_coldef_terminator _ _ h.is_awaiting
        (read_packet-Sends (λ m. P (m then_run k)) _ payload payloads st sends
          λ left rest.
            if_true (λ m. P (m then_run k)) (is_eof_terminator_packet payload) _ _ ends
              (go _
                (record {
                  going_on = h.going_on;
                  still_open = h.still_open;
                  in_rows = h.in_rows;
                  is_wide = h.is_wide;
                  to_come = h.to_come;
                  is_awaiting = refl;
                })
                rest))

  -- In a result, `next_event` comes to read a row.
  pub at_row {ℓ} :
      (P : Stepped StatementEvent → Type ℓ) (st : Statement) (columns : ℕ)
      → IsReading columns 0 false st
      → P (or_kill (read_row utf8_from_bytes st))
      → P (next_event utf8_from_bytes st)
  unfolding next_event rounds in_mode read_definitions read_terminator
  at_row P st columns h p = if_false P st.consumed_terminal _ _ h.going_on (
      if_false P st.session.is_closed _ _ h.still_open (
        subst (λ m. P (or_kill (rounds utf8_from_bytes m st))) (sym h.in_rows)
          (subst
            (λ n. P (
              or_kill (
                read_definitions utf8_from_bytes n st then_run λ _ s.
                read_terminator utf8_from_bytes s then_run λ _ s'. read_row utf8_from_bytes s')))
            (sym h.to_come)
            (if_false {A = Stepped (Unit {0})}
              (λ m. P (or_kill (m then_run λ _ s'. read_row utf8_from_bytes s')))
              st.awaiting_coldef_terminator _ _ h.is_awaiting p))))

  -- So it does behind the definitions and their terminator.
  pub past_definitions {ℓ} :
      (P : Stepped StatementEvent → Type ℓ) (st : Statement) (columns : ℕ) (defs : List Bytes)
      (terminator : Bytes) (payloads : List Bytes)
      → All IsDefinition defs
      → is_eof_terminator_packet terminator ≡ true
      → IsReading columns (length defs) true st
      → Sends (defs ++ (terminator ∷ payloads)) st.session
      → ((s : Statement)
          → IsReading columns 0 false s
          → Sends payloads s.session
          → P (or_kill (read_row utf8_from_bytes s)))
      → P (next_event utf8_from_bytes st)
  unfolding next_event rounds in_mode
  past_definitions P st columns defs terminator payloads ok ends h sends go =
      if_false P st.consumed_terminal _ _ h.going_on (
        if_false P st.session.is_closed _ _ h.still_open (
          subst (λ m. P (or_kill (rounds utf8_from_bytes m st))) (sym h.in_rows)
            (subst
              (λ n. P (
                or_kill (
                  read_definitions utf8_from_bytes n st then_run λ _ s.
                  read_terminator utf8_from_bytes s then_run λ _ s'. read_row utf8_from_bytes s')))
              (sym h.to_come)
              (read_definitions-Sends (λ m. P (or_kill m)) _ columns true defs
                (terminator ∷ payloads) st ok h sends
                (λ s hs rest.
                  read_terminator-Sends (λ m. P (or_kill m)) _ columns terminator payloads s ends hs
                    rest (λ s' hs' rest'. go s' hs' rest'))))))
