-- ===== src/Tests/Fetching.antt =====
-- A query over packages/mariadb-wire-proto/src/lib.drift, from its text to its last event.
use drift_mariadb_client.Base.{
  ◌≡◌, refl, arith, true, false, List, [], ◌∷◌, ◌++◌, map, Text, Bytes, Outcome, returned, nat_eq,
}
use drift_mariadb_client.Wire.{Utf8Error, ResultSetCell, null, value}
use drift_mariadb_client.Wire.Header.{encode_packet_header}
use drift_mariadb_client.Wire.Lenenc.{
  lenenc_int, decode_lenenc_int_at, decode_prefixed, take_bytes, decode_lenenc_bytes_at, text_of,
  decode_lenenc_string_at,
}
use drift_mariadb_client.Wire.Columns.{decode_column_def, fixed_fields}
use drift_mariadb_client.Wire.ResultSet.{is_eof_terminator_packet}
use drift_mariadb_client.Wire.Transport.{
  WireSession, chunk, accepts, session_write_packet, write_packet, write_all,
}
use drift_mariadb_client.Wire.Session.Statement.{row}
use drift_mariadb_client.Wire.Session.Drain.{com_query}
use drift_mariadb_client.Wire.Session.Streaming.{IsDefinition}
use drift_mariadb_client.Wire.Session.Delivered.{Gives, end_events}
use drift_mariadb_client.Wire.Session.Fetched.{fetch, fetch-Gives}
use drift_mariadb_client.Fixture.Framing.{encode}

-- A decoder of texts that are one byte each.
abbrev latin : Bytes → Outcome Utf8Error Text
latin bytes = returned bytes

-- A definition with empty names and zeros.
abbrev definition : Bytes
definition = 0 ∷ 0 ∷ 0 ∷ 0 ∷ 0 ∷ 0 ∷ 12 ∷ 0 ∷ 0 ∷ 0 ∷ 0 ∷ 0 ∷ 0 ∷ 0 ∷ 0 ∷ 0 ∷ 0 ∷ 0 ∷ []

definition_lem : IsDefinition latin definition
unfolding decode_column_def decode_lenenc_string_at decode_lenenc_bytes_at decode_lenenc_int_at
    decode_prefixed take_bytes text_of fixed_fields nat_eq
definition_lem = (_, refl)

abbrev terminator : Bytes
terminator = 254 ∷ 0 ∷ 0 ∷ 2 ∷ 0 ∷ []

-- The answer: a column, its definition, a row with a NULL, a row with the text 7, the end.
abbrev ready : WireSession
ready = record {
  stream = record {
    arrivals =
        chunk (1 ∷ 0 ∷ 0 ∷ 1 ∷ 1 ∷ [])
        ∷ chunk (18 ∷ 0 ∷ 0 ∷ 2 ∷ definition)
        ∷ chunk (5 ∷ 0 ∷ 0 ∷ 3 ∷ terminator)
        ∷ chunk (1 ∷ 0 ∷ 0 ∷ 4 ∷ 251 ∷ 2 ∷ 0 ∷ 0 ∷ 5 ∷ 1 ∷ [])
        ∷ chunk (55 ∷ [])
        ∷ chunk (5 ∷ 0 ∷ 0 ∷ 6 ∷ terminator)
        ∷ [];
    writes = accepts 100 ∷ [];
    sent = [];
  };
  is_closed = false;
  active_statement = false;
  expected_seq_id = 9;
  reset_connection_supported = true;
  metadata_suppression_negotiated = false;
  state = record {
    autocommit_enabled = true;
    in_transaction = false;
    reusable = true;
    last_status_flags = 2;
    last_warnings = 0;
  };
}

abbrev after_writing : WireSession
after_writing = record ready {
  stream = record stream { writes = []; sent = 2 ∷ 0 ∷ 0 ∷ 0 ∷ 3 ∷ 88 ∷ [] };
  expected_seq_id = 1;
}
  where
    open ready use {stream}

written :
    session_write_packet (com_query (88 ∷ [])) (record ready { expected_seq_id = 0 })
    ≡ (returned tt, after_writing)
unfolding session_write_packet write_packet write_all encode_packet_header
written = refl

abbrev two_rows : List (List ResultSetCell)
two_rows = (null ∷ []) ∷ (value (55 ∷ []) ∷ []) ∷ []

fetch-Gives_example : Gives (map row two_rows ++ end_events 2 0) (fetch latin (88 ∷ []) 4 ready)
unfolding encode is_eof_terminator_packet lenenc_int nat_eq
fetch-Gives_example =
    fetch-Gives latin (88 ∷ []) ready after_writing (definition ∷ []) terminator two_rows 2 0 []
      (record { is_open = refl; is_free = refl; is_usable = refl }) written (omega arith)
      (omega arith) (definition_lem, tt) refl (refl, (refl, tt)) refl
      (
        (
          omega arith,
          (omega arith, (omega arith, (omega arith, (omega arith, (omega arith, tt))))),
        ),
        (
          (
            omega arith,
            (omega arith, (omega arith, (omega arith, (omega arith, (omega arith, tt))))),
          ),
          refl,
        ),
      )
