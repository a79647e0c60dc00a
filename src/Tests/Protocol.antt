-- ===== src/Tests/Protocol.antt =====
-- packages/mariadb-wire-proto/src on a short conversation.
use drift_mariadb_client.Base.{
  ◌≡◌, refl, arith, true, false, inl, inr, none, some, List, [], ◌∷◌, ◌++◌, Text, Bytes, IsByte,
  All, Outcome, returned, raised, length, nat_eq,
}
use drift_mariadb_client.Base.Int.{pos}
use drift_mariadb_client.Sql.Hex.{decode_utf8}
use drift_mariadb_client.Wire.{Utf8Error, OkPacket, ResultSetCell, null, value}
use drift_mariadb_client.Wire.Header.{encode_packet_header}
use drift_mariadb_client.Wire.Lenenc.{
  encode_lenenc_string, decode_lenenc_int_at, decode_lenenc_bytes_at, lenenc_int, encode_lenenc_int,
  decode_prefixed, take_bytes,
}
use drift_mariadb_client.Wire.Reads.{decode_lenenc_bytes_at-encode}
use drift_mariadb_client.Wire.Bounds.{Within, decode_lenenc_int_at-Within}
use drift_mariadb_client.Wire.ResultSet.{
  is_eof_terminator_packet, decode_text_row, text_row_loop, decode_text_resultset_packets,
}
use drift_mariadb_client.Wire.ResultSet.Cuts.{Cuts, decode_text_row-Cuts}
use drift_mariadb_client.Wire.ResultSet.Whole.{
  IsRow, packets_of, decode_text_resultset_packets-packets_of,
}
use drift_mariadb_client.Wire.Responses.{decode_ok_packet}
use drift_mariadb_client.Wire.Responses.Packets.{ok_bytes, decode_ok_packet-ok_bytes}
use drift_mariadb_client.Wire.Transport.{
  WireSession, Arrival, chunk, Write, accepts, session_write_packet, write_packet, write_all,
}
use drift_mariadb_client.Wire.Transport.Conversation.{
  write_packets, read_packets, read_packets-write_packets,
}
use drift_mariadb_client.Wire.Session.Drain.{fresh_statement, skip_remaining, destroy}
use drift_mariadb_client.Wire.Session.Statement.{Statement, mode_resultset}
use drift_mariadb_client.Wire.Session.Drained.{Drained, Settled, destroy-Settled}
use drift_mariadb_client.Wire.Session.Commands.{reset_for_pool_reuse}
use drift_mariadb_client.Wire.Session.Idle.{Keeps}
use drift_mariadb_client.Wire.Session.Reuse.{reset_for_pool_reuse-Keeps}

-- The standard library's decoder, as far as the model knows it.
utf8 : Bytes → Outcome Utf8Error Text
utf8 bytes = elim (decode_utf8 bytes) as (λ _. Outcome Utf8Error Text) [
  | some s ↦ returned s
  | none ↦ raised (record { tag = []; offset = 0 })
]

abbrev eof : Bytes
eof = 254 ∷ 0 ∷ 0 ∷ 2 ∷ 0 ∷ []

eof_lem : is_eof_terminator_packet eof ≡ true
unfolding is_eof_terminator_packet nat_eq
eof_lem = refl

abbrev rows : List (List ResultSetCell)
rows = (value (65 ∷ []) ∷ []) ∷ (null ∷ []) ∷ []

rows_fit : All (IsRow 1) rows
unfolding lenenc_int
rows_fit = ((refl, omega arith), ((refl, omega arith), tt))

decode_text_resultset_packets-packets_of_example :
    decode_text_resultset_packets
      ((lenenc_int 1 ++ []) ∷ packets_of ([] ∷ []) (eof ∷ []) rows eof [])
    ≡ returned (record { column_count = 1; rows = rows })
decode_text_resultset_packets-packets_of_example =
    decode_text_resultset_packets-packets_of [] ([] ∷ []) (eof ∷ []) rows eof [] (omega arith)
      (inl refl) rows_fit (inr (eof, refl, eof_lem)) eof_lem

abbrev row_payload : Bytes
row_payload = 1 ∷ 65 ∷ 251 ∷ []

row_payload_lem : decode_text_row row_payload (pos 2) ≡ returned (value (65 ∷ []) ∷ null ∷ [])
unfolding decode_text_row text_row_loop decode_lenenc_bytes_at nat_eq decode_lenenc_int_at
    decode_prefixed take_bytes
row_payload_lem = refl

row_payload-IsByte : All IsByte row_payload
row_payload-IsByte = (omega arith, (omega arith, (omega arith, tt)))

abbrev two_cells : List ResultSetCell
two_cells = value (65 ∷ []) ∷ null ∷ []

decode_text_row-Cuts_example : (length two_cells ≡ 2) × Cuts row_payload 0 two_cells
decode_text_row-Cuts_example =
    decode_text_row-Cuts row_payload 2 two_cells row_payload-IsByte row_payload_lem

abbrev long_int : Bytes
long_int = 9 ∷ 252 ∷ 1 ∷ 2 ∷ []

long_int_lem :
    decode_lenenc_int_at long_int (pos 1) ≡ returned (record { value = 513; next_offset = 4 })
unfolding decode_lenenc_int_at decode_prefixed nat_eq
long_int_lem = refl

decode_lenenc_int_at-Within_example : Within long_int 1 (record { value = 513; next_offset = 4 })
decode_lenenc_int_at-Within_example =
    decode_lenenc_int_at-Within long_int 1 (record { value = 513; next_offset = 4 })
      (omega arith, (omega arith, (omega arith, (omega arith, tt)))) long_int_lem

short_string : encode_lenenc_string (65 ∷ 66 ∷ []) ≡ returned (2 ∷ 65 ∷ 66 ∷ [])
unfolding encode_lenenc_string encode_lenenc_int lenenc_int
short_string = refl

decode_lenenc_bytes_at-encode_example :
    decode_lenenc_bytes_at (9 ∷ 2 ∷ 65 ∷ 66 ∷ 7 ∷ []) 1
    ≡ returned (record { value = 65 ∷ 66 ∷ []; next_offset = 4 })
decode_lenenc_bytes_at-encode_example =
    decode_lenenc_bytes_at-encode (9 ∷ []) (65 ∷ 66 ∷ []) (7 ∷ []) (2 ∷ 65 ∷ 66 ∷ []) short_string
      (omega arith)

abbrev two_rows : OkPacket
two_rows = record { affected_rows = 2; last_insert_id = 300; status_flags = 2; warnings = 0 }

decode_ok_packet-ok_bytes_example :
    decode_ok_packet (ok_bytes two_rows ++ (0 ∷ [])) ≡ returned two_rows
decode_ok_packet-ok_bytes_example = decode_ok_packet-ok_bytes two_rows (0 ∷ []) (record {
  rows_fit = omega arith;
  id_fits = omega arith;
  status_fits = omega arith;
  warnings_fit = omega arith;
})

-- A session that is ready, with what its server will send and how it takes what it is sent.
abbrev session_with : List Arrival → List Write → WireSession
session_with arrivals writes = record {
  stream = record { arrivals = arrivals; writes = writes; sent = [] };
  is_closed = false;
  active_statement = false;
  expected_seq_id = 0;
  reset_connection_supported = true;
  metadata_suppression_negotiated = false;
  state = record {
    autocommit_enabled = true;
    in_transaction = false;
    reusable = true;
    last_status_flags = 0;
    last_warnings = 0;
  };
}

abbrev conversation : Bytes
conversation = 2 ∷ 0 ∷ 0 ∷ 0 ∷ 3 ∷ 88 ∷ 1 ∷ 0 ∷ 0 ∷ 1 ∷ 14 ∷ []

abbrev writer : WireSession
writer = session_with [] (accepts 5 ∷ accepts 9 ∷ accepts 9 ∷ [])

abbrev after_writing : WireSession
after_writing = record writer {
  stream = record { arrivals = []; writes = []; sent = conversation };
  expected_seq_id = 2;
}

-- The bytes arrive in three pieces.
abbrev reader : WireSession
reader =
    session_with
      (chunk (2 ∷ 0 ∷ 0 ∷ []) ∷ chunk (0 ∷ 3 ∷ 88 ∷ 1 ∷ 0 ∷ []) ∷ chunk (0 ∷ 1 ∷ 14 ∷ []) ∷ []) []

written : write_packets ((3 ∷ 88 ∷ []) ∷ (14 ∷ []) ∷ []) writer ≡ (returned tt, after_writing)
unfolding session_write_packet write_packet write_all encode_packet_header
written = refl

read_packets-write_packets_example :
    (read_packets 2 reader).0 ≡ returned ((3 ∷ 88 ∷ []) ∷ (14 ∷ []) ∷ [])
read_packets-write_packets_example =
    read_packets-write_packets ((3 ∷ 88 ∷ []) ∷ (14 ∷ []) ∷ []) writer after_writing reader written
      refl refl ((omega arith, (omega arith, (omega arith, tt))), refl)

-- A statement whose result has a row and its end to come.
abbrev busy : WireSession
busy =
    record (session_with (chunk (1 ∷ 0 ∷ 0 ∷ 0 ∷ 251 ∷ []) ∷ chunk (5 ∷ 0 ∷ 0 ∷ 1 ∷ eof) ∷ []) []) {
      active_statement = true;
    }

abbrev reading : Statement
reading = record (fresh_statement busy) { mode = mode_resultset; column_count = pos 1 }

destroy-Settled_example :
    Drained true (skip_remaining utf8 reading) × Settled utf8 true (destroy utf8 reading)
destroy-Settled_example = destroy-Settled utf8 true 14 0 reading (record {
  going_on = refl;
  still_open = refl;
  in_use = refl;
  same_reusable = refl;
  bounded = omega arith;
})

abbrev pooled : WireSession
pooled =
    session_with (chunk (7 ∷ 0 ∷ 0 ∷ 1 ∷ 0 ∷ 0 ∷ 0 ∷ 2 ∷ 0 ∷ 0 ∷ 0 ∷ []) ∷ []) (accepts 100 ∷ [])

reset_for_pool_reuse-Keeps_example : Keeps (reset_for_pool_reuse utf8 pooled)
reset_for_pool_reuse-Keeps_example =
    reset_for_pool_reuse-Keeps utf8 pooled
      (inl (record { is_open = refl; is_free = refl; is_usable = refl }))
