-- ===== src/Wire.antt =====
-- packages/mariadb-wire-proto/src: the types and errors of types.drift and errors.drift that the
-- codecs share. A `Byte` is a number below 2 ^ 8 and a `Uint` one below 2 ^ 64; `Int` is signed.
pub mod Header
pub mod Lenenc
pub mod Reads
pub mod Bounds
pub mod ResultSet
pub mod Responses
pub mod Transport
pub mod Columns
pub mod Session
use drift_mariadb_client.Base.{
  ℕ, ◌+◌, ◌-◌, ◌*◌, ◌%◌, ◌^◌, List, [], Text, Bytes, Outcome, get_or, leb, if◌then◌else◌,
}
use drift_mariadb_client.Base.Int.{ℤ, pos, negsuc}

-- The tags, which are strings there. Two are none of the code's: `int_overflow` marks a sum of
-- `Int`s that leaves the 64 bits, whatever the language makes of that, and `out_of_rounds` a lack
-- of fuel.
pub data Tag : Type 0 where
  invalid_payload_len short_packet_header : Tag
  lenenc_out_of_bounds lenenc_null lenenc_truncated lenenc_invalid_prefix : Tag
  lenenc_invalid_length int_overflow : Tag
  short_response_payload unsupported_local_infile : Tag
  resultset_row_truncated resultset_row_trailing_bytes : Tag
  resultset_missing_column_count resultset_invalid_column_count_packet : Tag
  resultset_invalid_column_count resultset_truncated_before_rows : Tag
  resultset_missing_terminator : Tag
  short_ok_packet invalid_ok_header ok_missing_status_or_warnings : Tag
  short_err_packet invalid_err_header truncated_sql_state : Tag
  err_sqlstate_utf8 err_message_utf8 lenenc_utf8 : Text → Tag
  wire_read_eof wire_read_failed wire_write_failed wire_header_decode_failed : Tag
  wire_payload_too_large wire_sequence_mismatch : Tag
  session_closed session_not_reusable active_statement_present : Tag
  statement_consumed statement_invalid_mode resultset_missing_coldef_terminator : Tag
  coldef_truncated_fixed_fields coldef_bad_fixed_length_marker : Tag
  unexpected_row_in_tx_command unexpected_resultset_in_tx_command tx_command_server_err : Tag
  ping_unexpected_response reset_connection_empty_response : Tag
  reset_connection_unsupported reset_connection_server_err : Tag
  reset_connection_unexpected_response close_failed : Tag
  out_of_rounds : Tag

pub record PacketDecodeError : Type 0 where
  pub tag : Tag
  pub offset : ℤ
  pub server_error_code : ℕ
  pub server_message : Text

abbrev pub Decoded {ℓ} : Type ℓ → Type ℓ
Decoded A = Outcome PacketDecodeError A

-- `_error(tag, offset)`
abbrev pub error : Tag → ℤ → PacketDecodeError
error tag offset = record { tag = tag; offset = offset; server_error_code = 0; server_message = [] }

abbrev pub error_at : Tag → ℕ → PacketDecodeError
error_at tag offset = error tag (pos offset)

-- `input[i]`, behind a test that it is in range.
abbrev pub byte_at : Bytes → ℕ → ℕ
byte_at input i = get_or input i 0

-- What a `Uint` keeps of a number.
abbrev pub uint : ℕ → ℕ
uint n = n % 2 ^ 64

pub data ResultSetCell : Type 0 where
  null : ResultSetCell
  value : Bytes → ResultSetCell

pub record ResultSetDecoded : Type 0 where
  pub column_count : ℕ
  pub rows : List (List ResultSetCell)

pub record OkPacket : Type 0 where
  pub affected_rows : ℕ
  pub last_insert_id : ℕ
  pub status_flags : ℕ
  pub warnings : ℕ

pub record ErrPacket : Type 0 where
  pub error_code : ℕ
  pub sql_state : Text
  pub message : Text

-- What `text.utf8_from_bytes_range` says of bytes that are no UTF-8.
pub record Utf8Error : Type 0 where
  pub tag : Text
  pub offset : ℕ

-- `_read_u16le`
abbrev pub read_u16le : Bytes → ℕ → ℕ
read_u16le input offset = byte_at input offset + byte_at input (offset + 1) * 256

pub record ColumnDef : Type 0 where
  pub catalog : Text
  pub schema : Text
  pub table : Text
  pub org_table : Text
  pub name : Text
  pub org_name : Text
  pub character_set : ℕ
  pub column_length : ℕ
  pub column_type : ℕ
  pub flags : ℕ
  pub decimals : ℕ

-- `cast<Int>(value)` of a `Uint`
abbrev pub cast_int : ℕ → ℤ
cast_int v = if leb (2 ^ 63) v then negsuc (2 ^ 64 - v - 1) else pos v

-- `_error_with_server`
abbrev pub error_with_server : Tag → ℕ → ErrPacket → PacketDecodeError
error_with_server tag offset err = record {
  tag = tag;
  offset = pos offset;
  server_error_code = err.error_code;
  server_message = err.message;
}
