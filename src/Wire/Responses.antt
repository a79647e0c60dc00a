-- ===== src/Wire/Responses.antt =====
-- packages/mariadb-wire-proto/src: decode/ok_packet.drift and decode/err_packet.drift
pub mod Packets
use drift_mariadb_client.Base.{
  ℕ, suc, ◌+◌, ◌≡◌, ◌&&◌, not, arith, List, [], ◌∷◌, Text, Bytes, Outcome, returned, raised, ◌>>=◌,
}
use drift_mariadb_client.Base.{ltb, ◌==◌, nat_eq, if◌then◌else◌, length, slice}
use drift_mariadb_client.Base.Int.{pos}
use drift_mariadb_client.Wire.{
  Decoded, error_at, byte_at, read_u16le, OkPacket, ErrPacket, Utf8Error, short_ok_packet,
  invalid_ok_header, ok_missing_status_or_warnings, short_err_packet, invalid_err_header,
  truncated_sql_state, err_sqlstate_utf8, err_message_utf8,
}
use drift_mariadb_client.Wire.Lenenc.{decode_lenenc_int_at}

-- Status and warnings behind the two numbers.
unfoldable pub ok_from : Bytes → ℕ → ℕ → ℕ → Decoded OkPacket
ok_from payload affected last_id offset =
    if ltb (length payload) (offset + 4)
    then raised (error_at ok_missing_status_or_warnings offset)
    else returned (record {
      affected_rows = affected;
      last_insert_id = last_id;
      status_flags = read_u16le payload offset;
      warnings = read_u16le payload (offset + 2);
    })

unfoldable pub ok_body : Bytes → Decoded OkPacket
ok_body payload = do
  affected ← decode_lenenc_int_at payload (pos 1)
  last_id ← decode_lenenc_int_at payload (pos affected.next_offset)
  ok_from payload affected.value last_id.value last_id.next_offset

unfoldable pub decode_ok_packet : Bytes → Decoded OkPacket
decode_ok_packet payload =
    if ltb (length payload) 1
    then raised (error_at short_ok_packet 0)
    else if not (byte_at payload 0 == 0)
    then raised (error_at invalid_ok_header 0)
    else ok_body payload

-- The standard library's decoder is a parameter; it is given the bytes of the range.
module _ (utf8_from_bytes : Bytes → Outcome Utf8Error Text) where
  unfoldable pub err_message : Bytes → ℕ → Text → ℕ → Decoded ErrPacket
  err_message payload code sql_state idx =
      elim (utf8_from_bytes (slice payload idx (length payload))) as (λ _. Decoded ErrPacket) [
        | returned message ↦
            returned (record { error_code = code; sql_state = sql_state; message = message })
        | raised e ↦ raised (error_at (err_message_utf8 e.tag) (idx + e.offset))
      ]

  unfoldable pub err_state : Bytes → ℕ → Decoded ErrPacket
  err_state payload code =
      if ltb (length payload) 9
      then raised (error_at truncated_sql_state 3)
      else elim (utf8_from_bytes (slice payload 4 9)) as (λ _. Decoded ErrPacket) [
        | returned sql_state ↦ err_message payload code sql_state 9
        | raised e ↦ raised (error_at (err_sqlstate_utf8 e.tag) (4 + e.offset))
      ]

  unfoldable pub decode_err_packet : Bytes → Decoded ErrPacket
  decode_err_packet payload =
      let code = read_u16le payload 1 in
      if ltb (length payload) 3
      then raised (error_at short_err_packet 0)
      else if not (byte_at payload 0 == 255)
      then raised (error_at invalid_err_header 0)
      else if ltb 3 (length payload) && byte_at payload 3 == 35
      then err_state payload code
      else err_message payload code [] 3
