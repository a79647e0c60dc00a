-- ===== src/Wire/ResultSet.antt =====
-- packages/mariadb-wire-proto/src/decode/resultset.drift
pub mod Rows
pub mod Cuts
pub mod Whole
use drift_mariadb_client.Base.{
  ℕ, zero, suc, ◌+◌, ◌^◌, ◌≡◌, refl, arith, Bool, not, ◌&&◌, List, [], ◌∷◌, ◌++◌, Bytes,
}
use drift_mariadb_client.Base.{
  returned, raised, ◌>>=◌, ltb, leb, ◌==◌, nat_eq, if◌then◌else◌, length, get_or, drop,
}
use drift_mariadb_client.Base.Int.{ℤ, pos, negsuc}
use drift_mariadb_client.Wire.{
  Decoded, error_at, byte_at, int_overflow, short_response_payload, unsupported_local_infile,
  resultset_row_truncated, resultset_row_trailing_bytes, resultset_missing_column_count,
  resultset_invalid_column_count_packet, resultset_invalid_column_count,
  resultset_truncated_before_rows, resultset_missing_terminator, ResultSetCell, null, value,
  ResultSetDecoded,
}
use drift_mariadb_client.Wire.Lenenc.{
  LenEncIntDecoded, decode_lenenc_int_at, decode_lenenc_bytes_at,
}

pub data FirstResponseRoute : Type 0 where
  ok_packet err_packet result_set : FirstResponseRoute

unfoldable pub discriminate_first_response : Bytes → Decoded FirstResponseRoute
discriminate_first_response [] = raised (error_at short_response_payload 0)
discriminate_first_response (header ∷ _) =
    if header == 0
    then returned ok_packet
    else if header == 255
    then returned err_packet
    else if header == 251
    then raised (error_at unsupported_local_infile 0)
    else returned result_set

-- `_is_eof_terminator_packet`
unfoldable pub is_eof_terminator_packet : Bytes → Bool
is_eof_terminator_packet payload =
    ltb 0 (length payload) && (byte_at payload 0 == 254 && ltb (length payload) 9)

-- The loop of `decode_text_row`: how many columns are left, `idx`, `row`.
unfoldable pub text_row_loop : ℕ → Bytes → ℕ → List ResultSetCell → Decoded (List ResultSetCell)
text_row_loop zero payload idx row =
    if idx == length payload
    then returned row
    else raised (error_at resultset_row_trailing_bytes idx)
text_row_loop (suc columns) payload idx row =
    let after_null = text_row_loop columns payload (idx + 1) (row ++ (null ∷ [])) in
    let after_value = decode_lenenc_bytes_at payload idx >>= λ decoded.
    text_row_loop columns payload decoded.next_offset (row ++ (value decoded.value ∷ [])) in
    if leb (length payload) idx
    then raised (error_at resultset_row_truncated idx)
    else if byte_at payload idx == 251
    then after_null
    else after_value

-- A negative count is no round of the loop.
unfoldable pub decode_text_row : Bytes → ℤ → Decoded (List ResultSetCell)
decode_text_row payload (pos column_count) = text_row_loop column_count payload 0 []
decode_text_row payload (negsuc n) = text_row_loop 0 payload 0 []

-- The number that follows the column count, when the packet goes on, must be 0 or 1.
unfoldable pub check_metadata : Bytes → LenEncIntDecoded → Decoded ℕ
check_metadata first dec =
    let refused = raised (error_at resultset_invalid_column_count_packet dec.next_offset) in
    elim (decode_lenenc_int_at first (pos dec.next_offset)) as (λ _. Decoded ℕ) [
      | raised _ ↦ refused
      | returned flag ↦
          if not (flag.next_offset == length first)
          then refused
          else if not (flag.value == 0) && not (flag.value == 1)
          then refused
          else returned dec.value
    ]

unfoldable pub column_count_of : Bytes → Decoded ℕ
column_count_of first = do
  dec ← decode_lenenc_int_at first (pos 0)
  if ltb dec.next_offset (length first) then check_metadata first dec else returned dec.value

-- The loop over the rows; `total` is `packets.len`.
unfoldable pub rows_loop : ℕ → ℕ → List Bytes → List (List ResultSetCell) → Decoded ResultSetDecoded
rows_loop column_count total [] rows = raised (error_at resultset_missing_terminator total)
rows_loop column_count total (payload ∷ packets) rows =
    let rest = decode_text_row payload (pos column_count) >>= λ row.
    rows_loop column_count total packets (rows ++ (row ∷ [])) in
    if is_eof_terminator_packet payload
    then returned (record { column_count = column_count; rows = rows })
    else rest

-- `cast<Int>` makes a negative number of a count from 2 ^ 63 on.
unfoldable pub rows_of : List Bytes → ℕ → Decoded ResultSetDecoded
rows_of packets column_count =
    let row_start = 1 + column_count in
    let first_row_idx =
      if is_eof_terminator_packet (get_or packets row_start []) then row_start + 1 else row_start in
    if leb (2 ^ 63) column_count
    then raised (error_at resultset_invalid_column_count 0)
    else if leb (2 ^ 63) (row_start + 1)
    then raised (error_at int_overflow 0)
    else if ltb (length packets) (row_start + 1)
    then raised (error_at resultset_truncated_before_rows (length packets))
    else if ltb (length packets) (first_row_idx + 1)
    then raised (error_at resultset_truncated_before_rows (length packets))
    else rows_loop column_count (length packets) (drop first_row_idx packets) []

unfoldable pub decode_text_resultset_packets : List Bytes → Decoded ResultSetDecoded
decode_text_resultset_packets [] = raised (error_at resultset_missing_column_count 0)
decode_text_resultset_packets (first ∷ packets) = do
  column_count ← column_count_of first
  rows_of (first ∷ packets) column_count
