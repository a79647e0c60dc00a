-- ===== src/Wire/ResultSet/Rows.antt =====
-- `decode_text_row` of decode/resultset.drift against the bytes of a row.
use drift_mariadb_client.Base.{
  ℕ, suc, ◌+◌, ◌^◌, ◌<◌, ◌≡◌, ◌≢◌, refl, sym, ap, ◌∙◌, arith, false, List, [], ◌∷◌, ◌++◌,
  append_assoc, append-nil, Bytes,
}
use drift_mariadb_client.Base.{returned, nat_eq, length, length-append}
use drift_mariadb_client.Base.Int.{pos}
use drift_mariadb_client.Wire.{byte_at, ResultSetCell, null, value}
use drift_mariadb_client.Wire.Lenenc.{
  lenenc_int, encode_lenenc_int, encode_lenenc_string, LenEncBytesDecoded, decode_lenenc_bytes_at,
}
use drift_mariadb_client.Wire.Reads.{byte_at-start, lenenc_int-head, decode_lenenc_bytes_at-encode}
use drift_mariadb_client.Wire.ResultSet.{text_row_loop, decode_text_row, is_eof_terminator_packet}

-- The bytes of a cell, by the protocol.
abbrev pub cell_bytes : ResultSetCell → Bytes
cell_bytes null = 251 ∷ []
cell_bytes (value b) = lenenc_int (length b) ++ b

abbrev pub row_bytes : List ResultSetCell → Bytes
row_bytes [] = []
row_bytes (c ∷ cs) = cell_bytes c ++ row_bytes cs

abbrev MeetsRows : List ResultSetCell → Type 0
MeetsRows cells =
    (front : Bytes) (row : List ResultSetCell)
    → length front + length (row_bytes cells) < 2 ^ 63
    → text_row_loop (length cells) (front ++ row_bytes cells) (length front) row
      ≡ returned (row ++ cells)

-- The loop behind a cell that ends where `code` does.
after_cell :
    (cells : List ResultSetCell) (front code : Bytes) (row : List ResultSetCell) (c : ResultSetCell)
    → MeetsRows cells
    → length front + (length code + length (row_bytes cells)) < 2 ^ 63
    → text_row_loop
        (length cells)
        (front ++ (code ++ row_bytes cells))
        (length front + length code)
        (row ++ (c ∷ []))
      ≡ returned (row ++ (c ∷ cells))
after_cell cells front code row c meets h =
    let moved : front ++ (code ++ row_bytes cells) ≡ (front ++ code) ++ row_bytes cells =
      sym (append_assoc front code (row_bytes cells)) in
    let long : length front + length code ≡ length (front ++ code) =
      sym (length-append front code) in
    rw (moved, long)
      (meets (front ++ code) (row ++ (c ∷ [])) (omega (arith, length-append front code))
        ∙ ap returned (append_assoc row (c ∷ []) cells))

-- A cell that is not NULL is read by `decode_lenenc_bytes_at`.
read_value :
    (b front rest : Bytes)
    → length front + length (lenenc_int (length b) ++ b) < 2 ^ 63
    → decode_lenenc_bytes_at (front ++ ((lenenc_int (length b) ++ b) ++ rest)) (length front)
      ≡ returned
          (record { value = b; next_offset = length front + length (lenenc_int (length b) ++ b) })
read_value b front rest =
    decode_lenenc_bytes_at-encode front b rest (lenenc_int (length b) ++ b)
      (unfold encode_lenenc_string encode_lenenc_int in refl)

module _ (columns : ℕ) (payload : Bytes) (idx : ℕ) (row : List ResultSetCell) where
  loop_null :
      idx < length payload
      → byte_at payload idx ≡ 251
      → text_row_loop (suc columns) payload idx row
        ≡ text_row_loop columns payload (idx + 1) (row ++ (null ∷ []))
  unfolding text_row_loop
  loop_null inside is_null = ground arith

  loop_value :
      (d : LenEncBytesDecoded)
      → idx < length payload
      → byte_at payload idx ≢ 251
      → decode_lenenc_bytes_at payload idx ≡ returned d
      → text_row_loop (suc columns) payload idx row
        ≡ text_row_loop columns payload d.next_offset (row ++ (value d.value ∷ []))
  unfolding text_row_loop
  loop_value d inside not_null read = ground arith

text_row_loop-row_bytes : (cells : List ResultSetCell) → MeetsRows cells
text_row_loop-row_bytes [] front row h =
    let e : length (front ++ []) ≡ length front = omega (arith, length-append front []) in
    rw (append-nil row) (unfold text_row_loop in ground (arith, e))
text_row_loop-row_bytes (null ∷ cells) front row h =
    loop_null (length cells) _ (length front) row
      (omega (arith, length-append front (251 ∷ row_bytes cells)))
      (byte_at-start front (251 ∷ row_bytes cells))
    ∙ after_cell cells front (251 ∷ []) row null (text_row_loop-row_bytes cells) (omega arith)
text_row_loop-row_bytes (value b ∷ cells) front row h =
    let code = lenenc_int (length b) ++ b in
    let whole = front ++ (code ++ row_bytes cells) in
    let long : length (code ++ row_bytes cells) ≡ length code + length (row_bytes cells) =
      length-append code (row_bytes cells) in
    let (not_null, _, there) = lenenc_int-head (length b) (b ++ row_bytes cells) in
    let head : byte_at whole (length front) ≢ 251 =
      rw (byte_at-start front (code ++ row_bytes cells), append_assoc) not_null in
    loop_value (length cells) whole (length front) row _
      (omega (
        arith,
        length-append front (code ++ row_bytes cells),
        length-append (lenenc_int (length b)) b,
      ))
      head (read_value b front (row_bytes cells) (omega arith))
    ∙ after_cell cells front code row (value b) (text_row_loop-row_bytes cells) (omega arith)

-- Every row is read back from its bytes.
pub decode_text_row-row_bytes :
    (cells : List ResultSetCell)
    → length (row_bytes cells) < 2 ^ 63
    → decode_text_row (row_bytes cells) (pos (length cells)) ≡ returned cells
unfolding decode_text_row
decode_text_row-row_bytes cells h = text_row_loop-row_bytes cells [] [] (omega arith)

pub is_eof-row_bytes :
    (cells : List ResultSetCell) → is_eof_terminator_packet (row_bytes cells) ≡ false
unfolding is_eof_terminator_packet
is_eof-row_bytes [] = refl
is_eof-row_bytes (null ∷ cells) = ground arith
is_eof-row_bytes (value b ∷ cells) =
    let (_, long, _) = lenenc_int-head (length b) (b ++ row_bytes cells) in
    rw append_assoc (ground (arith, length-append (lenenc_int (length b)) (b ++ row_bytes cells)))
