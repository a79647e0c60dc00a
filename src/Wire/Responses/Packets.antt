-- ===== src/Wire/Responses/Packets.antt =====
-- decode/ok_packet.drift and decode/err_packet.drift on the packets of the protocol.
use drift_mariadb_client.Base.{
  ℕ, suc, ◌+◌, ◌*◌, ◌/◌, ◌%◌, ◌^◌, ◌<◌, ◌≡◌, sym, ap, arith, [], ◌∷◌, ◌++◌, append_assoc,
  append-nil, Text, Bytes,
}
use drift_mariadb_client.Base.{
  Outcome, returned, nat_eq, length, slice, length-append, take, drop, take-length-append,
  drop-length-append,
}
use drift_mariadb_client.Wire.{read_u16le, OkPacket, Utf8Error}
use drift_mariadb_client.Wire.Lenenc.{lenenc_int}
use drift_mariadb_client.Wire.Reads.{byte_at-front, byte_at-start, decode_lenenc_int_at-lenenc_int}
use drift_mariadb_client.Wire.Responses.{
  ok_from, ok_body, decode_ok_packet, err_message, err_state, decode_err_packet,
}

-- Two bytes, the lower first.
abbrev pub u16le : ℕ → Bytes
u16le n = n % 256 ∷ n / 256 ∷ []

abbrev pub ok_bytes : OkPacket → Bytes
ok_bytes p =
    0
    ∷ (lenenc_int p.affected_rows
        ++ (lenenc_int p.last_insert_id ++ (u16le p.status_flags ++ u16le p.warnings)))

pub record FitsOk (p : OkPacket) : Type 0 where
  pub rows_fit : p.affected_rows < 2 ^ 64
  pub id_fits : p.last_insert_id < 2 ^ 64
  pub status_fits : p.status_flags < 2 ^ 16
  pub warnings_fit : p.warnings < 2 ^ 16

read_u16le-u16le :
    (front rest : Bytes) (n : ℕ) → read_u16le (front ++ (u16le n ++ rest)) (length front) ≡ n
read_u16le-u16le front rest n =
    let x = n % 256 ∷ n / 256 ∷ rest in
    rw (byte_at-start front x, byte_at-front front x 1) (omega arith)

abbrev tail : OkPacket → Bytes → Bytes
tail p rest = u16le p.status_flags ++ (u16le p.warnings ++ rest)

module _ (front rest : Bytes) (p : OkPacket) where
  read_warnings : read_u16le (front ++ tail p rest) (length front + 2) ≡ p.warnings
  read_warnings =
      let moved : front ++ tail p rest
          ≡ (front ++ u16le p.status_flags) ++ (u16le p.warnings ++ rest) =
        sym (append_assoc front (u16le p.status_flags) (u16le p.warnings ++ rest)) in
      let long : length front + 2 ≡ length (front ++ u16le p.status_flags) =
        omega (arith, length-append front (u16le p.status_flags)) in
      rw (moved, long) (read_u16le-u16le (front ++ u16le p.status_flags) rest p.warnings)

  ok_from-tail :
      (offset : ℕ)
      → offset ≡ length front
      → ok_from (front ++ tail p rest) p.affected_rows p.last_insert_id offset ≡ returned p
  unfolding ok_from
  ok_from-tail offset h = rw h (
      ground (
        arith,
        read_u16le-u16le front (u16le p.warnings ++ rest) p.status_flags,
        read_warnings,
        length-append front (tail p rest),
      ))

ok_body-numbers :
    (p : OkPacket) (rest : Bytes)
    → FitsOk p
    → ok_body (0 ∷ (lenenc_int p.affected_rows ++ (lenenc_int p.last_insert_id ++ tail p rest)))
      ≡ returned p
unfolding ok_body
ok_body-numbers p rest fits =
    let a = lenenc_int p.affected_rows in
    let l = lenenc_int p.last_insert_id in
    let first =
      decode_lenenc_int_at-lenenc_int (0 ∷ []) (l ++ tail p rest) p.affected_rows fits.rows_fit in
    let second =
      decode_lenenc_int_at-lenenc_int (0 ∷ a) (tail p rest) p.last_insert_id fits.id_fits in
    let behind : 1 + length a ≡ suc (length a) = omega arith in
    let moved : 0 ∷ (a ++ (l ++ tail p rest)) ≡ ((0 ∷ a) ++ l) ++ tail p rest =
      ap (λ t. 0 ∷ t) (sym (append_assoc a l (tail p rest))) in
    rw (first, behind, second, moved)
      (ok_from-tail ((0 ∷ a) ++ l) rest p _ (omega (arith, length-append a l)))

-- decode_ok_packet reads an OK packet back from its bytes, whatever follows them, if its rows
-- and its id are below 2^64 and its flags and its warnings below 2^16.
pub decode_ok_packet-ok_bytes :
    (p : OkPacket) (more : Bytes) → FitsOk p → decode_ok_packet (ok_bytes p ++ more) ≡ returned p
unfolding decode_ok_packet
decode_ok_packet-ok_bytes p more fits =
    rw (append_assoc (lenenc_int p.affected_rows), append_assoc (lenenc_int p.last_insert_id))
      (ground (arith, ok_body-numbers p more fits))

-- ERR packets, with and without an SQL state.
abbrev pub err_bytes : ℕ → Bytes → Bytes → Bytes
err_bytes code state message = 255 ∷ (u16le code ++ (35 ∷ (state ++ message)))

take_all : (xs : Bytes) (n : ℕ) → n ≡ length xs → take n xs ≡ xs
take_all xs n h = rw h (rw append-nil at (take-length-append xs []))

module _ (code : ℕ) (state message : Bytes) (n : length state ≡ 5) where
  state_slice : slice (err_bytes code state message) 4 9 ≡ state
  state_slice = rw n at (take-length-append state message)

  length-err_bytes : length (err_bytes code state message) ≡ 9 + length message
  length-err_bytes = omega (arith, length-append state message)

  message_slice :
      slice (err_bytes code state message) 9 (length (err_bytes code state message)) ≡ message
  message_slice =
      let behind : drop 5 (state ++ message) ≡ message =
        rw n at (drop-length-append state message) in
      rw behind (take_all message _ (omega (arith, length-err_bytes)))

module _ (utf8_from_bytes : Bytes → Outcome Utf8Error Text) where
  -- An ERR packet with a state of five bytes is read back as what the text decoder makes of the
  -- state and of the rest.
  pub decode_err_packet-err_bytes :
      (code : ℕ) (state message : Bytes) (sql_state text : Text)
      → length state ≡ 5
      → utf8_from_bytes state ≡ returned sql_state
      → utf8_from_bytes message ≡ returned text
      → decode_err_packet utf8_from_bytes (err_bytes code state message)
        ≡ returned (record { error_code = code; sql_state = sql_state; message = text })
  unfolding decode_err_packet err_state err_message
  decode_err_packet-err_bytes code state message sql_state text n s m =
      let read : code % 256 + code / 256 * 256 ≡ code = omega arith in
      rw
        (
          state_slice code state message n,
          s,
          err_message,
          message_slice code state message n,
          m,
          read,
        )
        (ground (arith, length-err_bytes code state message n))
