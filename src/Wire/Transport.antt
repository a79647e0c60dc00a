-- ===== src/Wire/Transport.antt =====
-- packages/mariadb-wire-proto/src/transport.drift, with the session's part of types.drift.
pub mod Chunks
pub mod Conversation
use drift_mariadb_client.Base.{
  ℕ, zero, suc, ◌+◌, ◌-◌, ◌%◌, ◌≡◌, refl, arith, Bool, true, false, not, List, [], ◌∷◌, ◌++◌, Bytes,
}
use drift_mariadb_client.Base.{
  returned, raised, ltb, leb, ◌==◌, nat_eq, if◌then◌else◌, length, take, drop,
}
use drift_mariadb_client.Base.Int.{pos}
use drift_mariadb_client.Wire.{
  Decoded, error_at, wire_read_eof, wire_read_failed, wire_write_failed, wire_header_decode_failed,
  wire_payload_too_large, wire_sequence_mismatch,
}
use drift_mariadb_client.Wire.Header.{
  PacketHeader, max_payload_len, encode_packet_header, decode_packet_header,
}

-- What a read finds: bytes that have arrived together, or an error.
pub data Arrival : Type 0 where
  chunk : Bytes → Arrival
  read_failure : Arrival

-- All bytes of the arrivals.
abbrev pub bytes_of : List Arrival → Bytes
bytes_of [] = []
bytes_of (chunk bs ∷ arrivals) = bs ++ bytes_of arrivals
bytes_of (read_failure ∷ arrivals) = bytes_of arrivals

-- What a write does: it takes so many bytes, or fails.
pub data Write : Type 0 where
  accepts : ℕ → Write
  write_failure : Write

-- The peer's part of a connection; after the last arrival it has closed its side.
pub record TcpStream : Type 0 where
  pub arrivals : List Arrival
  pub writes : List Write
  pub sent : Bytes

pub record WireSessionState : Type 0 where
  pub autocommit_enabled : Bool
  pub in_transaction : Bool
  pub reusable : Bool
  pub last_status_flags : ℕ
  pub last_warnings : ℕ

-- The fields that nothing here reads are left out.
pub record WireSession : Type 0 where
  pub stream : TcpStream
  pub is_closed : Bool
  pub active_statement : Bool
  pub expected_seq_id : ℕ
  pub reset_connection_supported : Bool
  pub metadata_suppression_negotiated : Bool
  pub state : WireSessionState

-- The bytes of an arrival that a read left.
abbrev pub leave : Bytes → List Arrival → List Arrival
leave [] arrivals = arrivals
leave (b ∷ bs) arrivals = chunk (b ∷ bs) ∷ arrivals

-- The loop of `_read_exact`, `need` bytes before its end. A round takes a whole arrival, or what it
-- needs of one.
unfoldable pub read_exact : ℕ → List Arrival → Bytes → Decoded Bytes × List Arrival
read_exact zero arrivals out = (returned out, arrivals)
read_exact (suc need) [] out = (raised (error_at wire_read_eof (length out)), [])
read_exact (suc need) (read_failure ∷ arrivals) out =
    (raised (error_at wire_read_failed (length out)), arrivals)
read_exact (suc need) (chunk [] ∷ arrivals) out =
    (raised (error_at wire_read_eof (length out)), arrivals)
read_exact (suc need) (chunk (b ∷ bs) ∷ arrivals) out =
    let more = read_exact (need - length bs) arrivals (out ++ (b ∷ bs)) in
    if ltb (length bs) need
    then more
    else (returned (out ++ (b ∷ take need bs)), leave (drop need bs) arrivals)

-- The loop of `_write_all`: how far it is, what is left, what the peer has.
unfoldable pub write_all : List Write → ℕ → Bytes → Bytes → Decoded (Unit {0}) × List Write × Bytes
write_all writes off [] sent = (returned tt, writes, sent)
write_all [] off (b ∷ bs) sent = (raised (error_at wire_write_failed off), [], sent)
write_all (write_failure ∷ writes) off (b ∷ bs) sent =
    (raised (error_at wire_write_failed off), writes, sent)
write_all (accepts zero ∷ writes) off (b ∷ bs) sent =
    (raised (error_at wire_write_failed off), writes, sent)
write_all (accepts (suc w) ∷ writes) off (b ∷ bs) sent =
    write_all writes (off + suc w) (drop w bs) (sent ++ (b ∷ take w bs))

abbrev pub with_arrivals : WireSession → List Arrival → WireSession
with_arrivals session arrivals = record session { stream = record stream { arrivals = arrivals } }
  where
    open session use {stream}

-- A result and the state that a call leaves.
infixl 5 ◌then_run◌
abbrev pub ◌then_run◌ {ℓ κ μ} :
    {A : Type ℓ} {S : Type κ} {B : Type μ} → Decoded A × S → (A → S → Decoded B × S) → Decoded B × S
(returned a, s) then_run k = k a s
(raised e, s) then_run k = (raised e, s)

unfoldable pub read_bytes : ℕ → WireSession → Decoded Bytes × WireSession
read_bytes n session =
    let (got, arrivals) = read_exact n session.stream.arrivals [] in
    (got, with_arrivals session arrivals)

-- What `session_read_packet` does with a header.
unfoldable pub read_body : PacketHeader → WireSession → Decoded Bytes × WireSession
read_body hdr session =
    if ltb max_payload_len hdr.payload_len
    then (raised (error_at wire_payload_too_large hdr.payload_len), session)
    else if not (hdr.sequence_id == session.expected_seq_id)
    then (raised (error_at wire_sequence_mismatch hdr.sequence_id), session)
    else read_bytes hdr.payload_len
        (record session { expected_seq_id = (session.expected_seq_id + 1) % 256 })

unfoldable pub session_read_packet : WireSession → Decoded Bytes × WireSession
session_read_packet session = read_bytes 4 session then_run λ hdr_bytes s.
    elim (decode_packet_header hdr_bytes) as (λ _. Decoded Bytes × WireSession) [
      | returned hdr ↦ read_body hdr s
      | raised _ ↦ (raised (error_at wire_header_decode_failed 0), s)
    ]

-- `write_packet` on the session's stream.
unfoldable pub write_packet : Bytes → ℕ → WireSession → Decoded (Unit {0}) × WireSession
write_packet payload seq session =
    elim (encode_packet_header (pos (length payload)) seq)
      as (λ _. Decoded (Unit {0}) × WireSession) [
        | raised e ↦ (raised e, session)
        | returned hdr ↦
            let (done, writes, sent) =
              write_all session.stream.writes 0 (hdr ++ payload) session.stream.sent in
            (
              done,
              record session {
                stream = record {
                  arrivals = session.stream.arrivals;
                  writes = writes;
                  sent = sent;
                };
              },
            )
      ]

unfoldable pub session_write_packet : Bytes → WireSession → Decoded (Unit {0}) × WireSession
session_write_packet payload session =
    write_packet payload session.expected_seq_id
      (record session { expected_seq_id = (session.expected_seq_id + 1) % 256 })

abbrev pub session_reset_seq : WireSession → WireSession
session_reset_seq session = record session { expected_seq_id = 0 }
