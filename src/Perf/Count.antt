-- ===== src/Perf/Count.antt =====
-- `_count_packets`, and why it agrees with the packets of tools/wire_fixture_extract.py.
use Prim.Native.Nat.{bit_or}
use drift_mariadb_client.Base.{ℕ, zero, suc, ◌+◌, ◌*◌, ◌^◌, ◌<◌, ◌≡◌, arith}
use drift_mariadb_client.Base.{List, [], ◌∷◌, ◌++◌, Text, Bytes, IsByte, Outcome, returned, raised}
use drift_mariadb_client.Base.{map_outcome, ltb, if◌then◌else◌, length, length-append, All}
use drift_mariadb_client.Base.Bits.{bit_or-shifted}
use drift_mariadb_client.Fixture
use drift_mariadb_client.Fixture.{Packet, ExtractError, byte_at, le24, packet_at, payload_error}
use drift_mariadb_client.Fixture.{packetize_loop, packetize}

-- The two messages of `SystemExit`. `out_of_rounds` is not Python's: the fuel ran out.
pub data CountError : Type 0 where
  truncated_packet_header truncated_packet_payload out_of_rounds : CountError

-- `stream[off] | (stream[off + 1] << 8) | (stream[off + 2] << 16)`
abbrev pub payload_len_at : Bytes → ℕ → ℕ
payload_len_at stream off =
    bit_or (bit_or (byte_at stream off) (byte_at stream (off + 1) * 2 ^ 8))
      (byte_at stream (off + 2) * 2 ^ 16)

pub count_loop : ℕ → Bytes → ℕ → ℕ → Outcome CountError ℕ
count_loop zero stream off packets =
    if ltb off (length stream) then raised out_of_rounds else returned packets
count_loop (suc fuel) stream off packets =
    let packet_len = 4 + payload_len_at stream off in
    let rest = count_loop fuel stream (off + packet_len) (packets + 1) in
    if ltb off (length stream)
    then if ltb (length stream) (off + 4)
      then raised truncated_packet_header
      else if ltb (length stream) (off + packet_len)
      then raised truncated_packet_payload
      else rest
    else returned packets

unfoldable pub count_packets : Bytes → Outcome CountError ℕ
unfolding count_loop
count_packets stream = count_loop (length stream) stream 0 0

byte_at-IsByte : (stream : Bytes) (i : ℕ) → All IsByte stream → IsByte (byte_at stream i)
byte_at-IsByte [] i h = omega arith
byte_at-IsByte (b ∷ bs) zero (h, hs) = h
byte_at-IsByte (b ∷ bs) (suc i) (h, hs) = byte_at-IsByte bs i hs

payload_len_at-le24 :
    (stream : Bytes) (off : ℕ)
    → All IsByte stream
    → payload_len_at stream off
      ≡ le24 (byte_at stream off) (byte_at stream (off + 1)) (byte_at stream (off + 2))
payload_len_at-le24 stream off hs =
    let b0 = byte_at stream off in
    let b1 = byte_at stream (off + 1) in
    let h0 : b0 < 2 ^ 8 = byte_at-IsByte stream off hs in
    let h1 : b1 < 2 ^ 8 = byte_at-IsByte stream (off + 1) hs in
    rw (bit_or-shifted 8 b0 b1 h0)
      (bit_or-shifted 16 (b0 + b1 * 2 ^ 8) (byte_at stream (off + 2)) (omega arith))

-- The two programs word their errors differently.
abbrev pub count_error : ExtractError → CountError
count_error (Fixture.truncated_header off) = truncated_packet_header
count_error Fixture.out_of_rounds = out_of_rounds
count_error _ = truncated_packet_payload

module _ (stream : Bytes) (direction : Text) (hs : All IsByte stream) where
  count_loop-packetize_loop :
      (fuel off : ℕ) (packets : List Packet)
      → count_loop fuel stream off (length packets)
        ≡ map_outcome count_error length (packetize_loop fuel stream direction off packets)
  unfolding count_loop packetize_loop
  count_loop-packetize_loop zero off packets = ground arith
  count_loop-packetize_loop (suc fuel) off packets =
      let n = le24 (byte_at stream off) (byte_at stream (off + 1)) (byte_at stream (off + 2)) in
      let more = packets ++ (packet_at stream off n ∷ []) in
      let next : off + (4 + n) ≡ off + 4 + n = omega arith in
      let count : length packets + 1 ≡ length more =
        omega (arith, length-append packets (packet_at stream off n ∷ [])) in
      rw (payload_len_at-le24 stream off hs, next, count)
        (ground (arith, count_loop-packetize_loop fuel (off + 4 + n) more))

  -- On a stream of bytes _count_packets returns the number of packets that _packetize cuts out,
  -- and fails exactly where that fails, at a header if and only if that fails at a header.
  pub count_packets-packetize :
      count_packets stream ≡ map_outcome count_error length (packetize stream direction)
  unfolding count_packets packetize
  count_packets-packetize = count_loop-packetize_loop (length stream) 0 []
