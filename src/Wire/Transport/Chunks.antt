-- ===== src/Wire/Transport/Chunks.antt =====
-- transport.drift does not depend on how the bytes of a connection are cut into chunks.
use drift_mariadb_client.Base.{
  ℕ, zero, suc, ◌+◌, ◌-◌, ◌/◌, ◌%◌, ◌^◌, ◌≤◌, ◌<◌, ◌≡◌, refl, sym, ◌∙◌, arith, List, [], ◌∷◌, ◌++◌,
  append_assoc, append-nil, Bytes,
}
use drift_mariadb_client.Base.{
  returned, ltb, nat_eq, Bool-cases, inl, inr, length, take, drop, length-append, take-append_past,
  drop-append_past, take-append_within, drop-append_within, take-length-append, drop-length-append,
}
use drift_mariadb_client.Wire.{Decoded}
use drift_mariadb_client.Wire.Transport.{
  Arrival, bytes_of, chunk, read_failure, leave, read_exact, WireSession, with_arrivals, read_bytes,
  read_body, session_read_packet, ◌then_run◌,
}
use drift_mariadb_client.Wire.Header.{decode_packet_header}
use drift_mariadb_client.Fixture.Framing.{WirePacket, FitsHeader, encode}

-- No read fails, and none finds the peer to have closed before the last byte.
abbrev pub IsFlowing : List Arrival → Type 0
IsFlowing [] = Unit {0}
IsFlowing (chunk bs ∷ arrivals) = (0 < length bs) × IsFlowing arrivals
IsFlowing (read_failure ∷ arrivals) = ⊥

leave-IsFlowing :
    (bs : Bytes) (arrivals : List Arrival) → IsFlowing arrivals → IsFlowing (leave bs arrivals)
leave-IsFlowing [] arrivals h = h
leave-IsFlowing (b ∷ bs) arrivals h = (omega arith, h)

bytes_of-leave :
    (bs : Bytes) (arrivals : List Arrival) → bytes_of (leave bs arrivals) ≡ bs ++ bytes_of arrivals
bytes_of-leave [] arrivals = refl
bytes_of-leave (b ∷ bs) arrivals = refl

-- The outcome of a read of the first `n` bytes.
abbrev pub Got : ℕ → Bytes → List Arrival → Decoded Bytes × List Arrival → Type 0
Got n out arrivals result =
    (left : List Arrival) × (result ≡ (returned (out ++ take n (bytes_of arrivals)), left))
    × IsFlowing left
    × (bytes_of left ≡ drop n (bytes_of arrivals))

pub read_exact-Got :
    (n : ℕ) (arrivals : List Arrival) (out : Bytes)
    → IsFlowing arrivals
    → n ≤ length (bytes_of arrivals)
    → Got n out arrivals (read_exact n arrivals out)
unfolding read_exact
read_exact-Got zero arrivals out flows enough = (arrivals, rw (append-nil out) refl, flows, refl)
read_exact-Got (suc need) [] out flows enough = absurd (omega arith)
read_exact-Got (suc need) (chunk [] ∷ arrivals) out flows enough = absurd (omega arith)
read_exact-Got (suc need) (read_failure ∷ arrivals) out flows enough = elim flows [ ]
read_exact-Got (suc need) (chunk (b ∷ bs) ∷ arrivals) out flows enough =
    elim (Bool-cases (ltb (length bs) need)) [
      | inl short ↦
          let fits : length bs ≤ need = ground arith in
          let (left, e, flow, rest) =
            read_exact-Got (need - length bs) arrivals (out ++ (b ∷ bs)) flows.1
              (omega (arith, length-append bs (bytes_of arrivals))) in
          rw short (
            left,
            rw (take-append_past need bs (bytes_of arrivals) fits) (e ∙ rw append_assoc refl),
            flow,
            rest ∙ sym (drop-append_past need bs (bytes_of arrivals) fits),
          )
      | inr long ↦
          let fits : need ≤ length bs = ground arith in
          rw long (
            leave (drop need bs) arrivals,
            rw (take-append_within need bs (bytes_of arrivals) fits) refl,
            leave-IsFlowing (drop need bs) arrivals flows.1,
            bytes_of-leave (drop need bs) arrivals
                ∙ sym (drop-append_within need bs (bytes_of arrivals) fits),
          )
    ]

-- What the peer has sent and this side has not read.
abbrev pub Holds : WireSession → Bytes → Type 0
Holds session bytes = IsFlowing session.stream.arrivals × (bytes_of session.stream.arrivals ≡ bytes)

-- A read of a session that gives `bytes`, leaves `more`, and else changes the session by `f`.
abbrev pub Reads :
    WireSession → (WireSession → WireSession) → Bytes → Bytes → Decoded Bytes × WireSession → Type 0
Reads session f bytes more result =
    (left : List Arrival) × (result ≡ (returned bytes, with_arrivals (f session) left))
    × IsFlowing left
    × (bytes_of left ≡ more)

Got-Reads :
    (session : WireSession) (bytes more : Bytes) (n : ℕ)
    → n ≡ length bytes
    → bytes_of session.stream.arrivals ≡ bytes ++ more
    → Got n [] session.stream.arrivals (read_exact n session.stream.arrivals [])
    → Reads session (λ s. s) bytes more (read_bytes n session)
unfolding read_bytes
Got-Reads session bytes more n h has (left, e, flow, rest) = rw e (
  left,
  rw (has, h, take-length-append bytes more) refl,
  flow,
  rest ∙ rw (has, h) (drop-length-append bytes more),
)

read_bytes-Reads :
    (session : WireSession) (bytes more : Bytes) (n : ℕ)
    → n ≡ length bytes
    → Holds session (bytes ++ more)
    → Reads session (λ s. s) bytes more (read_bytes n session)
read_bytes-Reads session bytes more n h (flows, has) = Got-Reads session bytes more n h has (
    read_exact-Got n session.stream.arrivals [] flows
      (rw has (omega (arith, length-append bytes more))))

abbrev pub next_seq : WireSession → WireSession
next_seq session = record session { expected_seq_id = (session.expected_seq_id + 1) % 256 }

abbrev header_of : WirePacket → Bytes
header_of p =
    length p.payload % 2 ^ 8
    ∷ length p.payload / 2 ^ 8 % 2 ^ 8
    ∷ length p.payload / 2 ^ 16
    ∷ p.seq
    ∷ []

decode-header_of :
    (p : WirePacket)
    → FitsHeader p
    → decode_packet_header (header_of p)
      ≡ returned (record { payload_len = length p.payload; sequence_id = p.seq })
unfolding decode_packet_header
decode-header_of p fits = ground arith

read_body-Reads :
    (session : WireSession) (p : WirePacket) (more : Bytes)
    → FitsHeader p
    → p.seq ≡ session.expected_seq_id
    → Holds session (p.payload ++ more)
    → Reads session next_seq p.payload more
        (read_body (record { payload_len = length p.payload; sequence_id = p.seq }) session)
unfolding read_body
read_body-Reads session p more fits seq holds =
    ground (arith, read_bytes-Reads (next_seq session) p.payload more (length p.payload) refl holds)

behind_header :
    (session : WireSession) (p : WirePacket) (more : Bytes)
    → FitsHeader p
    → p.seq ≡ session.expected_seq_id
    → Reads session (λ s. s) (header_of p) (p.payload ++ more) (read_bytes 4 session)
    → Reads session next_seq p.payload more (session_read_packet session)
unfolding session_read_packet
behind_header session p more fits seq (left, e, flow, rest) =
    rw (e, ◌then_run◌, decode-header_of p fits)
      (read_body-Reads (with_arrivals session left) p more fits seq (flow, rest))

-- The packet that the sequence expects is read, whatever chunks it comes in.
pub session_read_packet-Reads :
    (session : WireSession) (p : WirePacket) (more : Bytes)
    → FitsHeader p
    → p.seq ≡ session.expected_seq_id
    → Holds session (encode p ++ more)
    → Reads session next_seq p.payload more (session_read_packet session)
unfolding encode
session_read_packet-Reads session p more fits seq holds =
    behind_header session p more fits seq
      (read_bytes-Reads session (header_of p) (p.payload ++ more) 4 refl holds)
