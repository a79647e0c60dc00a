-- ===== src/Wire/Transport/Conversation.antt =====
-- transport.drift at both ends of a connection: what one session writes, another reads.
use drift_mariadb_client.Base.{
  ℕ, zero, suc, ◌+◌, ◌%◌, ◌^◌, ◌<◌, ◌≡◌, refl, sym, ap, ◌∙◌, arith, List, [], ◌∷◌, ◌++◌,
  append_assoc, append-nil, Bytes,
}
use drift_mariadb_client.Base.{
  returned, raised, map_outcome, Outcome-cases, inl, inr, length, All, take, drop, take-append-drop,
}
use drift_mariadb_client.Base.Int.{pos}
use drift_mariadb_client.Wire.{Decoded}
use drift_mariadb_client.Wire.Header.{
  encode_packet_header, encode_packet_header-IsHeader, encode_packet_header-encode,
}
use drift_mariadb_client.Wire.Transport.{
  Arrival, Write, accepts, write_failure, write_all, WireSession, ◌then_run◌, write_packet,
  session_write_packet, session_read_packet, with_arrivals,
}
use drift_mariadb_client.Wire.Transport.Chunks.{Holds, Reads, next_seq, session_read_packet-Reads}
use drift_mariadb_client.Fixture.Framing.{WirePacket, FitsHeader, encode, stream_of}

-- A peer that takes every write, in however many pieces, has got all of it.
write_all-sent :
    (writes left : List Write) (off : ℕ) (bytes sent sent' : Bytes)
    → write_all writes off bytes sent ≡ (returned tt, left, sent')
    → sent' ≡ sent ++ bytes
unfolding write_all
write_all-sent writes left off [] sent sent' h = rw append-nil cc
write_all-sent [] left off (b ∷ bs) sent sent' h = absurd cc
write_all-sent (write_failure ∷ writes) left off (b ∷ bs) sent sent' h = absurd cc
write_all-sent (accepts zero ∷ writes) left off (b ∷ bs) sent sent' h = absurd cc
write_all-sent (accepts (suc w) ∷ writes) left off (b ∷ bs) sent sent' h =
    write_all-sent writes left (off + suc w) (drop w bs) (sent ++ (b ∷ take w bs)) sent' h
    ∙ append_assoc sent (b ∷ take w bs) (drop w bs)
    ∙ ap (λ t. sent ++ (b ∷ t)) (take-append-drop w bs)

abbrev numbered : ℕ → Bytes → WirePacket
numbered seq payload = record { seq = seq; payload = payload }

-- The packet that a write adds to what was sent.
abbrev Adds : WireSession → Bytes → WireSession → Type 0
Adds session payload after =
    (after.stream.sent ≡ session.stream.sent ++ encode (numbered session.expected_seq_id payload))
    × (after.expected_seq_id ≡ (session.expected_seq_id + 1) % 256)
    × (length payload < 2 ^ 24)

session_write_packet-Adds :
    (session after : WireSession) (payload : Bytes)
    → session_write_packet payload session ≡ (returned tt, after)
    → Adds session payload after
unfolding session_write_packet write_packet
session_write_packet-Adds session after payload h =
    elim (Outcome-cases (encode_packet_header (pos (length payload)) session.expected_seq_id)) [
      | inr (e, bad) ↦ absurd (grind (arith, h, bad))
      | inl (hdr, good) ↦
          let numbered_packet = numbered session.expected_seq_id payload in
          let (small, _) = encode_packet_header-IsHeader (length payload) _ hdr good in
          let w = write_all session.stream.writes 0 (hdr ++ payload) session.stream.sent in
          let made = rw (session_write_packet, write_packet, good) at h in
          let whole : w.2 ≡ session.stream.sent ++ (hdr ++ payload) =
            write_all-sent _ w.1 0 (hdr ++ payload) _ w.2
              (ap (λ d. (d, w.1, w.2)) (ap (λ r. r.0) made)) in
          (
            sym (ap (λ r. r.1.stream.sent) made)
                ∙ whole
                ∙ ap (λ t. session.stream.sent ++ t)
                    (encode_packet_header-encode numbered_packet hdr good),
            sym (ap (λ r. r.1.expected_seq_id) made),
            omega arith,
          )
    ]

-- One packet after another.
abbrev pub write_packets : List Bytes → WireSession → Decoded (Unit {0}) × WireSession
write_packets [] session = (returned tt, session)
write_packets (payload ∷ payloads) session =
    session_write_packet payload session then_run λ _ s. write_packets payloads s

abbrev pub read_packets : ℕ → WireSession → Decoded (List Bytes) × WireSession
read_packets zero session = (returned [], session)
read_packets (suc n) session = session_read_packet session then_run λ payload s.
    read_packets n s then_run λ payloads s'. (returned (payload ∷ payloads), s')

-- The payloads as packets, numbered on from `seq`.
abbrev pub packets_from : ℕ → List Bytes → List WirePacket
packets_from seq [] = []
packets_from seq (payload ∷ payloads) =
    numbered seq payload ∷ packets_from ((seq + 1) % 256) payloads

then_run-eq-returned {ℓ κ μ} :
    {A : Type ℓ} {S : Type κ} {B : Type μ} (m : Decoded A × S) (k : A → S → Decoded B × S) {b : B}
    {s' : S}
    → (m then_run k) ≡ (returned b, s')
    → (a : A) × (s : S) × (m ≡ (returned a, s)) × (k a s ≡ (returned b, s'))
then_run-eq-returned (returned a, s) k h = (a, s, refl, h)
then_run-eq-returned (raised e, s) k h = absurd cc

abbrev Wrote : WireSession → List Bytes → WireSession → Type 0
Wrote session payloads after =
    (after.stream.sent
      ≡ session.stream.sent ++ stream_of (packets_from session.expected_seq_id payloads))
    × All FitsHeader (packets_from session.expected_seq_id payloads)

write_packets-Wrote :
    (payloads : List Bytes) (session after : WireSession)
    → write_packets payloads session ≡ (returned tt, after)
    → Wrote session payloads after
write_packets-Wrote [] session after h = (rw append-nil (sym (ap (λ r. r.1.stream.sent) h)), tt)
write_packets-Wrote (payload ∷ payloads) session after h =
    let (_, s, first, rest) = then_run-eq-returned (session_write_packet payload session) _ h in
    let (sent, seq, small) = session_write_packet-Adds session s payload first in
    let (all_sent, fit) = write_packets-Wrote payloads s after rest in
    (rw (sent, seq, append_assoc) at all_sent, (small, rw seq at fit))

and_rest :
    (payload : Bytes) (payloads : List Bytes) (m : Decoded (List Bytes) × WireSession)
    → m.0 ≡ returned payloads
    → (m then_run λ rest s. (returned (payload ∷ rest), s)).0 ≡ returned (payload ∷ payloads)
and_rest payload payloads (returned rest, s) h = ap (map_outcome (λ e. e) (λ ps. payload ∷ ps)) h
and_rest payload payloads (raised e, s) h = absurd cc

-- The rest of a stream whose first packet is read.
read_behind :
    (payload more : Bytes) (payloads : List Bytes) (session : WireSession)
    → Reads session next_seq payload more (session_read_packet session)
    → ((left : List Arrival)
        → Holds (with_arrivals (next_seq session) left) more
        → (read_packets (length payloads) (with_arrivals (next_seq session) left)).0
          ≡ returned payloads)
    → (read_packets (suc (length payloads)) session).0 ≡ returned (payload ∷ payloads)
read_behind payload more payloads session (left, e, flow, rest) go =
    rw (e, ◌then_run◌) (and_rest payload payloads _ (go left (flow, rest)))

read_packets-stream_of :
    (payloads : List Bytes) (session : WireSession)
    → All FitsHeader (packets_from session.expected_seq_id payloads)
    → Holds session (stream_of (packets_from session.expected_seq_id payloads))
    → (read_packets (length payloads) session).0 ≡ returned payloads
read_packets-stream_of [] session fit holds = refl
read_packets-stream_of (payload ∷ payloads) session (fits, fit) holds =
    let packet = numbered session.expected_seq_id payload in
    let more = stream_of (packets_from ((session.expected_seq_id + 1) % 256) payloads) in
    read_behind payload more payloads session
      (session_read_packet-Reads session packet more fits refl holds)
      (λ left h. read_packets-stream_of payloads (with_arrivals (next_seq session) left) fit h)

-- If one session has written payloads without an error and nothing before them, and another with
-- the same sequence number gets these bytes by reads that neither fail nor end early, then it
-- reads exactly the payloads in their order, however writes and reads are cut.
pub read_packets-write_packets :
    (payloads : List Bytes) (writer after reader : WireSession)
    → write_packets payloads writer ≡ (returned tt, after)
    → writer.stream.sent ≡ []
    → reader.expected_seq_id ≡ writer.expected_seq_id
    → Holds reader after.stream.sent
    → (read_packets (length payloads) reader).0 ≡ returned payloads
read_packets-write_packets payloads writer after reader h fresh same holds =
    let (sent, fit) = write_packets-Wrote payloads writer after h in
    read_packets-stream_of payloads reader (rw same fit)
      (rw same (holds.0, holds.1 ∙ rw fresh at sent))
