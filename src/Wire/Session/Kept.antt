-- ===== src/Wire/Session/Kept.antt =====
-- What a read of the session and the rounds of `next_event` leave as it was, and what they take
-- from the stream.
use drift_mariadb_client.Base.{
  ℕ, zero, suc, ◌+◌, ◌-◌, ◌%◌, ◌≤◌, ◌<◌, ◌≡◌, refl, ◌∙◌, arith, not, List, [], ◌∷◌, ◌++◌, Bytes,
}
use drift_mariadb_client.Base.{
  returned, raised, ltb, ◌==◌, nat_eq, if_either, length, length-append, length-drop, drop,
  Bool-cases, Outcome-cases, inl, inr,
}
use drift_mariadb_client.Wire.{Decoded, error_at, wire_header_decode_failed}
use drift_mariadb_client.Wire.Header.{PacketHeader, decode_packet_header, max_payload_len}
use drift_mariadb_client.Wire.Transport.{
  Arrival, chunk, read_failure, leave, bytes_of, read_exact, WireSession, ◌then_run◌, read_bytes,
  read_body, session_read_packet,
}

abbrev pub unread : List Arrival → ℕ
unread arrivals = length (bytes_of arrivals)

unread-leave :
    (bs : Bytes) (arrivals : List Arrival)
    → unread (leave bs arrivals) ≡ length bs + unread arrivals
unread-leave [] arrivals = omega arith
unread-leave (b ∷ bs) arrivals = length-append (b ∷ bs) (bytes_of arrivals)

-- A read takes `n` bytes when it returns, and never gives any back.
abbrev pub Takes {ℓ} : {A : Type ℓ} → ℕ → ℕ → Decoded A × List Arrival → Type 0
Takes n before (returned _, left) = unread left + n ≤ before
Takes n before (raised _, left) = unread left ≤ before

Takes-later {ℓ} :
    {A : Type ℓ} (m : Decoded A × List Arrival) (n n' d before before' : ℕ)
    → n' ≤ n + d
    → before + d ≤ before'
    → Takes n before m
    → Takes n' before' m
Takes-later (returned _, left) n n' d before before' h k t = omega arith
Takes-later (raised _, left) n n' d before before' h k t = omega arith

read_exact-Takes :
    (n : ℕ) (arrivals : List Arrival) (out : Bytes)
    → Takes n (unread arrivals) (read_exact n arrivals out)
unfolding read_exact
read_exact-Takes zero arrivals out = omega arith
read_exact-Takes (suc need) [] out = omega arith
read_exact-Takes (suc need) (read_failure ∷ arrivals) out = omega arith
read_exact-Takes (suc need) (chunk [] ∷ arrivals) out = omega arith
read_exact-Takes (suc need) (chunk (b ∷ bs) ∷ arrivals) out =
    elim (Bool-cases (ltb (length bs) need))
      as (λ _.
        Takes (suc need) (unread (chunk (b ∷ bs) ∷ arrivals))
          (read_exact (suc need) (chunk (b ∷ bs) ∷ arrivals) out)) [
            | inl short ↦
                let fits : length bs < need = ground arith in
                rw short (
                  Takes-later _ (need - length bs) (suc need) (suc (length bs)) (unread arrivals) _
                    (omega arith) (omega (arith, length-append bs (bytes_of arrivals)))
                    (read_exact-Takes (need - length bs) arrivals (out ++ (b ∷ bs))))
            | inr long ↦
                let fits : need ≤ length bs = ground arith in
                rw long (
                  omega (
                    arith,
                    length-append bs (bytes_of arrivals),
                    unread-leave (drop need bs) arrivals,
                    length-drop need bs,
                  ))
          ]

-- What a read of the session cannot change.
pub record Kept (s s' : WireSession) : Type 0 where
  pub same_closed : s'.is_closed ≡ s.is_closed
  pub same_active : s'.active_statement ≡ s.active_statement
  pub same_state : s'.state ≡ s.state

-- The outcome of a read of a session: `n` bytes less, if it returns.
abbrev pub Read {ℓ} : {A : Type ℓ} → ℕ → WireSession → Decoded A × WireSession → Type 0
Read n s (r, s') = Kept s s' × Takes n (unread s.stream.arrivals) (r, s'.stream.arrivals)

read_bytes-Read : (n : ℕ) (s : WireSession) → Read n s (read_bytes n s)
unfolding read_bytes
read_bytes-Read n s = (
  record { same_closed = refl; same_active = refl; same_state = refl },
  read_exact-Takes n s.stream.arrivals [],
)

pub kept : (s : WireSession) → Kept s s
kept s = record { same_closed = refl; same_active = refl; same_state = refl }

read_body-Read : (hdr : PacketHeader) (s : WireSession) → Read 0 s (read_body hdr s)
unfolding read_body
read_body-Read hdr s =
    if_either (Read 0 s) (ltb max_payload_len hdr.payload_len) _ _ (kept s, omega arith)
      (if_either (Read 0 s) (not (hdr.sequence_id == s.expected_seq_id)) _ _ (kept s, omega arith)
        (renumbered (read_bytes-Read hdr.payload_len expecting)))
  where
    expecting : WireSession
    expecting = record s { expected_seq_id = (s.expected_seq_id + 1) % 256 }

    renumbered :
        Read hdr.payload_len expecting (read_bytes hdr.payload_len expecting)
        → Read 0 s (read_bytes hdr.payload_len expecting)
    renumbered (k, took) = (
      record {
        same_closed = k.same_closed;
        same_active = k.same_active;
        same_state = k.same_state;
      },
      Takes-later _ hdr.payload_len 0 0 _ _ (omega arith) (omega arith) took,
    )

-- Reads one after another.
Read-then {ℓ κ} :
    {A : Type ℓ} {B : Type κ} (n : ℕ) (s : WireSession) (m : Decoded A × WireSession)
    (k : A → WireSession → Decoded B × WireSession)
    → Read n s m
    → ((a : A) (s' : WireSession) → Read 0 s' (k a s'))
    → Read n s (m then_run k)
Read-then n s (raised e, s') k h step = h
Read-then n s (returned a, s') k (kept_so, took) step =
    let (kept_on, took_on) = step a s' in
    (
      record {
        same_closed = kept_on.same_closed ∙ kept_so.same_closed;
        same_active = kept_on.same_active ∙ kept_so.same_active;
        same_state = kept_on.same_state ∙ kept_so.same_state;
      },
      Takes-later _ 0 n n (unread s'.stream.arrivals) _ (omega arith) took took_on,
    )

pub session_read_packet-Read : (s : WireSession) → Read 4 s (session_read_packet s)
unfolding session_read_packet
session_read_packet-Read s = Read-then 4 s (read_bytes 4 s) _ (read_bytes-Read 4 s) with_header
  where
    with_header :
        (hdr_bytes : Bytes) (s' : WireSession)
        → Read 0 s' (elim (decode_packet_header hdr_bytes) as (λ _. Decoded Bytes × WireSession) [
          | returned hdr ↦ read_body hdr s'
          | raised _ ↦ (raised (error_at wire_header_decode_failed 0), s')
        ])
    with_header hdr_bytes s' = elim (Outcome-cases (decode_packet_header hdr_bytes)) [
      | inl (hdr, e) ↦ rw e (read_body-Read hdr s')
      | inr (x, e) ↦ rw e (kept s', omega arith)
    ]
