-- ===== src/Wire/Session/Idle.antt =====
-- Between commands a session of lib.drift is ready or dead.
use drift_mariadb_client.Base.{◌≡◌, refl, ap, ◌∙◌, arith, true, false, not, ◌||◌, [], ◌∷◌, Bytes}
use drift_mariadb_client.Base.{
  returned, raised, ltb, ◌==◌, nat_eq, length, ◌⊎◌, inl, inr, Outcome-cases,
}
use drift_mariadb_client.Base.Int.{pos}
use drift_mariadb_client.Wire.{Decoded, error_at, session_closed, byte_at}
use drift_mariadb_client.Wire.Header.{encode_packet_header}
use drift_mariadb_client.Wire.Responses.{decode_ok_packet}
use drift_mariadb_client.Wire.Transport.{
  WireSession, ◌then_run◌, session_read_packet, write_packet, session_write_packet,
}
use drift_mariadb_client.Wire.Session.{
  apply_status, mark_dead, require_ready, begin_command, or_die, command_send_recv,
}
use drift_mariadb_client.Base.{if_either}
use drift_mariadb_client.Wire.Session.Kept.{Kept, session_read_packet-Read}
use drift_mariadb_client.Wire.Session.Open.{IsDead}
use drift_mariadb_client.Wire.Session.Commands.{note_status, ping}

pub record IsReady (s : WireSession) : Type 0 where
  pub is_open : s.is_closed ≡ false
  pub is_free : s.active_statement ≡ false
  pub is_usable : s.state.reusable ≡ true

abbrev pub IsIdle : WireSession → Type 0
IsIdle s = IsReady s ⊎ IsDead s

-- After a command that succeeds the session is ready, after one that fails it is ready or dead.
abbrev pub Keeps {ℓ} : {A : Type ℓ} → Decoded A × WireSession → Type 0
Keeps (returned _, s) = IsReady s
Keeps (raised _, s) = IsIdle s

pub mark_dead-IsDead : (s : WireSession) → IsDead (mark_dead s)
unfolding mark_dead
mark_dead-IsDead s = record { is_shut = refl; is_spent = refl }

pub Keeps-IsIdle {ℓ} : {A : Type ℓ} (m : Decoded A × WireSession) → Keeps m → IsIdle m.1
Keeps-IsIdle (returned a, s) h = inl h
Keeps-IsIdle (raised e, s) h = h

pub then_run-Keeps {ℓ κ} :
    {A : Type ℓ} {B : Type κ} (m : Decoded A × WireSession)
    (k : A → WireSession → Decoded B × WireSession)
    → Keeps m
    → ((a : A) (s : WireSession) → IsReady s → Keeps (k a s))
    → Keeps (m then_run k)
then_run-Keeps (returned a, s) k h step = step a s h
then_run-Keeps (raised e, s) k h step = h

pub require_ready-IsReady : (s : WireSession) → IsReady s → require_ready s ≡ returned tt
unfolding require_ready
require_ready-IsReady s h = ground (arith, h.is_open, h.is_free, h.is_usable)

pub require_ready-IsDead :
    (s : WireSession) → IsDead s → require_ready s ≡ raised (error_at session_closed 0)
unfolding require_ready
require_ready-IsDead s h = ground (arith, h.is_shut)

pub require_ready-Keeps : (s : WireSession) → IsIdle s → Keeps (require_ready s, s)
require_ready-Keeps s (inl h) = rw (require_ready-IsReady s h) h
require_ready-Keeps s (inr h) = rw (require_ready-IsDead s h) (inr h)

Kept-IsReady : (s s' : WireSession) → Kept s s' → IsReady s → IsReady s'
Kept-IsReady s s' k h = record {
  is_open = k.same_closed ∙ h.is_open;
  is_free = k.same_active ∙ h.is_free;
  is_usable = ap (λ state. state.reusable) k.same_state ∙ h.is_usable;
}

or_die-Keeps {ℓ} : {A : Type ℓ} (m : Decoded A × WireSession) → IsReady m.1 → Keeps (or_die m)
or_die-Keeps (returned a, s) h = h
or_die-Keeps (raised e, s) h = inr (mark_dead-IsDead s)

pub session_write_packet-Kept :
    (payload : Bytes) (s : WireSession) → Kept s (session_write_packet payload s).1
unfolding session_write_packet write_packet
session_write_packet-Kept payload s =
    elim (Outcome-cases (encode_packet_header (pos (length payload)) s.expected_seq_id)) [
      | inl (hdr, e) ↦
          rw (session_write_packet, write_packet, e)
            (record { same_closed = refl; same_active = refl; same_state = refl })
      | inr (x, e) ↦
          rw (session_write_packet, write_packet, e)
            (record { same_closed = refl; same_active = refl; same_state = refl })
    ]

pub command_send_recv-Keeps :
    (payload : Bytes) (s : WireSession) → IsReady s → Keeps (command_send_recv payload s)
unfolding command_send_recv
command_send_recv-Keeps payload s h =
    then_run-Keeps (or_die (session_write_packet payload s)) _
      (or_die-Keeps (session_write_packet payload s)
        (Kept-IsReady s _ (session_write_packet-Kept payload s) h))
      (λ _ s' h'.
        or_die-Keeps (session_read_packet s')
          (Kept-IsReady s' _ (session_read_packet-Read s').0 h'))

pub note_status-IsReady :
    (resp : Bytes) (s : WireSession) → IsReady s → IsReady (note_status resp s)
unfolding note_status apply_status
note_status-IsReady resp s h = elim (Outcome-cases (decode_ok_packet resp)) [
  | inl (ok, e) ↦
      rw (note_status, e)
        (record { is_open = h.is_open; is_free = h.is_free; is_usable = h.is_usable })
  | inr (x, e) ↦ rw (note_status, e) h
]

pub begin_command-Keeps : (s : WireSession) → IsIdle s → Keeps (begin_command s)
unfolding begin_command
begin_command-Keeps s h =
    then_run-Keeps (require_ready s, s) _ (require_ready-Keeps s h)
      (λ _ s' h'. record { is_open = h'.is_open; is_free = h'.is_free; is_usable = h'.is_usable })

pub ping-Keeps : (s : WireSession) → IsIdle s → Keeps (ping s)
unfolding ping
ping-Keeps s h = then_run-Keeps (begin_command s) _ (begin_command-Keeps s h) λ _ s1 h1.
    then_run-Keeps (command_send_recv (14 ∷ []) s1) _ (command_send_recv-Keeps (14 ∷ []) s1 h1)
      λ resp s2 h2.
        if_either Keeps (ltb (length resp) 1 || not (byte_at resp 0 == 0)) _ _
          (inr (mark_dead-IsDead s2)) (note_status-IsReady resp s2 h2)
