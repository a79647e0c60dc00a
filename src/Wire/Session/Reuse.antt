-- ===== src/Wire/Session/Reuse.antt =====
-- `reset_for_pool_reuse` of lib.drift: what it returns is a session that takes a command.
use drift_mariadb_client.Base.{refl, Bool, true, false, not, ◌||◌, [], ◌∷◌, Text, Bytes, Outcome}
use drift_mariadb_client.Base.{returned, raised, ltb, ◌==◌, nat_eq, if◌then◌else◌, length, inl, inr}
use drift_mariadb_client.Wire.{Decoded, byte_at, Utf8Error}
use drift_mariadb_client.Wire.Transport.{WireSession}
use drift_mariadb_client.Wire.Session.{Ran, begin_command, command_send_recv}
use drift_mariadb_client.Base.{if_either, if_true, if_false}
use drift_mariadb_client.Wire.Session.Commands.{
  set_autocommit, rollback, ping, reset_refused, reset_connection, is_unsupported, or_dead,
  if_reusable, reset_by_hand, after_reset, reset_for_pool_reuse,
}
use drift_mariadb_client.Wire.Session.Idle.{
  IsReady, IsIdle, Keeps, mark_dead-IsDead, then_run-Keeps, command_send_recv-Keeps,
  note_status-IsReady, begin_command-Keeps, ping-Keeps,
}
use drift_mariadb_client.Wire.Session.Queries.{set_autocommit-Keeps, rollback-Keeps}

if_reusable-Keeps : (s : WireSession) → IsIdle s → Keeps (if_reusable s)
unfolding if_reusable
if_reusable-Keeps s (inl h) = if_false Keeps (not s.state.reusable) _ _ (rw h.is_usable refl) h
if_reusable-Keeps s (inr h) = if_true Keeps (not s.state.reusable) _ _ (rw h.is_spent refl) (inr h)

or_dead-Keeps {ℓ} : {A : Type ℓ} (m : Decoded A × WireSession) → Keeps m → Keeps (or_dead m)
or_dead-Keeps (returned a, s) h = h
or_dead-Keeps (raised e, s) h = inr (mark_dead-IsDead s)

module _ (utf8_from_bytes : Bytes → Outcome Utf8Error Text) where
  pure_Keeps : (m : Decoded (Unit {0})) (s : WireSession) → IsReady s → Keeps (m, s)
  pure_Keeps (returned a) s h = h
  pure_Keeps (raised e) s h = inl h

  reset_connection-Keeps : (s : WireSession) → IsIdle s → Keeps (reset_connection utf8_from_bytes s)
  unfolding reset_connection
  reset_connection-Keeps s h =
      then_run-Keeps (begin_command s) _ (begin_command-Keeps s h) λ _ s1 h1.
        then_run-Keeps (command_send_recv (31 ∷ []) s1) _ (command_send_recv-Keeps (31 ∷ []) s1 h1)
          λ resp s2 h2. if_either Keeps (ltb (length resp) 1) _ _ (inr (mark_dead-IsDead s2)) (
            if_either Keeps (byte_at resp 0 == 0) _ _ (note_status-IsReady resp s2 h2) (
              if_either Keeps (byte_at resp 0 == 255) _ _
                (pure_Keeps (reset_refused utf8_from_bytes resp) s2 h2)
                (inr (mark_dead-IsDead s2))))

  -- A step that is left out where it is not needed.
  step_Keeps :
      (b : Bool) (m : Ran (Unit {0})) (s : WireSession)
      → IsReady s
      → Keeps m
      → Keeps (if b then m else (returned tt, s))
  step_Keeps b m s h k = if_either Keeps b _ _ k h

  reset_by_hand-Keeps : (s : WireSession) → IsReady s → Keeps (reset_by_hand utf8_from_bytes s)
  unfolding reset_by_hand
  reset_by_hand-Keeps s h =
      then_run-Keeps _ _
        (step_Keeps s.state.in_transaction _ s h
          (or_dead-Keeps (rollback utf8_from_bytes s) (rollback-Keeps utf8_from_bytes s (inl h))))
        λ _ s1 h1.
          then_run-Keeps _ _
            (step_Keeps (not s1.state.autocommit_enabled) _ s1 h1 (
              or_dead-Keeps (set_autocommit utf8_from_bytes true s1)
                (set_autocommit-Keeps utf8_from_bytes true s1 (inl h1))))
            λ _ s2 h2.
              then_run-Keeps _ _ (or_dead-Keeps (ping s2) (ping-Keeps s2 (inl h2)))
                (λ _ s3 h3. if_reusable-Keeps s3 (inl h3))

  after_reset-Keeps : (m : Ran (Unit {0})) → Keeps m → Keeps (after_reset utf8_from_bytes m)
  unfolding after_reset
  after_reset-Keeps (returned _, s) h = if_reusable-Keeps s (inl h)
  after_reset-Keeps (raised e, s) (inr h) =
      if_true Keeps (s.is_closed || not s.state.reusable) _ _ (rw h.is_shut refl) (inr h)
  after_reset-Keeps (raised e, s) (inl h) =
      if_either Keeps (s.is_closed || not s.state.reusable) _ _ (inl h) (
        if_either Keeps (is_unsupported e) _ _
          (reset_by_hand-Keeps (record s { reset_connection_supported = false })
            (record { is_open = h.is_open; is_free = h.is_free; is_usable = h.is_usable }))
          (inl h))

  -- On a session that is ready, or closed and not reusable, reset_for_pool_reuse leaves the
  -- session ready if it returns, whatever the server answers and however the stream fails, and
  -- if it raises then ready, or closed and not reusable.
  pub reset_for_pool_reuse-Keeps :
      (s : WireSession) → IsIdle s → Keeps (reset_for_pool_reuse utf8_from_bytes s)
  unfolding reset_for_pool_reuse
  reset_for_pool_reuse-Keeps s (inr h) = if_true Keeps s.is_closed _ _ h.is_shut (inr h)
  reset_for_pool_reuse-Keeps s (inl h) = if_either Keeps s.is_closed _ _ (inl h) (
      if_either Keeps s.active_statement _ _ (inl h) (
        if_either Keeps s.reset_connection_supported _ _
          (after_reset-Keeps (reset_connection utf8_from_bytes s)
            (reset_connection-Keeps s (inl h)))
          (reset_by_hand-Keeps s h)))
