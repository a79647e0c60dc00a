-- ===== src/Wire/Session/Queries.antt =====
-- A query of lib.drift and the commands that must end with an OK packet keep a session ready or dead.
use drift_mariadb_client.Base.{
  ℕ, zero, suc, ◌≡◌, refl, arith, Bool, true, false, Text, Bytes, Outcome, codes,
}
use drift_mariadb_client.Base.{returned, raised, nat_eq, inl, inr}
use drift_mariadb_client.Wire.{Decoded, error_at, session_closed, OkPacket, Utf8Error}
use drift_mariadb_client.Wire.Transport.{WireSession, ◌then_run◌, session_reset_seq}
use drift_mariadb_client.Wire.Session.{Ran, mark_dead, require_ready, command_send_recv}
use drift_mariadb_client.Base.{if_false, if_true}
use drift_mariadb_client.Wire.Session.Kept.{unread}
use drift_mariadb_client.Wire.Session.Statement.{
  Statement, StatementEvent, row, result_set_end, statement_end, statement_err, Stepped, next_event,
  init_statement_from_first,
}
use drift_mariadb_client.Wire.Session.Drain.{
  fresh_statement, or_abandon, in_statement, com_query, begin_statement, query, skip_remaining,
  skip_loop, destroy,
}
use drift_mariadb_client.Wire.Session.Open.{
  IsOpen, IsFinished, IsDead, After, init_statement_from_first-After,
}
use drift_mariadb_client.Wire.Session.Events.{Leaves, next_event-Leaves}
use drift_mariadb_client.Wire.Session.Drained.{Settled, destroy-Settled}
use drift_mariadb_client.Wire.Session.Commands.{
  expect_ok, query_expect_ok, guarded, set_autocommit, rollback,
}
use drift_mariadb_client.Wire.Session.Idle.{
  IsReady, IsIdle, Keeps, mark_dead-IsDead, then_run-Keeps, require_ready-Keeps,
  command_send_recv-Keeps,
}

-- What a query leaves: an open statement, or a session without one.
abbrev pub Begun : Stepped (Unit {0}) → Type 0
Begun (returned _, st) = IsOpen true (unread st.session.stream.arrivals) 0 st
Begun (raised _, st) = IsIdle st.session

module _ (utf8_from_bytes : Bytes → Outcome Utf8Error Text) where
  or_abandon-Begun : (m : Stepped (Unit {0})) (n : ℕ) → After true n 0 m → Begun (or_abandon m)
  or_abandon-Begun (returned tt, st) n h = record {
    going_on = h.going_on;
    still_open = h.still_open;
    in_use = h.in_use;
    same_reusable = h.same_reusable;
    bounded = omega arith;
  }
  or_abandon-Begun (raised e, st) n h =
      inr (unfold mark_dead in record { is_shut = refl; is_spent = refl })

  begin_statement-Begun :
      (s : WireSession) (first : Bytes)
      → IsReady s
      → Begun (begin_statement utf8_from_bytes s first)
  unfolding begin_statement
  begin_statement-Begun s first h =
      or_abandon-Begun (init_statement_from_first utf8_from_bytes begun first)
        (unread s.stream.arrivals)
        (init_statement_from_first-After true (unread s.stream.arrivals) utf8_from_bytes begun first
          (record {
            going_on = refl;
            still_open = h.is_open;
            in_use = refl;
            same_reusable = h.is_usable;
            bounded = omega arith;
          }))
    where
      begun : Statement
      begun = fresh_statement (record s { active_statement = true })

  in_statement-Begun {ℓ} :
      {A : Type ℓ} (m : Decoded A × WireSession) (k : A → Statement → Stepped (Unit {0}))
      → Keeps m
      → ((a : A) (s : WireSession) → IsReady s → Begun (k a (fresh_statement s)))
      → Begun (in_statement m then_run k)
  in_statement-Begun (returned a, s) k h step = step a s h
  in_statement-Begun (raised e, s) k h step = h

  pub query-Begun : (sql : Bytes) (s : WireSession) → IsIdle s → Begun (query utf8_from_bytes sql s)
  unfolding query
  query-Begun sql s h =
      in_statement-Begun (require_ready s, s) _ (require_ready-Keeps s h)
        λ _ s1 h1.
          in_statement-Begun (command_send_recv (com_query sql) (session_reset_seq s1)) _
            (command_send_recv-Keeps (com_query sql) (session_reset_seq s1)
              (record { is_open = h1.is_open; is_free = h1.is_free; is_usable = h1.is_usable }))
            (λ first s2 h2. begin_statement-Begun s2 first h2)

  -- The session that the statement leaves behind its first event.
  abbrev LeftBy : Stepped StatementEvent → Type 0
  LeftBy (r, st) = IsIdle (destroy utf8_from_bytes st)

  Settled-IsIdle : (s : WireSession) → Settled utf8_from_bytes true s → IsIdle s
  Settled-IsIdle s (inl (a, b, c)) = inl (record { is_open = a; is_free = b; is_usable = c })
  Settled-IsIdle s (inr h) = inr h

  destroy-IsFinished : (st : Statement) → IsFinished true st → IsReady (destroy utf8_from_bytes st)
  unfolding destroy
  destroy-IsFinished st h =
      if_true IsReady st.consumed_terminal _ _ h.is_through
        (record { is_open = h.still_open; is_free = h.is_free; is_usable = h.same_reusable })

  next_event-IsDead :
      (st : Statement)
      → st.consumed_terminal ≡ false
      → IsDead st.session
      → next_event utf8_from_bytes st ≡ (raised (error_at session_closed 0), st)
  unfolding next_event
  next_event-IsDead st going h =
      if_false (λ m. m ≡ (raised (error_at session_closed 0), st)) st.consumed_terminal _ _ going
        (if_true (λ m. m ≡ (raised (error_at session_closed 0), st)) st.session.is_closed _ _
          h.is_shut refl)

  abbrev IsLost : Stepped (Unit {0}) → Type 0
  IsLost (returned _, st) = ⊥
  IsLost (raised _, st) = Unit {0}

  skip_loop-IsLost :
      (fuel : ℕ) (st : Statement)
      → st.consumed_terminal ≡ false
      → IsDead st.session
      → IsLost (skip_loop utf8_from_bytes fuel st)
  unfolding skip_loop
  skip_loop-IsLost zero st going h = tt
  skip_loop-IsLost (suc fuel) st going h = rw (next_event-IsDead st going h) tt

  lost-IsDead :
      (m : Stepped (Unit {0}))
      → IsLost m
      → IsDead (elim m.0 as (λ _. WireSession) [
        | returned _ ↦ m.1.session
        | raised _ ↦ mark_dead m.1.session
      ])
  lost-IsDead (returned _, st) h = elim h [ ]
  lost-IsDead (raised _, st) h = mark_dead-IsDead st.session

  destroy-IsDead :
      (st : Statement)
      → st.consumed_terminal ≡ false
      → IsDead st.session
      → IsDead (destroy utf8_from_bytes st)
  unfolding destroy skip_remaining
  destroy-IsDead st going h = if_false IsDead st.consumed_terminal _ _ going (
      lost-IsDead (skip_remaining utf8_from_bytes st)
        (if_false IsLost st.consumed_terminal _ _ going (skip_loop-IsLost _ st going h)))

  -- What the first event makes of a command that must end with an OK packet.
  event_Keeps :
      (base n : ℕ) (m : Stepped StatementEvent)
      → Leaves true n m
      → Keeps (elim m.0 as (λ _. Ran OkPacket) [
        | raised e ↦ (raised e, destroy utf8_from_bytes m.1)
        | returned ev ↦ (expect_ok base ev, destroy utf8_from_bytes m.1)
      ])
  unfolding expect_ok
  event_Keeps base n (returned (row cells), st) h =
      Settled-IsIdle _ ((destroy-Settled utf8_from_bytes true n 4 st h).1)
  event_Keeps base n (returned result_set_end, st) h =
      Settled-IsIdle _ ((destroy-Settled utf8_from_bytes true n 4 st h).1)
  event_Keeps base n (returned (statement_end ok), st) h = destroy-IsFinished st h
  event_Keeps base n (returned (statement_err err), st) h = inl (destroy-IsFinished st h)
  event_Keeps base n (raised e, st) (going, h) = inr (destroy-IsDead st going h)

  Begun-Keeps :
      (base : ℕ) (m : Stepped (Unit {0}))
      → Begun m
      → Keeps (elim m.0 as (λ _. Ran OkPacket) [
        | raised e ↦ (raised e, m.1.session)
        | returned _ ↦ elim (next_event utf8_from_bytes m.1).0 as (λ _. Ran OkPacket) [
          | raised e ↦ (raised e, destroy utf8_from_bytes (next_event utf8_from_bytes m.1).1)
          | returned ev ↦
              (expect_ok base ev, destroy utf8_from_bytes (next_event utf8_from_bytes m.1).1)
        ]
      ])
  Begun-Keeps base (returned _, st) h =
      event_Keeps base (unread st.session.stream.arrivals) (next_event utf8_from_bytes st)
        (next_event-Leaves utf8_from_bytes true (unread st.session.stream.arrivals) st h)
  Begun-Keeps base (raised e, st) h = h

  pub query_expect_ok-Keeps :
      (sql : Bytes) (base : ℕ) (s : WireSession)
      → IsIdle s
      → Keeps (query_expect_ok utf8_from_bytes sql base s)
  unfolding query_expect_ok
  query_expect_ok-Keeps sql base s h =
      Begun-Keeps base (query utf8_from_bytes sql s) (query-Begun sql s h)

  pub guarded-Keeps :
      (sql : Bytes) (base : ℕ) (s : WireSession)
      → IsIdle s
      → Keeps (guarded utf8_from_bytes sql base s)
  guarded-Keeps sql base s h =
      then_run-Keeps (require_ready s, s) _ (require_ready-Keeps s h)
        (λ _ s' h'. query_expect_ok-Keeps sql base s' (inl h'))

  pub set_autocommit-Keeps :
      (enabled : Bool) (s : WireSession)
      → IsIdle s
      → Keeps (set_autocommit utf8_from_bytes enabled s)
  unfolding set_autocommit
  set_autocommit-Keeps true s h = guarded-Keeps (codes "SET autocommit=1") 4000 s h
  set_autocommit-Keeps false s h = guarded-Keeps (codes "SET autocommit=0") 4010 s h

  pub rollback-Keeps : (s : WireSession) → IsIdle s → Keeps (rollback utf8_from_bytes s)
  unfolding rollback
  rollback-Keeps s h = guarded-Keeps (codes "ROLLBACK") 6000 s h
