-- ===== src/Wire/Session/Drained.antt =====
-- The skips of lib.drift end, and a statement that goes out of scope leaves a usable or a dead session.
use drift_mariadb_client.Base.{
  ℕ, zero, suc, ◌≤◌, ◌<◌, ◌≡◌, refl, arith, Bool, false, Text, Bytes, Outcome,
}
use drift_mariadb_client.Base.{returned, raised, if◌then◌else◌, ◌⊎◌, inl, inr}
use drift_mariadb_client.Wire.{Utf8Error}
use drift_mariadb_client.Wire.Transport.{WireSession, ◌then_run◌}
use drift_mariadb_client.Wire.Session.{mark_dead}
use drift_mariadb_client.Base.{if_false}
use drift_mariadb_client.Wire.Session.Kept.{unread}
use drift_mariadb_client.Wire.Session.Statement.{
  Statement, StatementEvent, row, result_set_end, statement_end, statement_err, Stepped, next_event,
}
use drift_mariadb_client.Wire.Session.Drain.{is_terminal, skip_loop, skip_remaining, destroy}
use drift_mariadb_client.Wire.Session.Open.{IsOpen, IsFinished, IsDead}
use drift_mariadb_client.Wire.Session.Events.{Leaves, next_event-Leaves}

-- What is left of a statement that was skipped to its end.
abbrev pub Drained : Bool → Stepped (Unit {0}) → Type 0
Drained r (returned _, st) = IsFinished r st
Drained r (raised _, st) = (st.consumed_terminal ≡ false) × IsDead st.session

abbrev left_to_read : Statement → ℕ
left_to_read st = unread st.session.stream.arrivals

module _ (utf8_from_bytes : Bytes → Outcome Utf8Error Text) (r : Bool) where
  -- An open statement, seen from the bytes that it has.
  from_here : (n d : ℕ) (st : Statement) → IsOpen r n d st → IsOpen r (left_to_read st) 0 st
  from_here n d st h = record {
    going_on = h.going_on;
    still_open = h.still_open;
    in_use = h.in_use;
    same_reusable = h.same_reusable;
    bounded = omega arith;
  }

  after_event :
      (fuel n : ℕ) (m : Stepped StatementEvent)
      → n ≤ fuel
      → Leaves r n m
      → ((st : Statement)
          → left_to_read st < fuel
          → IsOpen r (left_to_read st) 0 st
          → Drained r (skip_loop utf8_from_bytes fuel st))
      → Drained r (
          m then_run λ event st.
          if is_terminal event then (returned tt, st) else skip_loop utf8_from_bytes fuel st)
  after_event fuel n (returned (row cells), st) le h go =
      go st (omega (arith, h.bounded)) (from_here n 4 st h)
  after_event fuel n (returned result_set_end, st) le h go =
      go st (omega (arith, h.bounded)) (from_here n 4 st h)
  after_event fuel n (returned (statement_end ok), st) le h go = h
  after_event fuel n (returned (statement_err err), st) le h go = h
  after_event fuel n (raised e, st) le h go = h

  skip_loop-Drained :
      (fuel : ℕ) (st : Statement)
      → left_to_read st < fuel
      → IsOpen r (left_to_read st) 0 st
      → Drained r (skip_loop utf8_from_bytes fuel st)
  unfolding skip_loop
  skip_loop-Drained zero st lt h = absurd (omega arith)
  skip_loop-Drained (suc fuel) st lt h =
      after_event fuel (left_to_read st) (next_event utf8_from_bytes st) (omega arith)
        (next_event-Leaves utf8_from_bytes r (left_to_read st) st h)
        (λ st' lt' h'. skip_loop-Drained fuel st' lt' h')

  skip_remaining-Drained :
      (n d : ℕ) (st : Statement) → IsOpen r n d st → Drained r (skip_remaining utf8_from_bytes st)
  unfolding skip_remaining
  skip_remaining-Drained n d st h =
      if_false (Drained r) st.consumed_terminal _ _ h.going_on
        (skip_loop-Drained (suc (left_to_read st)) st (omega arith) (from_here n d st h))

  -- A session that takes another command, or one that no command will use.
  abbrev pub Settled : WireSession → Type 0
  Settled s =
      ((s.is_closed ≡ false) × (s.active_statement ≡ false) × (s.state.reusable ≡ r)) ⊎ IsDead s

  settle :
      (m : Stepped (Unit {0}))
      → Drained r m
      → Settled (elim m.0 as (λ _. WireSession) [
        | returned _ ↦ m.1.session
        | raised _ ↦ mark_dead m.1.session
      ])
  unfolding mark_dead
  settle (returned _, st) h = inl (h.still_open, h.is_free, h.same_reusable)
  settle (raised e, st) h = inr (record { is_shut = refl; is_spent = refl })

  -- For a statement that is not through, on an open session with an active statement,
  -- skip_remaining comes to an end: if it returns, the statement is through and its session
  -- open, without an active statement and as reusable as before, and if it raises, the session
  -- is closed and not reusable. When the statement goes out of scope, it leaves its session in
  -- one of these two states.
  pub destroy-Settled :
      (n d : ℕ) (st : Statement)
      → IsOpen r n d st
      → Drained r (skip_remaining utf8_from_bytes st) × Settled (destroy utf8_from_bytes st)
  unfolding destroy
  destroy-Settled n d st h =
      let drained = skip_remaining-Drained n d st h in
      (
        drained,
        if_false Settled st.consumed_terminal _ _ h.going_on
            (settle (skip_remaining utf8_from_bytes st) drained),
      )
