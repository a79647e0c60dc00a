-- ===== src/Wire/Session/Open.antt =====
-- Reads of a statement of lib.drift that is not through, and what they leave.
use drift_mariadb_client.Base.{
  ℕ, zero, suc, ◌+◌, ◌≤◌, ◌≡◌, refl, ap, ◌∙◌, arith, Bool, true, false, Text, Bytes, Outcome,
}
use drift_mariadb_client.Base.{returned, raised, Outcome-cases, inl, inr}
use drift_mariadb_client.Wire.{Decoded, Utf8Error}
use drift_mariadb_client.Wire.ResultSet.{
  FirstResponseRoute, ok_packet, err_packet, result_set, discriminate_first_response,
  is_eof_terminator_packet,
}
use drift_mariadb_client.Wire.Responses.{decode_ok_packet, decode_err_packet}
use drift_mariadb_client.Wire.Columns.{decode_column_count, decode_column_def}
use drift_mariadb_client.Wire.Transport.{WireSession, ◌then_run◌, session_read_packet}
use drift_mariadb_client.Base.{if_either}
use drift_mariadb_client.Wire.Session.Kept.{unread, Read, session_read_packet-Read}
use drift_mariadb_client.Wire.Session.Statement.{
  Statement, read_packet, init_routed, init_statement_from_first, next_first, read_definitions,
  read_terminator,
}

-- A statement that is not through, on a session of which at least `d` of `n` bytes are read.
pub record IsOpen (reusable : Bool) (n d : ℕ) (st : Statement) : Type 0 where
  pub going_on : st.consumed_terminal ≡ false
  pub still_open : st.session.is_closed ≡ false
  pub in_use : st.session.active_statement ≡ true
  pub same_reusable : st.session.state.reusable ≡ reusable
  pub bounded : unread st.session.stream.arrivals + d ≤ n

-- A statement whose last event has been given; its session is free for a new command.
pub record IsFinished (reusable : Bool) (st : Statement) : Type 0 where
  pub is_through : st.consumed_terminal ≡ true
  pub still_open : st.session.is_closed ≡ false
  pub is_free : st.session.active_statement ≡ false
  pub same_reusable : st.session.state.reusable ≡ reusable

-- A session that no command will use again.
pub record IsDead (s : WireSession) : Type 0 where
  pub is_shut : s.is_closed ≡ true
  pub is_spent : s.state.reusable ≡ false

module _ (r : Bool) (n : ℕ) where
  abbrev pub After {ℓ} : {A : Type ℓ} → ℕ → Decoded A × Statement → Type 0
  After d (returned _, st) = IsOpen r n d st
  After d (raised _, st) = IsOpen r n 0 st

  pub started : (d : ℕ) (st : Statement) → IsOpen r n d st → IsOpen r n 0 st
  started d st h = record {
    going_on = h.going_on;
    still_open = h.still_open;
    in_use = h.in_use;
    same_reusable = h.same_reusable;
    bounded = omega arith;
  }

  -- A change that leaves the session and `consumed_terminal` alone.
  pub same_session :
      {d : ℕ} {st st' : Statement}
      → st'.session ≡ st.session
      → st'.consumed_terminal ≡ st.consumed_terminal
      → IsOpen r n d st
      → IsOpen r n d st'
  same_session e c h = record {
    going_on = c ∙ h.going_on;
    still_open = ap (λ s. s.is_closed) e ∙ h.still_open;
    in_use = ap (λ s. s.active_statement) e ∙ h.in_use;
    same_reusable = ap (λ s. s.state.reusable) e ∙ h.same_reusable;
    bounded = rw e h.bounded;
  }

  then_run-After {ℓ κ} :
      {A : Type ℓ} {B : Type κ} (d d' : ℕ) (m : Decoded A × Statement)
      (k : A → Statement → Decoded B × Statement)
      → After d m
      → ((a : A) (st : Statement) → IsOpen r n d st → After d' (k a st))
      → After d' (m then_run k)
  then_run-After d d' (returned a, st) k h step = step a st h
  then_run-After d d' (raised e, st) k h step = h

  -- A result that is computed without a read.
  pure-After {ℓ} :
      {A : Type ℓ} (d : ℕ) (m : Decoded A) (st : Statement) → IsOpen r n d st → After d (m, st)
  pure-After d (returned a) st h = h
  pure-After d (raised e) st h = started d st h

  with_session :
      (st : Statement) (m : Decoded Bytes × WireSession)
      → IsOpen r n 0 st
      → Read 4 st.session m
      → After 4 (m.0, record st { session = m.1 })
  with_session st (returned a, s) h (k, took) = record {
    going_on = h.going_on;
    still_open = k.same_closed ∙ h.still_open;
    in_use = k.same_active ∙ h.in_use;
    same_reusable = ap (λ state. state.reusable) k.same_state ∙ h.same_reusable;
    bounded = omega (arith, h.bounded);
  }
  with_session st (raised e, s) h (k, took) = record {
    going_on = h.going_on;
    still_open = k.same_closed ∙ h.still_open;
    in_use = k.same_active ∙ h.in_use;
    same_reusable = ap (λ state. state.reusable) k.same_state ∙ h.same_reusable;
    bounded = omega (arith, h.bounded);
  }

  pub read_packet-After : (st : Statement) → IsOpen r n 0 st → After 4 (read_packet st)
  read_packet-After st h =
      with_session st (session_read_packet st.session) h (session_read_packet-Read st.session)

  -- The same, where it does not matter how much was read.
  reading {ℓ} :
      {B : Type ℓ} (d : ℕ) (st : Statement) (k : Bytes → Statement → Decoded B × Statement)
      → IsOpen r n 0 st
      → ((payload : Bytes) (s : Statement) → IsOpen r n 4 s → After d (k payload s))
      → After d (read_packet st then_run k)
  reading d st k h = then_run-After 4 d (read_packet st) k (read_packet-After st h)

  module _ (utf8_from_bytes : Bytes → Outcome Utf8Error Text) where
    init_routed-After :
        (st : Statement) (first : Bytes) (route : FirstResponseRoute)
        → IsOpen r n 0 st
        → After 0 (init_routed utf8_from_bytes st first route)
    unfolding init_routed
    init_routed-After st first ok_packet h = elim (Outcome-cases (decode_ok_packet first)) [
      | inl (ok, e) ↦ rw (init_routed, e) (same_session refl refl h)
      | inr (x, e) ↦ rw (init_routed, e) h
    ]
    init_routed-After st first err_packet h =
        elim (Outcome-cases (decode_err_packet utf8_from_bytes first)) [
          | inl (err, e) ↦ rw (init_routed, e) (same_session refl refl h)
          | inr (x, e) ↦ rw (init_routed, e) h
        ]
    init_routed-After st first result_set h =
        elim (Outcome-cases
          (decode_column_count first st.session.metadata_suppression_negotiated)) [
            | inl (count, e) ↦ rw (init_routed, e) (same_session refl refl h)
            | inr (x, e) ↦ rw (init_routed, e) h
          ]

    pub init_statement_from_first-After :
        (st : Statement) (first : Bytes)
        → IsOpen r n 0 st
        → After 0 (init_statement_from_first utf8_from_bytes st first)
    unfolding init_statement_from_first
    init_statement_from_first-After st first h =
        then_run-After 0 0 (discriminate_first_response first, st) _
          (pure-After 0 (discriminate_first_response first) st h)
          (λ route s hs. init_routed-After s first route hs)

    pub next_first-After :
        (st : Statement) → IsOpen r n 0 st → After 0 (next_first utf8_from_bytes st)
    unfolding next_first
    next_first-After st h =
        reading 0 st _ h λ first s hs. init_statement_from_first-After s first (started 4 s hs)

    pub read_definitions-After :
        (k : ℕ) (st : Statement) → IsOpen r n 0 st → After 0 (read_definitions utf8_from_bytes k st)
    unfolding read_definitions
    read_definitions-After zero st h = h
    read_definitions-After (suc k) st h = reading 0 st _ h λ payload s hs.
        then_run-After 0 0 (decode_column_def utf8_from_bytes payload, s) _
          (pure-After 0 (decode_column_def utf8_from_bytes payload) s (started 4 s hs))
          (λ def s' h'. read_definitions-After k _ (same_session refl refl h'))

    pub read_terminator-After :
        (st : Statement) → IsOpen r n 0 st → After 0 (read_terminator utf8_from_bytes st)
    unfolding read_terminator
    read_terminator-After st h =
        if_either (After 0) st.awaiting_coldef_terminator _ _
          (reading 0 st _ h λ payload s hs.
            if_either (After 0) (is_eof_terminator_packet payload) _ _
              (same_session refl refl (started 4 s hs)) (started 4 s hs))
          h
