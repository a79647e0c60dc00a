-- ===== src/Wire/Session.antt =====
-- The session of packages/mariadb-wire-proto/src/lib.drift: its state, and the commands that read
-- one answer. Statements are in Statement, the commands of transactions and pools in Commands.
pub mod Statement
pub mod Drain
pub mod Kept
pub mod Open
pub mod Events
pub mod Drained
pub mod Idle
pub mod Queries
pub mod Reuse
pub mod Streaming
pub mod Delivered
pub mod Fetched
pub mod Commands
use Prim.Native.Nat.{bit_and}
use drift_mariadb_client.Base.{
  ℕ, ◌+◌, ◌≡◌, arith, Bool, true, false, not, List, [], ◌∷◌, ◌&&◌, Bytes,
}
use drift_mariadb_client.Base.{returned, raised, ◌==◌, nat_eq, if◌then◌else◌}
use drift_mariadb_client.Wire.{
  Decoded, error_at, session_closed, session_not_reusable, active_statement_present,
}
use drift_mariadb_client.Wire.Transport.{
  WireSession, ◌then_run◌, session_read_packet, session_write_packet, session_reset_seq,
}

abbrev pub Ran : Type 0 → Type 0
Ran A = Decoded A × WireSession

-- `_status_has_more_results` and the tests of `_apply_status`
abbrev pub has_flag : ℕ → ℕ → Bool
has_flag status flag = not (bit_and status flag == 0)

unfoldable pub apply_status : WireSession → ℕ → ℕ → WireSession
apply_status session status warnings = record session {
  state = record {
    autocommit_enabled = has_flag status 2;
    in_transaction = has_flag status 1;
    reusable = session.state.reusable;
    last_status_flags = status;
    last_warnings = warnings;
  };
}

-- The stream is closed, too; whether that succeeds is not looked at.
unfoldable pub mark_dead : WireSession → WireSession
mark_dead session = record session { is_closed = true; state = record state { reusable = false } }
  where
    open session use {state}

unfoldable pub require_ready : WireSession → Decoded (Unit {0})
require_ready session =
    if session.is_closed
    then raised (error_at session_closed 0)
    else if not session.state.reusable
    then raised (error_at session_not_reusable 0)
    else if session.active_statement
    then raised (error_at active_statement_present 0)
    else returned tt

unfoldable pub begin_command : WireSession → Ran (Unit {0})
begin_command session =
    (require_ready session, session) then_run λ _ s. (returned tt, session_reset_seq s)

-- A failure of the connection ends the session.
abbrev pub or_die {ℓ} : {A : Type ℓ} → Decoded A × WireSession → Decoded A × WireSession
or_die (returned a, session) = (returned a, session)
or_die (raised e, session) = (raised e, mark_dead session)

unfoldable pub command_send_recv : Bytes → WireSession → Ran Bytes
unfolding mark_dead
command_send_recv payload session =
    or_die (session_write_packet payload session) then_run λ _ s. or_die (session_read_packet s)

-- `session_is_reusable`
unfoldable pub session_is_reusable : WireSession → Bool
session_is_reusable session =
    session.state.reusable && (not session.is_closed && not session.active_statement)
