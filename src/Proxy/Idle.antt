-- ===== src/Proxy/Idle.antt =====
-- The outer loop of crates/halephant-core/src/proxy/transaction.rs: a client at rest, one that asks for
-- a server connection, and one that holds it.
pub mod ReadOnly
use halephant.Config.Types.{ListenMode, pin, multiplex}
use halephant.Prelude.{
  ℕ, Bool, true, false, not, ◌&&◌, ◌||◌, List, [], ◌∷◌, Option, none, some, Text, if◌then◌else◌,
}
use halephant.Proto.Backend.{BackendMessage}
use halephant.Proto.Frontend.{FrontendMessage}
use halephant.Proto.Types.{TransactionStatus}
use halephant.Proxy.Intercept.{drop_all, handle_close_intercept, handle_deallocate_intercept}
use halephant.Proxy.Messages.{Front, send}
use halephant.Proxy.Outbound.{Server}
use halephant.Proxy.Transaction.{
  Release, Next, go_on, release, fails, Active, Event, client_sends, client_gone, server_sends,
  server_gone, notified, is_read_write_override_msg, is_read_only_query, reject_read_write,
  listen_intercept, on_event, begin_transaction,
}
use halephant.Sql.Tokens.{Token}

-- The client at rest; asking for a connection to send a message on, for a read-only transaction or
-- not; holding one; gone; failed.
pub data Phase : Type 0 where
  at_rest : Front → Phase
  asking : Front → FrontendMessage → Bool → Phase
  holding : Active → Bool → Phase
  finished : Front → Phase
  broken : Front → Phase

-- What happens: an event of the inner loop, or the outcome of a checkout.
pub data Happening : Type 0 where
  event : Event → Happening
  granted : Server → Happening
  refused : Happening

-- What becomes of the connection: checked in, or dropped with its guard.
pub data Handed : Type 0 where
  nothing : Handed
  checked_in : Server → Handed
  dropped : Server → Handed

module _ (lex : Text → List Token) (sha256 : List ℕ → List ℕ) (mode : ListenMode)
    (read_only : Bool) where
  ask : FrontendMessage → Front → Phase
  ask m c =
      if read_only && is_read_write_override_msg lex m
      then at_rest (reject_read_write TransactionStatus.idle c)
      else asking c m (read_only || is_read_only_query lex m)

  rest_deallocate : FrontendMessage → Front × Bool → Phase
  unfolding ask
  rest_deallocate m (c, true) = at_rest c
  rest_deallocate m (c, false) = ask m c

  rest_close : FrontendMessage → Front × Bool → Phase
  unfolding rest_deallocate
  rest_close m (c, true) = at_rest c
  rest_close m (c, false) =
      rest_deallocate m (handle_deallocate_intercept lex m TransactionStatus.idle c)

  rest_listen : FrontendMessage → Front × Bool → Phase
  unfolding rest_close
  rest_listen m (c, true) = at_rest c
  rest_listen m (c, false) = rest_close m (handle_close_intercept m c)

  -- A message of a client at rest.
  unfoldable pub idle_message : FrontendMessage → Front → Phase
  unfolding rest_listen
  idle_message FrontendMessage.terminate c = finished c
  idle_message m c =
      rest_listen m (listen_intercept lex sha256 mode read_only m TransactionStatus.idle c)

  -- Where a step of the inner loop leaves the client, and the connection.
  after_step : Bool → Active × Next → Phase × Handed
  after_step txn_read_only (a, go_on) = (holding a txn_read_only, nothing)
  after_step txn_read_only (a, release Release.idle) = (at_rest a.front, checked_in a.server)
  after_step txn_read_only (a, release Release.client_done) =
      (finished a.front, checked_in a.server)
  after_step txn_read_only (a, fails) = (broken a.front, dropped a.server)

  -- Only the happenings that can occur in a phase change it.
  unfoldable pub happen : Happening → Phase → Phase × Handed
  unfolding after_step
  happen (event (client_sends m)) (at_rest c) = (idle_message m c, nothing)
  happen (event client_gone) (at_rest c) = (finished c, nothing)
  happen (event (notified m)) (at_rest c) = (at_rest (send m c), nothing)
  happen (granted s) (asking c m txn_read_only) =
      after_step txn_read_only (begin_transaction lex sha256 mode txn_read_only m c s)
  happen refused (asking c m txn_read_only) = (broken c, nothing)
  happen (event e) (holding a txn_read_only) =
      after_step txn_read_only (on_event lex sha256 mode txn_read_only e a)
  happen h p = (p, nothing)

  -- A session from one phase on, with what becomes of its connections.
  unfoldable pub session : List Happening → Phase → Phase × List Handed
  session [] p = (p, [])
  session (h ∷ hs) p =
      let (q, handed) = happen h p in let (last, later) = session hs q in (last, handed ∷ later)

  -- `PreparedGuard` releases the names whichever way the session ends.
  unfoldable pub close_session : Phase → Phase
  close_session (finished c) = finished (drop_all c)
  close_session (broken c) = broken (drop_all c)
  close_session p = p
