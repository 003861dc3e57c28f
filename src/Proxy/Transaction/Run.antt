-- ===== src/Proxy/Transaction/Run.antt =====
-- Runs of the forwarding loop of crates/halephant-core/src/proxy/transaction.rs.
use halephant.Config.Types.{ListenMode}
use halephant.Prelude.{
  ℕ, ◌≡◌, refl, subst, ◌&&◌, Bool, true, false, List, [], ◌∷◌, Text, Bool-cases, inl, inr,
}
use halephant.Proto.Backend.{BackendMessage}
use halephant.Proto.Frontend.{FrontendMessage}
use halephant.Proto.Types.{TransactionStatus, idle, in_transaction}
use halephant.Proxy.Messages.{Front}
use halephant.Proxy.Outbound.{Server, Rewritten, forwards, consumed, bails}
use halephant.Proxy.Transaction.{
  on_ready, is_idle, pinned_after, Release, Next, go_on, release, fails, Active, Event,
  client_sends, client_gone, server_sends, server_gone, notified, classify,
  is_read_write_override_msg, deliver, pass_on, deallocate_or_pass, close_or_later, continued,
  on_client, listen_or_later, on_server, on_event, forward_until_idle,
}
use halephant.Sql.Tokens.{Token}

-- Where a step or a run ends with an idle connection.
abbrev pub IsAtRest : Active × Next → Type 0
IsAtRest (a, release Release.idle) =
    (a.last_server_status ≡ idle) × (a.server.last_tx_status ≡ idle) × (a.pinned ≡ false)
IsAtRest (a, _) = Unit

on_ready-IsAtRest : (status : TransactionStatus) (a : Active) → IsAtRest (on_ready status a)
unfolding on_ready is_idle
on_ready-IsAtRest idle a = elim (Bool-cases a.pinned) [
  | inl e ↦ rw e tt
  | inr e ↦ rw e (refl, refl, refl)
]
on_ready-IsAtRest in_transaction a = tt
on_ready-IsAtRest TransactionStatus.failed a = tt

on_server-IsAtRest : (m : BackendMessage) (a : Active) → IsAtRest (on_server m a)
unfolding on_server
on_server-IsAtRest (BackendMessage.ready_for_query status) a = on_ready-IsAtRest status a
on_server-IsAtRest (BackendMessage.error_response _) a = tt
on_server-IsAtRest BackendMessage.parse_complete a = tt
on_server-IsAtRest BackendMessage.close_complete a = tt
on_server-IsAtRest _ a = tt

module _ (lex : Text → List Token) (sha256 : List ℕ → List ℕ) (mode : ListenMode) (ro : Bool) where
  deliver-IsAtRest :
      (a : Active) (c : Front) (s : Server) (r : Rewritten) → IsAtRest (deliver a (c, s, r))
  unfolding deliver
  deliver-IsAtRest a c s (forwards m) = tt
  deliver-IsAtRest a c s consumed = tt
  deliver-IsAtRest a c s bails = tt

  deallocate_or_pass-IsAtRest :
      (m : FrontendMessage) (a : Active) (c : Front) (taken : Bool)
      → IsAtRest (deallocate_or_pass lex sha256 mode ro m a (c, taken))
  unfolding deallocate_or_pass pass_on
  deallocate_or_pass-IsAtRest m a c true = tt
  deallocate_or_pass-IsAtRest m a c false =
      deliver-IsAtRest
        (record a { front = c; pinned = pinned_after mode (classify lex m) a.pinned }) _ _ _

  close_or_later-IsAtRest :
      (m : FrontendMessage) (a : Active) (c : Front) (taken : Bool)
      → IsAtRest (close_or_later lex sha256 mode ro m a (c, taken))
  unfolding close_or_later
  close_or_later-IsAtRest m a c true = tt
  close_or_later-IsAtRest m a c false = deallocate_or_pass-IsAtRest m a _ _

  listen_or_later-IsAtRest :
      (m : FrontendMessage) (a : Active) (c : Front) (taken : Bool)
      → IsAtRest (listen_or_later lex sha256 mode ro m a (c, taken))
  unfolding listen_or_later
  listen_or_later-IsAtRest m a c true = tt
  listen_or_later-IsAtRest m a c false =
      elim (Bool-cases (ro && is_read_write_override_msg lex m)) [
        | inl e ↦ rw e tt
        | inr e ↦ rw e (close_or_later-IsAtRest m a _ _)
      ]

  on_client-IsAtRest :
      (m : FrontendMessage) (a : Active) → IsAtRest (on_client lex sha256 mode ro m a)
  unfolding on_client
  on_client-IsAtRest FrontendMessage.terminate a = tt
  on_client-IsAtRest m a = listen_or_later-IsAtRest m a _ _

  on_event-IsAtRest : (e : Event) (a : Active) → IsAtRest (on_event lex sha256 mode ro e a)
  unfolding on_event
  on_event-IsAtRest (client_sends m) a = on_client-IsAtRest m a
  on_event-IsAtRest client_gone a = tt
  on_event-IsAtRest (server_sends m) a = on_server-IsAtRest m a
  on_event-IsAtRest server_gone a = tt
  on_event-IsAtRest (notified m) a = tt

  continued-IsAtRest :
      (next : Next) (b : Active) (later : Active × Next)
      → IsAtRest (b, next)
      → IsAtRest later
      → IsAtRest (continued next b later)
  unfolding continued
  continued-IsAtRest go_on b later h k = k
  continued-IsAtRest (release r) b later h k = h
  continued-IsAtRest fails b later h k = tt

  run-IsAtRest :
      (events : List Event) (a : Active) → IsAtRest (forward_until_idle lex sha256 mode ro events a)
  unfolding forward_until_idle
  run-IsAtRest [] a = tt
  run-IsAtRest (e ∷ es) a = continued-IsAtRest _ _ _ (on_event-IsAtRest e a) (run-IsAtRest es _)

  -- The loop gives its connection back as idle only when the last `ReadyForQuery` said so to the
  -- client, the connection records the same status, and no `LISTEN` pins it to the client.
  pub forward_until_idle-IsAtRest :
      (events : List Event) (a b : Active)
      → forward_until_idle lex sha256 mode ro events a ≡ (b, release Release.idle)
      → (b.last_server_status ≡ idle) × (b.server.last_tx_status ≡ idle) × (b.pinned ≡ false)
  forward_until_idle-IsAtRest events a b e = subst IsAtRest e (run-IsAtRest events a)
