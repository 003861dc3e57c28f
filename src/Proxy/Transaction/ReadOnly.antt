-- ===== src/Proxy/Transaction/ReadOnly.antt =====
-- What reaches the server in a read-only transaction, over the loop of
-- crates/halephant-core/src/proxy/transaction.rs.
use halephant.Config.Types.{ListenMode, pin, multiplex}
use halephant.Prelude.{
  ℕ, ◌≡◌, sym, subst, Bool, true, false, List, Text, All, arith, inl, inr, Bool-cases,
}
use halephant.Proto.Backend.{BackendMessage}
use halephant.Proto.Frontend.{Parse, FrontendMessage}
use halephant.Proto.Types.{TransactionStatus}
use halephant.Proxy.Intercept.{handle_listen_intercept}
use halephant.Proxy.Messages.{Front, send, send_error, send_fatal}
use halephant.Proxy.Outbound.{Server, Rewritten, forwards, consumed, bails, track_set_reset}
use halephant.Proxy.Outbound.Replays.{
  IsDistinct, IsCarried, IsLetThrough, replayed, close-IsCarried, deallocate-IsCarried,
  listen-IsCarried, rewrite_outbound-IsCarried,
}
use halephant.Proxy.Outbound.Sends.{
  has_text, forwarded, Replays, send_server-Sends, rewrite_outbound-Sends, track_set_reset-sent,
}
use halephant.Proxy.Transaction.{
  Active, Event, client_sends, client_gone, server_sends, server_gone, notified, classify,
  is_read_write_override_msg, deliver, pass_on, deallocate_or_pass, close_or_later,
  listen_intercept, listen_or_later, on_client, on_server, on_event, forward_reply,
  reject_read_write,
}
use halephant.Sql.Ast.{is_read_write_override}
use halephant.Sql.Parser.{parse_statement}
use halephant.Sql.Tokens.{Token}
use halephant.Statements.Replies.{Reply}

-- A statement that does not leave the read-only mode.
abbrev pub KeepsReadOnly : (Text → List Token) → Text → Type 0
KeepsReadOnly lex q = is_read_write_override (parse_statement (lex q)) ≡ false

-- Neither a query that would leave the read-only mode nor the `Parse` of one.
pub IsKept : (Text → List Token) → FrontendMessage → Type 0
IsKept lex (FrontendMessage.query q) = KeepsReadOnly lex q
IsKept lex (FrontendMessage.parse p) = KeepsReadOnly lex p.query
IsKept lex _ = Unit

IsKept-other : (lex : Text → List Token) (m : FrontendMessage) → has_text m ≡ false → IsKept lex m
unfolding IsKept
IsKept-other lex (FrontendMessage.query q) h = absurd (ground arith)
IsKept-other lex (FrontendMessage.parse p) h = absurd (ground arith)
IsKept-other lex _ h = tt

IsKept-renamed :
    (lex : Text → List Token) (p : Parse) (canon : Text)
    → IsKept lex (FrontendMessage.parse p)
    → IsKept lex (FrontendMessage.parse (record p { name = canon }))
unfolding IsKept
IsKept-renamed lex p canon h = h

IsKept-message :
    (lex : Text → List Token) (m : FrontendMessage)
    → is_read_write_override_msg lex m ≡ false
    → IsKept lex m
unfolding IsKept is_read_write_override_msg classify
IsKept-message lex (FrontendMessage.query q) h = h
IsKept-message lex (FrontendMessage.parse p) h = h
IsKept-message lex _ h = tt

-- The text of a `Parse` is among the known ones.
abbrev pub IsKnown : (Text → Type 0) → FrontendMessage → Type 0
IsKnown known (FrontendMessage.parse p) = known p.query
IsKnown known _ = Unit

abbrev pub IsKnownEvent : (Text → Type 0) → Event → Type 0
IsKnownEvent known (client_sends m) = IsKnown known m
IsKnownEvent known _ = Unit

module _ (lex : Text → List Token) (sha256 : List ℕ → List ℕ) (mode : ListenMode)
    (known : Text → Type 0) where
  abbrev pub IsSafeFront : Front → Type 0
  IsSafeFront = IsCarried sha256 known (KeepsReadOnly lex)

  -- Nothing that was sent leaves the read-only mode, and nothing that may be prepared again does.
  abbrev pub IsHeld : Active → Type 0
  IsHeld a = All (IsKept lex) a.server.sent × IsSafeFront a.front

  let_through :
      (m : FrontendMessage)
      → is_read_write_override_msg lex m ≡ false
      → IsKnown known m
      → IsLetThrough sha256 known (KeepsReadOnly lex) m
  unfolding is_read_write_override_msg classify
  let_through (FrontendMessage.parse p) h k = (k, h)
  let_through _ h k = tt

  replayed-IsKept :
      (c : Front) → IsSafeFront c → Replays (IsKept lex) (IsKept-other lex) (IsKept-renamed lex) c
  unfolding IsKept
  replayed-IsKept c h name canon p e g =
      replayed sha256 known (KeepsReadOnly lex) c name canon p h e g

  deliver-IsHeld :
      (a : Active) (c : Front) (s : Server) (r : Rewritten)
      → IsSafeFront c
      → All (IsKept lex) s.sent
      → All (IsKept lex) (forwarded r)
      → IsHeld (deliver a (c, s, r)).0
  unfolding deliver
  deliver-IsHeld a c s (forwards m) f h k =
      (send_server-Sends (IsKept lex) (IsKept-other lex) (IsKept-renamed lex) m s k.0 h, f)
  deliver-IsHeld a c s consumed f h k = (h, f)
  deliver-IsHeld a c s bails f h k = (h, f)

  pub listen_intercept-IsSafeFront :
      (ro : Bool) (m : FrontendMessage) (status : TransactionStatus) (c : Front)
      → IsSafeFront c
      → IsSafeFront (listen_intercept lex sha256 mode ro m status c).0
  unfolding listen_intercept
  listen_intercept-IsSafeFront ro m status c h =
      elim mode
        as (λ k.
          IsSafeFront
            (elim k as (λ _. Front × Bool) [
              | pin ↦ (c, false)
              | multiplex ↦ handle_listen_intercept lex m status c
            ]).0) [
              | pin ↦ h
              | multiplex ↦ listen-IsCarried sha256 known (KeepsReadOnly lex) lex m status c h
            ]

  module _ (distinct : IsDistinct sha256 known) where
    pub pass_on-IsHeld :
        (ro : Bool) (m : FrontendMessage) (a : Active)
        → is_read_write_override_msg lex m ≡ false
        → IsKnown known m
        → IsHeld a
        → IsHeld (pass_on lex sha256 mode ro m a).0
    unfolding pass_on
    pass_on-IsHeld ro m a e k h =
        let tracked = subst (All (IsKept lex)) (sym (track_set_reset-sent lex m a.server)) h.0 in
        let s =
          rewrite_outbound-Sends (IsKept lex) (IsKept-other lex) (IsKept-renamed lex) sha256 m
            a.front (track_set_reset lex m a.server) (IsKept-message lex m e)
            (replayed-IsKept a.front h.1) tracked in
        deliver-IsHeld a _ _ _
          (rewrite_outbound-IsCarried sha256 known (KeepsReadOnly lex) m a.front _ distinct
            (let_through m e k) h.1)
          s.0 s.1

    deallocate_or_pass-IsHeld :
        (ro : Bool) (m : FrontendMessage) (a : Active) (c : Front) (taken : Bool)
        → is_read_write_override_msg lex m ≡ false
        → IsKnown known m
        → All (IsKept lex) a.server.sent
        → IsSafeFront c
        → IsHeld (deallocate_or_pass lex sha256 mode ro m a (c, taken)).0
    unfolding deallocate_or_pass
    deallocate_or_pass-IsHeld ro m a c true e k h f = (h, f)
    deallocate_or_pass-IsHeld ro m a c false e k h f = pass_on-IsHeld ro m _ e k (h, f)

    close_or_later-IsHeld :
        (ro : Bool) (m : FrontendMessage) (a : Active) (c : Front) (taken : Bool)
        → is_read_write_override_msg lex m ≡ false
        → IsKnown known m
        → All (IsKept lex) a.server.sent
        → IsSafeFront c
        → IsHeld (close_or_later lex sha256 mode ro m a (c, taken)).0
    unfolding close_or_later
    close_or_later-IsHeld ro m a c true e k h f = (h, f)
    close_or_later-IsHeld ro m a c false e k h f =
        deallocate_or_pass-IsHeld ro m a _ _ e k h
          (deallocate-IsCarried sha256 known (KeepsReadOnly lex) lex m a.last_server_status c f)

    listen_or_later-IsHeld :
        (m : FrontendMessage) (a : Active) (c : Front) (taken : Bool)
        → IsKnown known m
        → All (IsKept lex) a.server.sent
        → IsSafeFront c
        → IsHeld (listen_or_later lex sha256 mode true m a (c, taken)).0
    unfolding listen_or_later reject_read_write send_error
    listen_or_later-IsHeld m a c true k h f = (h, f)
    listen_or_later-IsHeld m a c false k h f =
        elim (Bool-cases (is_read_write_override_msg lex m)) [
          | inl e ↦ rw e (h, f)
          | inr e ↦ rw e (
              close_or_later-IsHeld true m a _ _ e k h
                (close-IsCarried sha256 known (KeepsReadOnly lex) m c f))
        ]

    on_client-IsHeld :
        (m : FrontendMessage) (a : Active)
        → IsKnown known m
        → IsHeld a
        → IsHeld (on_client lex sha256 mode true m a).0
    unfolding on_client
    on_client-IsHeld FrontendMessage.terminate a k h = h
    on_client-IsHeld m a k h =
        listen_or_later-IsHeld m a _ _ k h.0
          (listen_intercept-IsSafeFront true m a.last_server_status a.front h.1)

    forward_reply-IsSafeFront :
        (r : Reply) (m : BackendMessage) (c : Front)
        → IsSafeFront c
        → IsSafeFront (forward_reply r m c)
    unfolding forward_reply
    forward_reply-IsSafeFront Reply.forward m c h = h
    forward_reply-IsSafeFront Reply.suppress m c h = h

    on_server-IsHeld : (m : BackendMessage) (a : Active) → IsHeld a → IsHeld (on_server m a).0
    unfolding on_server
    on_server-IsHeld (BackendMessage.ready_for_query _) a h = h
    on_server-IsHeld (BackendMessage.error_response _) a h = h
    on_server-IsHeld BackendMessage.parse_complete a h =
        (h.0, forward_reply-IsSafeFront _ _ a.front h.1)
    on_server-IsHeld BackendMessage.close_complete a h =
        (h.0, forward_reply-IsSafeFront _ _ a.front h.1)
    on_server-IsHeld _ a h = h

    pub on_event-IsHeld :
        (e : Event) (a : Active)
        → IsKnownEvent known e
        → IsHeld a
        → IsHeld (on_event lex sha256 mode true e a).0
    unfolding on_event send send_fatal
    on_event-IsHeld (client_sends m) a k h = on_client-IsHeld m a k h
    on_event-IsHeld client_gone a k h = h
    on_event-IsHeld (server_sends m) a k h = on_server-IsHeld m a h
    on_event-IsHeld server_gone a k h = h
    on_event-IsHeld (notified m) a k h = h
