-- ===== src/Connections/Reset/Replies.antt =====
-- When a reset counts as done.
use halephant.Prelude.{◌≡◌, ◌++◌, ◌∙◌, ap, refl, Bool, true, false, List, [], ◌∷◌, All, arith}
use halephant.Proto.Backend.{BackendMessage}
use halephant.Proto.Types.{idle}
use halephant.Proxy.Outbound.{Server}
use halephant.Connections.Reset.{done, await_ready, reset_connection}

-- Neither `ReadyForQuery` nor an error.
abbrev pub is_quiet : BackendMessage → Bool
is_quiet (BackendMessage.ready_for_query _) = false
is_quiet (BackendMessage.error_response _) = false
is_quiet _ = true

await_ready-quiet :
    (s : Server) (m : BackendMessage) (rest : List BackendMessage)
    → is_quiet m ≡ true
    → await_ready s (m ∷ rest) ≡ await_ready s rest
unfolding await_ready
await_ready-quiet s (BackendMessage.ready_for_query _) rest h = absurd (ground arith)
await_ready-quiet s (BackendMessage.error_response _) rest h = absurd (ground arith)
await_ready-quiet s _ rest h = refl

await_ready-first_ready :
    (s : Server) (earlier rest : List BackendMessage)
    → All (λ m. is_quiet m ≡ true) earlier
    → await_ready s (earlier ++ BackendMessage.ready_for_query idle ∷ rest)
      ≡ (record s { last_tx_status = idle }, rest, done)
unfolding await_ready
await_ready-first_ready s [] rest h = refl
await_ready-first_ready s (m ∷ earlier) rest h =
    await_ready-quiet s m (earlier ++ BackendMessage.ready_for_query idle ∷ rest) h.0
    ∙ await_ready-first_ready s earlier rest h.1

-- A reset is done at the first `ReadyForQuery(Idle)`, whatever it answers: if the replies to an
-- earlier query of the client were still to come, their `ReadyForQuery(Idle)` ends the reset, and all
-- that follows, the replies to the reset itself among it, is left on the connection.
pub reset_connection-first_ready :
    (s : Server) (earlier rest : List BackendMessage)
    → All (λ m. is_quiet m ≡ true) earlier
    → let (after, unread, result) =
        reset_connection s (earlier ++ BackendMessage.ready_for_query idle ∷ rest) in
      (result ≡ done) × (unread ≡ rest) × (after.last_tx_status ≡ idle) × (after.dirty_vars ≡ [])
unfolding reset_connection
reset_connection-first_ready s earlier rest h =
    let e = await_ready-first_ready _ earlier rest h in
    (ap (λ r. r.2) e, ap (λ r. r.1) e, ap (λ r. r.0.last_tx_status) e, ap (λ r. r.0.dirty_vars) e)
