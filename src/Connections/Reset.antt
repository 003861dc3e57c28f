-- ===== src/Connections/Reset.antt =====
-- crates/halephant-core/src/connections/reset.rs. What the server sends is a list of messages, and a
-- server that closes the connection ends it. The set of dirty variables drains in the list's order.
pub mod Replies
use halephant.Prelude.{ℕ, ◌++◌, List, [], ◌∷◌, Option, none, some, Text, codes}
use halephant.Proto.Backend.{BackendMessage, NoticeFields, field}
use halephant.Proto.Frontend.{FrontendMessage}
use halephant.Proto.Types.{TransactionStatus, idle, in_transaction, failed}
use halephant.Proxy.Outbound.{Server, send_server}

abbrev base_reset : Text
base_reset =
    codes "CLOSE ALL;UNLISTEN *;SELECT pg_advisory_unlock_all();DISCARD SEQUENCES;DISCARD TEMP;"

rollback_first : TransactionStatus → Text
rollback_first idle = []
rollback_first _ = codes "ROLLBACK;"

reset_vars : List Text → Text
reset_vars [] = []
reset_vars (var ∷ rest) = codes "RESET " ++ (var ++ (codes ";" ++ reset_vars rest))

unfoldable pub reset_query : Server → Text
unfolding rollback_first reset_vars
reset_query s = rollback_first s.last_tx_status ++ (reset_vars s.dirty_vars ++ base_reset)

-- `Ok(())`, or one of the errors.
pub data ResetResult : Type 0 where
  done : ResetResult
  left_in : TransactionStatus → ResetResult
  reset_failed : Option Text → ResetResult
  closed : ResetResult

-- The loop over the replies, with the messages that are still unread.
unfoldable pub await_ready :
    Server → List BackendMessage → Server × List BackendMessage × ResetResult
await_ready s [] = (s, [], closed)
await_ready s (BackendMessage.ready_for_query idle ∷ rest) =
    (record s { last_tx_status = idle }, rest, done)
await_ready s (BackendMessage.ready_for_query status ∷ rest) = (s, rest, left_in status)
await_ready s (BackendMessage.error_response err ∷ rest) = (s, rest, reset_failed (field b'M' err))
await_ready s (_ ∷ rest) = await_ready s rest

-- `drain` leaves no dirty variable behind.
unfoldable pub reset_connection :
    Server → List BackendMessage → Server × List BackendMessage × ResetResult
unfolding reset_query send_server await_ready
reset_connection s incoming =
    await_ready (record (send_server (FrontendMessage.query (reset_query s)) s) { dirty_vars = [] })
      incoming
