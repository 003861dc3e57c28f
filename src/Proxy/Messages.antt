-- ===== src/Proxy/Messages.antt =====
-- The client's side of a session, with the frames of crates/halephant-core/src/messages/ that
-- halephant sends on its own. A frame that cannot be sent ends the session; here a send succeeds.
use halephant.Prelude.{ℕ, ◌++◌, List, [], ◌∷◌, Option, Text, codes}
use halephant.Proto.Backend.{
  NoticeFields, BackendMessage, command_complete, ready_for_query, error_response, parameter_status,
  backend_key_data,
}
use halephant.Proto.Types.{TransactionStatus, idle}
use halephant.Statements.Client.{ClientPrepared}
use halephant.Statements.Store.{StatementStore}

-- The names of the client's statements, the store that all clients share, the channels that a client
-- of a multiplexing pool subscribed to, and all that was sent to the client.
pub record Front : Type 0 where
  pub prepared : ClientPrepared
  pub store : StatementStore
  pub channels : Option (List Text)
  pub sent : List BackendMessage

unfoldable pub send : BackendMessage → Front → Front
send m c = record c { sent = c.sent ++ m ∷ [] }

unfoldable pub send_synthetic_ok : Text → TransactionStatus → Front → Front
unfolding send
send_synthetic_ok tag status c = send (ready_for_query status) (send (command_complete tag) c)

unfoldable pub notice : Text → Text → Text → NoticeFields
notice severity sqlstate message = record {
  fields = (b'S', severity) ∷ (b'C', sqlstate) ∷ (b'M', message) ∷ [];
}

unfoldable pub send_fatal : Text → Text → Front → Front
unfolding send notice
send_fatal sqlstate message = send (error_response (notice (codes "FATAL") sqlstate message))

unfoldable pub send_error : Text → Text → TransactionStatus → Front → Front
unfolding send notice
send_error sqlstate message status c =
    send (ready_for_query status)
      (send (error_response (notice (codes "ERROR") sqlstate message)) c)

send_params : List (Text × Text) → Front → Front
unfolding send
send_params [] c = c
send_params ((name, value) ∷ rest) c = send_params rest (send (parameter_status name value) c)

-- The upstream's parameters and its backend key.
unfoldable pub send_post_auth_startup : List (Text × Text) → ℕ × ℕ → Front → Front
unfolding send_params send
send_post_auth_startup params (process_id, secret_key) c =
    send (ready_for_query idle)
      (send (backend_key_data process_id secret_key) (send_params params c))
