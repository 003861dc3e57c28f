-- ===== src/Connections/Tests.antt =====
-- Tests of the reset of a connection and of the startup options.
use halephant.Connections.Options.{escape}
use halephant.Connections.Options.Split.{split, split-escape, split-escape_torn}
use halephant.Connections.Reset.{done, reset_connection}
use halephant.Connections.Reset.Replies.{reset_connection-first_ready}
use halephant.Prelude.{◌≡◌, ◌++◌, refl, false, List, [], ◌∷◌, none, some, codes}
use halephant.Proto.Backend.{BackendMessage}
use halephant.Proto.Types.{TransactionStatus, idle}
use halephant.Proxy.Outbound.{Server}
use halephant.Statements.Replies

abbrev used : Server
used = record {
  statements = Replies.new 1;
  dirty_vars = codes "timezone" ∷ [];
  last_tx_status = TransactionStatus.in_transaction;
  sent = [];
}

-- The end of the client's last query, and the replies to the reset.
abbrev of_query : List BackendMessage
of_query = BackendMessage.command_complete (codes "SELECT 1") ∷ []

abbrev of_reset : List BackendMessage
of_reset =
    BackendMessage.command_complete (codes "RESET") ∷ BackendMessage.ready_for_query idle ∷ []

reset_connection-first_ready_example :
    let (after, unread, result) =
      reset_connection used (of_query ++ BackendMessage.ready_for_query idle ∷ of_reset) in
    (result ≡ done) × (unread ≡ of_reset) × (after.last_tx_status ≡ idle) × (after.dirty_vars ≡ [])
reset_connection-first_ready_example =
    reset_connection-first_ready used of_query of_reset (refl, tt)

split-escape_example :
    split (some (codes "p=")) false (escape (codes "a b") ++ codes " c")
    ≡ split (some (codes "p=" ++ codes "a b")) false (codes " c")
split-escape_example = split-escape (codes "p=") (codes "a b") (codes " c") refl

split-escape_torn_example :
    split (some (codes "p=")) false (escape (codes "a") ++ (escape (11 ∷ codes "b") ++ []))
    ≡ (codes "p=" ++ codes "a") ∷ split none false (escape (codes "b") ++ [])
split-escape_torn_example = split-escape_torn (codes "p=") (codes "a") (codes "b") [] refl
