-- ===== src/Proxy/Transaction/Recorded.antt =====
-- A session over the loop of crates/halephant-core/src/proxy/transaction.rs, as steps of the model of
-- its server connection.
use halephant.Proxy.Outbound.Follows.{Follows}
