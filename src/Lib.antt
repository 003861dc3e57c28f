-- ===== src/Lib.antt =====
-- Halephant is a connection pooler for PostgreSQL. A client speaks the protocol of
-- crates/halephant-core/src/proto to the proxy, which reads each statement (sql), borrows a server
-- connection from the pool for a transaction and forwards messages in both directions. Statements that
-- clients prepare get canonical names, which are shared by all clients (pool/prepared.rs,
-- proxy/prepared.rs) and prepared on a server connection when they are needed
-- (connections/server.rs). A path that does not begin with crates/ is below
-- crates/halephant-core/src/.
--
-- Prelude passes on the libraries' names and holds the models of HashSet (Sets) and HashMap (Map).
-- Text is a list of code points; a machine integer is a native number, with its wrap-around written
-- out.
--
-- Statements models the prepared statements. Lru is `Lru` and Replies is `PreparedStatements` of
-- connections/server.rs, Store is `StatementStore` of pool/prepared.rs, Client is `ClientPrepared` of
-- proxy/prepared.rs. Replies/Link puts a server connection beside PostgreSQL, a parameter with its
-- documented behaviour, and runs both on any sequence of calls, replies, errors and changes of
-- session: an error of the extended protocol skips what is in flight up to the next `Sync`, one of a
-- simple query skips nothing, and a reset may leave replies unread. Where halephant then drops a
-- record that it needs, its records and the server part (`NeverDrops`, and Replies/Link/Gaps for what
-- happens then). SHA-256 is a parameter.
--
-- Proto models proto/. Frontend and Backend have the messages, with a child each for the parsers
-- (Parsing), for `encode` (Encoding) and for the wire form apart from the code (Layout). Primitives is
-- primitives.rs, Buffer has coding.rs, Codec is codec.rs. The parser library chumsky and the buffers of
-- bytes are records of operations with their documented behaviour (Chumsky, Buffer), and a child Lists
-- of each shows that there are such operations. An error is the place where it stands, without its
-- text, and a panic is an outcome of its own. A `loop` of a parser runs on one more unit of fuel than
-- bytes are left: each round that goes on takes a byte, so no more is needed (Primitives/Loop, and
-- Frontend/Ends for the parameters of a startup). The round trips have counts below 2 ^ 15, since a
-- count is an `i16`.
--
-- Proxy models the transaction mode of proxy/. Intercept is intercept.rs, Outbound has the rewriting of
-- prepared.rs and the tracking of session state, Transaction is the loop of transaction.rs while a
-- server connection is held, and Idle the loop around it, with checkout and check-in as events. An
-- event is a message of the client, the server or the listener, so any order of them is a list. A send
-- succeeds. Outbound/Replays follows what may be prepared again for the names of a client, over a store
-- that other clients filled. Outbound/Follows and Transaction/Recorded relate what this loop does to
-- the model of Replies/Link. Spans and counters are left out. Messages has the frames of messages/.
-- Connections has connections/reset.rs, where the replies of the server are a list, and
-- connections/options.rs.
--
-- Sql models sql/parser.rs over the tokens that sql/lexer.rs yields: Cursor has the cursor and the scan
-- for transaction modes, Settings the statements on parameters, Parser the rest, Ast the statements with
-- their predicates. The cursor is the list of the tokens that are left, so every loop is a recursion
-- on it and needs no fuel.
--
-- Config models the records of config/ with their lookups and the validation, and in Reload a reload,
-- where what reading the file yields is an argument.
--
-- Pool models pool/ on the map from a node, a database and a user to its connections. Types has the
-- pools and the totals, Limits is candidates.rs, Checkout is `try_candidates` with its ranking and
-- eviction, Refill has check-in, the outcome of a reset, refill, scavenge and drains, Waits is wait.rs
-- and Steps runs these operations in any order, Inner has the operations on pools and queues together.
-- Time is an argument, `now`; whether a socket is alive, whether a waiter still listens and what
-- opening or resetting a connection yields are parameters. The checkout loop that combines these is
-- not modelled. Topology has the lookups of topology/mod.rs and, in Refresh, a refresh with the nodes
-- to drain; what the probes of the nodes find is a parameter.
--
-- Auth models auth/pgpass.rs (Pgpass) and addr/split_addr.rs (Address).
--
-- Not modelled: the SQL lexer, the session mode and the startup of a client (proxy), opening a server
-- connection, SCRAM and the auth query (auth), the client registry, the listener, the admin server,
-- metrics and the program's start. A counter of 64 bits is taken not to overflow.
pub mod Prelude
pub mod Statements
pub mod Proto
pub mod Sql
pub mod Config
pub mod Auth
pub mod Pool
pub mod Topology
pub mod Connections
pub mod Proxy
