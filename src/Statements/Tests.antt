-- ===== src/Statements/Tests.antt =====
-- The properties of prepared statements at concrete histories.
use halephant.Prelude.Map
use halephant.Prelude.Sets
use halephant.Prelude.Sets.{contains-insert, contains-remove}
use halephant.Prelude.{
  ℕ, ◌≡◌, ◌≢◌, refl, true, false, List, [], ◌∷◌, ◌++◌, some, Text, text_eq, text_dec, ℕ_discrete,
  arith, codes, get_elem?,
}
use halephant.Proto.Frontend.{Parse}
use halephant.Statements.Lru
use halephant.Statements.Lru.Bounds.{IsValid, new-IsValid}
use halephant.Statements.Lru.Recency.{Refines, insert-Refines}
use halephant.Statements.Replies
use halephant.Statements.Replies.Link.{
  Link, parse, sync, Reach, here, next, parses, syncs, errors, answered, replies, open_link,
  client_parse, reprepare, client_sync, failed,
}
use halephant.Statements.Replies.Link.Names.{session}
use halephant.Statements.Replies.Link.Aligned.{decision}
use halephant.Statements.Replies.Link.Gaps.{failed_late_sync, failed_eviction}
use halephant.Statements.Replies.{Reply, PreparedStatements, synthesize, note_client_parse}
use halephant.Statements.Client.Sessions.{
  Action, World, run, start, refs-run, get-resolve, all_uses,
}
use halephant.Statements.Client.Sessions
use halephant.Statements.Client
use halephant.Statements.Client.{canonical_name, ClientPrepared, resolve}
use halephant.Statements.Store

abbrev first : Text
first = codes "a"

abbrev second : Text
second = codes "b"

insert-Refines_example : Refines (Lru.new 1) first (Lru.insert (Lru.new 1) first)
insert-Refines_example = insert-Refines (Lru.new 1) first (new-IsValid 1 (omega arith))

-- One place, two statements: the second takes the place of the first.
abbrev crowded : Link (List Text)
crowded = client_parse session second (client_parse session first (open_link session 1))

crowded-Reach : Reach session (open_link session 1) crowded
crowded-Reach =
    next (next here (parses (open_link session 1) first))
      (parses (client_parse session first (open_link session 1)) second)

-- A `Parse` and a `Sync` of a client, an error, and the next `Parse`.
abbrev synced : Link (List Text)
synced = client_sync session (client_parse session first (open_link session 1))

abbrev recovered : Link (List Text)
recovered = client_parse session second (failed session synced)

recovered-Reach : Reach session (open_link session 1) recovered
recovered-Reach =
    next
      (next
        (next (next here (parses (open_link session 1) first))
          (syncs (client_parse session first (open_link session 1))))
        (errors synced))
      (parses (failed session synced) second)

-- The first statement is confirmed, and a second `Parse` waits.
abbrev settled : ℕ → Link (List Text)
settled max =
    answered session (parse Reply.forward first) []
      (client_parse session first (open_link session max))

opened_inflight :
    (client_parse session first (open_link session 2)).inflight ≡ parse Reply.forward first ∷ []
unfolding Replies.new Lru.new note_client_parse Replies.record_prepare Lru.insert Lru.contains
    Lru.add Sets.contains Sets.insert
opened_inflight = refl

settled-Reach : Reach session (open_link session 2) (settled 2)
settled-Reach = next (next here (parses (open_link session 2) first)) (
    replies (client_parse session first (open_link session 2)) (parse Reply.forward first) []
      opened_inflight)

abbrev late : Link (List Text)
late =
    reprepare session second
      (client_sync session (client_parse session first (open_link session 2)))

late_inflight :
    late.inflight ≡ (parse Reply.forward first ∷ []) ++ sync ∷ parse Reply.suppress second ∷ []
unfolding Replies.new Lru.new note_client_parse Replies.note_reprepare Replies.record_prepare
    Lru.insert Lru.contains Lru.add Sets.contains Sets.insert text_dec ℕ_discrete
late_inflight = refl

failed_late_sync_example :
    decision (parse Reply.suppress second) (failed session late).statements ≡ some Reply.forward
failed_late_sync_example =
    (failed_late_sync session late (parse Reply.forward first ∷ []) [] second refl late_inflight).1

settled-IsValid : IsValid (settled 1).statements.cache
unfolding Replies.new note_client_parse Replies.record_prepare Replies.next_parse_reply
settled-IsValid = rw fresh (insert-Refines (Lru.new 1) first (new-IsValid 1 (omega arith))).valid
  where
    fresh : Lru.contains (Lru.new 1) first ≡ false
    fresh = unfold Lru.new Lru.contains Sets.contains in refl

failed_eviction_example :
    (note_client_parse
      (failed session (client_parse session second (settled 1))).statements
      first).1
    ≢ synthesize
failed_eviction_example =
    (failed_eviction session (settled 1) second first settled-IsValid other full refl held).4
  where
    other : Lru.contains (settled 1).statements.cache second ≡ false
    other =
        unfold Replies.new Lru.new note_client_parse Replies.record_prepare Replies.next_parse_reply
          Lru.insert Lru.contains Lru.add Sets.contains Sets.insert Sets.remove text_dec
          ℕ_discrete in
        refl

    full : (Lru.insert (settled 1).statements.cache second).1 ≡ some first
    full =
        unfold Replies.new Lru.new note_client_parse Replies.record_prepare Replies.next_parse_reply
          Lru.insert Lru.contains Lru.add Lru.evict Sets.contains Sets.insert Sets.remove text_dec
          ℕ_discrete in
        refl

    held : Sets.contains first (settled 1).held ≡ true
    held = unfold Sets.contains Sets.insert text_dec ℕ_discrete in refl

-- Two clients prepare the same text under names of their own.
abbrev hash : List ℕ → List ℕ
hash bytes = bytes

abbrev said : Text → Parse
said name = record { name = name; query = codes "q"; param_types = [] }

abbrev shared : Text
shared = canonical_name hash (codes "q") []

abbrev twice : List (ℕ × Action)
twice = (0, Sessions.parses (said first)) ∷ (1, Sessions.parses (said second)) ∷ []

refs-run_example :
    Store.refs (run hash (start 2) twice).store shared
    ≡ all_uses shared (run hash (start 2) twice).clients
refs-run_example = refs-run hash 2 twice shared

get-resolve_example :
    (p : Parse) × (Store.get (run hash (start 2) twice).store shared ≡ some p)
    × (canonical_name hash p.query p.param_types ≡ shared)
    × (p.name ≡ [])
get-resolve_example =
    get-resolve hash 2 twice 0 (record { names = (first, shared) ∷ [] }) first shared at resolved
  where
    at :
        get_elem? (run hash (start 2) twice).clients 0
        ≡ some (record { names = (first, shared) ∷ [] })
    at = unfold Client.new Client.register Map.insert Map.lookup text_dec ℕ_discrete in refl

    resolved : resolve (record { names = (first, shared) ∷ [] }) first ≡ some shared
    resolved = unfold resolve Map.lookup text_dec ℕ_discrete in refl
