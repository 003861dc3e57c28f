-- ===== src/Statements/Replies/Link/Gaps.antt =====
-- Two histories after which the cache and the queues of a connection no longer match the server.
use halephant.Prelude.{
  ◌≡◌, ◌≢◌, inl, inr, Bool-cases, ◌++◌, refl, ap, ◌∙◌, true, false, List, [], ◌∷◌, some, Text,
  text_eq, arith,
}
use halephant.Statements.Lru
use halephant.Statements.Lru.Bounds.{IsValid}
use halephant.Statements.Lru.Contents.{contains-insert_fresh}
use halephant.Statements.Replies.Link.{
  Backend, Sent, parse, evict, close_portal, discard, sync, Link, after_sync, has_sync, apply_all,
  client_parse, failed,
}
use halephant.Statements.Replies.Link.Aligned.{owner, decision}
use halephant.Statements.Replies.Link.Held.{named}
use halephant.Statements.Replies.Link.Sound.{contains-roll_back}
use halephant.Statements.Replies.{
  Reply, ParseReply, PreparedStatements, synthesize, record_prepare, note_client_parse,
  next_parse_reply, roll_back_after_error,
}

after_sync-append : (xs ys : List Sent) → has_sync xs ≡ false → after_sync (xs ++ sync ∷ ys) ≡ ys
after_sync-append [] ys h = refl
after_sync-append (parse r c ∷ xs) ys h = after_sync-append xs ys h
after_sync-append (evict c ∷ xs) ys h = after_sync-append xs ys h
after_sync-append (close_portal ∷ xs) ys h = after_sync-append xs ys h
after_sync-append (discard ∷ xs) ys h = after_sync-append xs ys h
after_sync-append (sync ∷ xs) ys h = cc

after_sync_none :
    (xs ys : List Sent) → has_sync xs ≡ false → has_sync ys ≡ false → after_sync (xs ++ ys) ≡ []
after_sync_none [] [] h k = refl
after_sync_none [] (parse r c ∷ ys) h k = after_sync_none [] ys h k
after_sync_none [] (evict c ∷ ys) h k = after_sync_none [] ys h k
after_sync_none [] (close_portal ∷ ys) h k = after_sync_none [] ys h k
after_sync_none [] (discard ∷ ys) h k = after_sync_none [] ys h k
after_sync_none [] (sync ∷ ys) h k = cc
after_sync_none (parse r c ∷ xs) ys h k = after_sync_none xs ys h k
after_sync_none (evict c ∷ xs) ys h k = after_sync_none xs ys h k
after_sync_none (close_portal ∷ xs) ys h k = after_sync_none xs ys h k
after_sync_none (discard ∷ xs) ys h k = after_sync_none xs ys h k
after_sync_none (sync ∷ xs) ys h k = cc

named-concat :
    (rs : List ParseReply) (r : ParseReply) (n : Text)
    → named n (rs ++ r ∷ []) ≡ false
    → ¬ (r.canon ≡ n)
named-concat [] r n h e = ground arith
named-concat (x ∷ rs) r n h e = named-concat rs r n (ground arith) e

not_left :
    (p : PreparedStatements) (c v : Text)
    → IsValid p.cache
    → Lru.contains p.cache c ≡ false
    → (Lru.insert p.cache c).1 ≡ some v
    → ¬ (Lru.contains (roll_back_after_error (record_prepare p c Reply.forward).0).cache v ≡ true)
unfolding record_prepare roll_back_after_error
not_left p c v d fresh e h =
    let (held, unnamed) =
      contains-roll_back (Lru.insert p.cache c).0
        (p.parse_replies ++ record { reply = Reply.forward; canon = c } ∷ []) v h in
    let other =
      named-concat p.parse_replies (record { reply = Reply.forward; canon = c }) v unnamed in
    let full = contains-insert_fresh p.cache c v d fresh in ground (arith, other, full, held, e)

victim_gone :
    (p : PreparedStatements) (c v : Text)
    → IsValid p.cache
    → Lru.contains p.cache c ≡ false
    → (Lru.insert p.cache c).1 ≡ some v
    → Lru.contains (roll_back_after_error (note_client_parse p c).0).cache v ≡ false
unfolding note_client_parse
victim_gone p c v d fresh e =
    rw fresh
      (elim (Bool-cases
        (Lru.contains (roll_back_after_error (record_prepare p c Reply.forward).0).cache v)) [
          | inl h ↦ absurd (not_left p c v d fresh e h)
          | inr h ↦ h
        ])

forwards_again :
    (p : PreparedStatements) (v : Text)
    → Lru.contains p.cache v ≡ false
    → (note_client_parse p v).1 ≢ synthesize
unfolding note_client_parse
forwards_again p v h = ground arith

module _ (b : Backend) where
  sent_eviction :
      (l : Link b.State) (c v : Text)
      → Lru.contains l.statements.cache c ≡ false
      → (Lru.insert l.statements.cache c).1 ≡ some v
      → (client_parse b c l).inflight ≡ l.inflight ++ evict v ∷ parse Reply.forward c ∷ []
  unfolding note_client_parse record_prepare
  sent_eviction l c v fresh e = rw (fresh, e) refl

  -- When the server rejects a message of the extended protocol while a re-preparation (`Parse` sent by halephant) waits
  -- behind a later `Sync`, the server still answers that `Parse`, and its `ParseComplete` is
  -- forwarded to the client, which never asked for it.
  pub failed_late_sync :
      (l : Link b.State) (skipped rest : List Sent) (c : Text)
      → has_sync skipped ≡ false
      → l.inflight ≡ skipped ++ sync ∷ parse Reply.suppress c ∷ rest
      → ((failed b l).inflight ≡ parse Reply.suppress c ∷ rest)
        × (decision (parse Reply.suppress c) (failed b l).statements ≡ some Reply.forward)
        × (owner (parse Reply.suppress c) ≡ some Reply.suppress)
  unfolding roll_back_after_error next_parse_reply
  failed_late_sync l skipped rest c h e =
      (ap after_sync e ∙ after_sync-append skipped (parse Reply.suppress c ∷ rest) h, refl, refl)

  -- When the server rejects a message of the extended protocol while the `Close` of a statement that
  -- gave way to a new one is in flight with no `Sync` behind it, and the server holds that statement,
  -- the server skips the `Close` with all the rest and still holds the statement when nothing is in
  -- flight, the cache no longer names it, and the next client `Parse` for it is sent although the
  -- server has it.
  pub failed_eviction :
      (l : Link b.State) (c v : Text)
      → IsValid l.statements.cache
      → Lru.contains l.statements.cache c ≡ false
      → (Lru.insert l.statements.cache c).1 ≡ some v
      → has_sync l.inflight ≡ false
      → b.holds l.held v ≡ true
      → let before = client_parse b c l in
        let after = failed b before in
        (before.inflight ≡ l.inflight ++ evict v ∷ parse Reply.forward c ∷ [])
        × (after.inflight ≡ [])
        × (b.holds (apply_all b after.held after.inflight) v ≡ true)
        × (Lru.contains after.statements.cache v ≡ false)
        × ((note_client_parse after.statements v).1 ≢ synthesize)
  failed_eviction l c v d fresh e q h =
      let gone = victim_gone l.statements c v d fresh e in
      let sent = sent_eviction l c v fresh e in
      let skipped = ap after_sync sent ∙ after_sync_none l.inflight _ q refl in
      (
        sent,
        skipped,
        rw skipped h,
        gone,
        forwards_again (failed b (client_parse b c l)).statements v gone,
      )
