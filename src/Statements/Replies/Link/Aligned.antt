-- ===== src/Statements/Replies/Link/Aligned.antt =====
-- The queues of dispositions and the unanswered messages, in step.
use halephant.Prelude.{
  ◌≡◌, ◌++◌, refl, sym, ap, ◌∙◌, inl, inr, List, [], ◌∷◌, Option, none, some, Text, text_eq,
  append-nil, Bool-cases, ℕ, true,
}
use halephant.Statements.Lru
use halephant.Statements.Replies.Link.{
  Backend, Sent, parse, evict, close_portal, discard, sync, Link, evictions, after_sync, quiet,
  apply_all, open_link, client_parse, reprepare, answered, query_failed, Step, parses, reprepares,
  closes, discards, syncs, replies, errors, query_errors, discard_errors, sessions, Reach, here,
  next, DropsNone, NeverDrops,
}
use halephant.Statements.Replies.{
  Reply, ParseReply, PreparedStatements, new, record_prepare, note_client_parse, note_reprepare,
  note_portal_close, next_parse_reply, next_close_reply, roll_back_after_error, discard_all,
  reset_pending, queue_eviction,
}

abbrev pub pending_parses : List Sent → List ParseReply
pending_parses [] = []
pending_parses (parse r c ∷ rest) = record { reply = r; canon = c } ∷ pending_parses rest
pending_parses (m ∷ rest) = pending_parses rest

abbrev pub pending_closes : List Sent → List Reply
pending_closes [] = []
pending_closes (evict c ∷ rest) = Reply.suppress ∷ pending_closes rest
pending_closes (close_portal ∷ rest) = Reply.forward ∷ pending_closes rest
pending_closes (m ∷ rest) = pending_closes rest

pub pending_parses-append :
    (xs ys : List Sent) → pending_parses (xs ++ ys) ≡ pending_parses xs ++ pending_parses ys
pending_parses-append [] ys = refl
pending_parses-append (parse r c ∷ xs) ys =
    ap (◌∷◌ (record { reply = r; canon = c })) (pending_parses-append xs ys)
pending_parses-append (evict c ∷ xs) ys = pending_parses-append xs ys
pending_parses-append (close_portal ∷ xs) ys = pending_parses-append xs ys
pending_parses-append (discard ∷ xs) ys = pending_parses-append xs ys
pending_parses-append (sync ∷ xs) ys = pending_parses-append xs ys

pub pending_closes-append :
    (xs ys : List Sent) → pending_closes (xs ++ ys) ≡ pending_closes xs ++ pending_closes ys
pending_closes-append [] ys = refl
pending_closes-append (parse r c ∷ xs) ys = pending_closes-append xs ys
pending_closes-append (evict c ∷ xs) ys = ap (◌∷◌ Reply.suppress) (pending_closes-append xs ys)
pending_closes-append (close_portal ∷ xs) ys = ap (◌∷◌ Reply.forward) (pending_closes-append xs ys)
pending_closes-append (discard ∷ xs) ys = pending_closes-append xs ys
pending_closes-append (sync ∷ xs) ys = pending_closes-append xs ys

-- Each message in flight that will draw a reply has its disposition queued, in order.
pub record IsAligned {S : Type 0} (l : Link S) : Type 0 where
  pub of_parses : l.statements.parse_replies ≡ pending_parses l.inflight
  pub of_closes : l.statements.close_replies ≡ pending_closes l.inflight

module _ {S : Type 0} where
  -- Messages at the back of the line, and their dispositions at the back of the queues.
  extend :
      (l : Link S) (ps : PreparedStatements) (sent : List Sent)
      → IsAligned l
      → ps.parse_replies ≡ l.statements.parse_replies ++ pending_parses sent
      → ps.close_replies ≡ l.statements.close_replies ++ pending_closes sent
      → IsAligned (record l { statements = ps; inflight = l.inflight ++ sent })
  extend l ps sent a p c = record {
    of_parses =
        p
        ∙ ap (λ q. q ++ pending_parses sent) a.of_parses
        ∙ sym (pending_parses-append l.inflight sent);
    of_closes =
        c
        ∙ ap (λ q. q ++ pending_closes sent) a.of_closes
        ∙ sym (pending_closes-append l.inflight sent);
  }

queue_eviction-append :
    (o : Option Text) (q : List Reply) (c : Text) (r : Reply)
    → queue_eviction o q ≡ q ++ pending_closes (evictions o ++ parse r c ∷ [])
unfolding queue_eviction
queue_eviction-append none q c r = sym (append-nil q)
queue_eviction-append (some v) q c r = refl

pending_parses-evictions :
    (o : Option Text) (c : Text) (r : Reply)
    → pending_parses (evictions o ++ parse r c ∷ []) ≡ record { reply = r; canon = c } ∷ []
pending_parses-evictions none c r = refl
pending_parses-evictions (some v) c r = refl

-- A disposition and its messages are queued together.
pub prepare-IsAligned :
    {S : Type 0} (l : Link S) (c : Text) (r : Reply)
    → IsAligned l
    → let (p, eviction) = record_prepare l.statements c r in
      IsAligned (record l {
        statements = p;
        inflight = l.inflight ++ (evictions eviction ++ parse r c ∷ []);
      })
unfolding record_prepare
prepare-IsAligned l c r a =
    extend l (record_prepare l.statements c r).0
      (evictions (Lru.insert l.statements.cache c).1 ++ parse r c ∷ []) a
      (ap (λ q. l.statements.parse_replies ++ q)
        (sym (pending_parses-evictions (Lru.insert l.statements.cache c).1 c r)))
      (queue_eviction-append (Lru.insert l.statements.cache c).1 l.statements.close_replies c r)

pub quiet-parses : (sent : List Sent) → quiet sent ≡ true → pending_parses sent ≡ []
quiet-parses [] h = refl
quiet-parses (parse r c ∷ sent) h = cc
quiet-parses (evict c ∷ sent) h = cc
quiet-parses (close_portal ∷ sent) h = cc
quiet-parses (discard ∷ sent) h = quiet-parses sent h
quiet-parses (sync ∷ sent) h = quiet-parses sent h

quiet-closes : (sent : List Sent) → quiet sent ≡ true → pending_closes sent ≡ []
quiet-closes [] h = refl
quiet-closes (parse r c ∷ sent) h = cc
quiet-closes (evict c ∷ sent) h = cc
quiet-closes (close_portal ∷ sent) h = cc
quiet-closes (discard ∷ sent) h = quiet-closes sent h
quiet-closes (sync ∷ sent) h = quiet-closes sent h

-- Empty queues beside messages that draw no reply of theirs.
cleared-IsAligned :
    {S : Type 0}
    → (p : PreparedStatements) (sent : List Sent) (held : S) → p.parse_replies ≡ []
    → p.close_replies ≡ []
    → quiet sent ≡ true
    → IsAligned (record { statements = p; inflight = sent; held = held })
cleared-IsAligned p sent held e f h = record {
  of_parses = e ∙ sym (quiet-parses sent h);
  of_closes = f ∙ sym (quiet-closes sent h);
}

-- Who asked for the reply to a message.
abbrev pub owner : Sent → Option Reply
owner (parse r c) = some r
owner (evict c) = some Reply.suppress
owner close_portal = some Reply.forward
owner discard = none
owner sync = none

-- What the proxy decides when the reply to a message arrives.
abbrev pub decision : Sent → PreparedStatements → Option Reply
decision (parse r c) p = some (next_parse_reply p).1
decision (evict c) p = some (next_close_reply p).1
decision close_portal p = some (next_close_reply p).1
decision discard p = none
decision sync p = none

module _ (b : Backend) where
  client_parse-IsAligned :
      (l : Link b.State) (c : Text) → IsAligned l → IsAligned (client_parse b c l)
  unfolding note_client_parse
  client_parse-IsAligned l c a = elim (Bool-cases (Lru.contains l.statements.cache c)) [
    | inl held ↦
        rw held (rw append-nil (record { of_parses = a.of_parses; of_closes = a.of_closes }))
    | inr fresh ↦ rw fresh (prepare-IsAligned l c Reply.forward a)
  ]

  reprepare-IsAligned : (l : Link b.State) (c : Text) → IsAligned l → IsAligned (reprepare b c l)
  unfolding note_reprepare
  reprepare-IsAligned l c a = elim (Bool-cases (Lru.contains l.statements.cache c)) [
    | inl held ↦
        rw held (rw append-nil (record { of_parses = a.of_parses; of_closes = a.of_closes }))
    | inr fresh ↦ rw fresh (prepare-IsAligned l c Reply.suppress a)
  ]

  answered-IsAligned :
      (l : Link b.State) (m : Sent) (rest : List Sent)
      → l.inflight ≡ m ∷ rest
      → IsAligned l
      → IsAligned (answered b m rest l)
  unfolding next_parse_reply next_close_reply
  answered-IsAligned l (parse r c) rest e a =
      rw (a.of_parses ∙ ap pending_parses e)
        (record { of_parses = refl; of_closes = a.of_closes ∙ ap pending_closes e })
  answered-IsAligned l (evict c) rest e a =
      rw (a.of_closes ∙ ap pending_closes e)
        (record { of_parses = a.of_parses ∙ ap pending_parses e; of_closes = refl })
  answered-IsAligned l close_portal rest e a =
      rw (a.of_closes ∙ ap pending_closes e)
        (record { of_parses = a.of_parses ∙ ap pending_parses e; of_closes = refl })
  answered-IsAligned l discard rest e a = record {
    of_parses = a.of_parses ∙ ap pending_parses e;
    of_closes = a.of_closes ∙ ap pending_closes e;
  }
  answered-IsAligned l sync rest e a = record {
    of_parses = a.of_parses ∙ ap pending_parses e;
    of_closes = a.of_closes ∙ ap pending_closes e;
  }

  rolled_back-IsAligned :
      (l : Link b.State) (sent : List Sent) → quiet sent ≡ true → IsAligned (query_failed b sent l)
  unfolding roll_back_after_error
  rolled_back-IsAligned l sent h =
      cleared-IsAligned (roll_back_after_error l.statements) sent l.held refl refl h

  pub Step-IsAligned :
      {l m : Link b.State} (s : Step b l m) → DropsNone b s → IsAligned l → IsAligned m
  unfolding note_portal_close discard_all reset_pending
  Step-IsAligned (parses l c) d a = client_parse-IsAligned l c a
  Step-IsAligned (reprepares l c) d a = reprepare-IsAligned l c a
  Step-IsAligned (closes l) d a = extend l _ (close_portal ∷ []) a (sym (append-nil _)) refl
  Step-IsAligned (discards l) d a =
      extend l _ (discard ∷ []) a (sym (append-nil _)) (sym (append-nil _))
  Step-IsAligned (syncs l) d a =
      extend l l.statements (sync ∷ []) a (sym (append-nil _)) (sym (append-nil _))
  Step-IsAligned (replies l m rest e) d a = answered-IsAligned l m rest e a
  Step-IsAligned (errors l) d a = rolled_back-IsAligned l (after_sync l.inflight) d
  Step-IsAligned (query_errors l) d a = rolled_back-IsAligned l l.inflight d
  Step-IsAligned (discard_errors l rest e) d a = rolled_back-IsAligned l rest d
  Step-IsAligned (sessions l read unread e) d a =
      cleared-IsAligned (reset_pending l.statements) unread (apply_all b l.held read) refl refl d

  pub Reach-IsAligned :
      {l m : Link b.State} → IsAligned l → (r : Reach b l m) → NeverDrops b r → IsAligned m
  Reach-IsAligned a here d = a
  Reach-IsAligned a (next r s) d = Step-IsAligned s d.1 (Reach-IsAligned a r d.0)

  pub open_link-IsAligned : (max : ℕ) → IsAligned (open_link b max)
  unfolding new
  open_link-IsAligned max = record { of_parses = refl; of_closes = refl }
