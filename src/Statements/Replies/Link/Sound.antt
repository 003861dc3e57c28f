-- ===== src/Statements/Replies/Link/Sound.antt =====
-- The cache claims only what the server holds.
use mathlib.Core.Bool.{false≢true}
use halephant.Prelude.{
  ◌≡◌, ◌++◌, refl, sym, ap, ◌∙◌, ite, inl, inr, Bool, true, false, List, [], ◌∷◌, Option, none,
  some, Text, text_eq, text_dec, arith, append-nil, Bool-cases,
}
use halephant.Statements.Lru
use halephant.Statements.Lru.{Lru}
use halephant.Statements.Lru.Bounds.{IsValid, touch-IsValid, remove-IsValid, clear-IsValid}
use halephant.Statements.Lru.Contents.{
  without, contains-insert_fresh, contains-remove_lem, contains-clear, contains-touch,
}
use halephant.Statements.Lru.Recency.{insert-Refines}
use halephant.Statements.Replies.Link.Held.{named, apply_all-append, held_mono, held_skipped}
use halephant.Statements.Replies.Link.{
  Backend, Sent, parse, evict, close_portal, discard, sync, Link, evictions, answer, after_sync,
  apply, apply_all, client_parse, reprepare, query_failed, Step, parses, reprepares, closes,
  discards, syncs, replies, errors, query_errors, discard_errors, sessions, Reach, here, next,
  DropsNone, NeverDrops,
}
use halephant.Statements.Replies.Link.Aligned.{
  IsAligned, Step-IsAligned, prepare-IsAligned, pending_parses,
}
use halephant.Statements.Replies.{
  Reply, ParseReply, PreparedStatements, record_prepare, note_client_parse, note_reprepare,
  note_portal_close, next_parse_reply, next_close_reply, roll_back, roll_back_after_error,
  discard_all, reset_pending,
}

pub contains-roll_back :
    (l : Lru) (rs : List ParseReply) (n : Text)
    → Lru.contains (roll_back l rs) n ≡ true
    → (Lru.contains l n ≡ true) × (named n rs ≡ false)
unfolding roll_back
contains-roll_back l [] n h = (h, refl)
contains-roll_back l (r ∷ rest) n h =
    ground
      (arith, contains-roll_back (Lru.remove l r.canon) rest n h, contains-remove_lem l r.canon n)

roll_back-IsValid : (l : Lru) (rs : List ParseReply) → IsValid l → IsValid (roll_back l rs)
unfolding roll_back
roll_back-IsValid l [] v = v
roll_back-IsValid l (r ∷ rest) v =
    roll_back-IsValid (Lru.remove l r.canon) rest (remove-IsValid l r.canon v)

discarded : (p : PreparedStatements) (n : Text) → Lru.contains (discard_all p).cache n ≡ false
unfolding discard_all
discarded p n = contains-clear p.cache n

without_mono :
    (o : Option Text) (c n : Text) (x y : Bool)
    → (x ≡ true → y ≡ true)
    → ite (text_dec c n) true (without o n x) ≡ true
    → ite (text_dec c n) true (without o n y) ≡ true
without_mono none c n x y f h = ground arith
without_mono (some v) c n x y f h = ground arith

module _ (b : Backend) where
  pub record IsSound (l : Link b.State) : Type 0 where
    pub aligned : IsAligned l
    pub valid : IsValid l.statements.cache
    pub claims :
        (n : Text)
        → Lru.contains l.statements.cache n ≡ true
        → b.holds (apply_all b l.held l.inflight) n ≡ true

  holds_sent :
      (s : b.State) (o : Option Text) (c n : Text) (r : Reply)
      → b.holds (apply_all b s (evictions o ++ parse r c ∷ [])) n
        ≡ ite (text_dec c n) true (without o n (b.holds s n))
  holds_sent s none c n r = b.holds-parse c n s
  holds_sent s (some v) c n r = rw (b.holds-parse c n (b.close v s), b.holds-close v n s)

  prepared_claims :
      (l : Link b.State) (c n : Text) (r : Reply)
      → IsSound l
      → Lru.contains l.statements.cache c ≡ false
      → let (p, eviction) = record_prepare l.statements c r in
        Lru.contains p.cache n ≡ true
        → b.holds (apply_all b l.held (l.inflight ++ (evictions eviction ++ parse r c ∷ []))) n
          ≡ true
  unfolding record_prepare
  prepared_claims l c n r v fresh h =
      rw
        (
          apply_all-append b l.held l.inflight,
          holds_sent (apply_all b l.held l.inflight) (Lru.insert l.statements.cache c).1 c n r,
        )
        (without_mono (Lru.insert l.statements.cache c).1 c n (Lru.contains l.statements.cache n) _
          (v.claims n) (sym (contains-insert_fresh l.statements.cache c n v.valid fresh) ∙ h))

  prepared-IsSound :
      (l : Link b.State) (c : Text) (r : Reply)
      → IsSound l
      → Lru.contains l.statements.cache c ≡ false
      → let (p, eviction) = record_prepare l.statements c r in
        IsSound (record l {
          statements = p;
          inflight = l.inflight ++ (evictions eviction ++ parse r c ∷ []);
        })
  unfolding record_prepare
  prepared-IsSound l c r v fresh = record {
    aligned = prepare-IsAligned l c r v.aligned;
    valid = (insert-Refines l.statements.cache c v.valid).valid;
    claims = λ n h. prepared_claims l c n r v fresh h;
  }

  touched-IsSound :
      (l : Link b.State) (c : Text)
      → IsSound l
      → Lru.contains l.statements.cache c ≡ true
      → IsSound (record l {
        statements = record (l.statements) { cache = Lru.touch l.statements.cache c };
        inflight = l.inflight ++ [];
      })
  touched-IsSound l c v held = rw append-nil (record {
    aligned = record { of_parses = v.aligned.of_parses; of_closes = v.aligned.of_closes };
    valid = touch-IsValid l.statements.cache c v.valid held;
    claims = λ n h. v.claims n (sym (contains-touch l.statements.cache c n) ∙ h);
  })

  client_parse-IsSound : (l : Link b.State) (c : Text) → IsSound l → IsSound (client_parse b c l)
  unfolding note_client_parse
  client_parse-IsSound l c v = elim (Bool-cases (Lru.contains l.statements.cache c)) [
    | inl held ↦ rw held (touched-IsSound l c v held)
    | inr fresh ↦ rw fresh (prepared-IsSound l c Reply.forward v fresh)
  ]

  reprepare-IsSound : (l : Link b.State) (c : Text) → IsSound l → IsSound (reprepare b c l)
  unfolding note_reprepare
  reprepare-IsSound l c v = elim (Bool-cases (Lru.contains l.statements.cache c)) [
    | inl held ↦ rw held (touched-IsSound l c v held)
    | inr fresh ↦ rw fresh (prepared-IsSound l c Reply.suppress v fresh)
  ]

  -- A message that prepares nothing and closes nothing.
  quiet_claims :
      (l : Link b.State) (m : Sent) (n : Text)
      → apply b (apply_all b l.held l.inflight) m ≡ apply_all b l.held l.inflight
      → b.holds (apply_all b l.held l.inflight) n ≡ true
      → b.holds (apply_all b l.held (l.inflight ++ m ∷ [])) n ≡ true
  quiet_claims l m n e h = rw (apply_all-append b l.held l.inflight, e) h

  answer_cache : (m : Sent) (p : PreparedStatements) → (answer m p).cache ≡ p.cache
  unfolding next_parse_reply next_close_reply
  answer_cache (parse r c) p = ground arith
  answer_cache (evict c) p = ground arith
  answer_cache close_portal p = ground arith
  answer_cache discard p = refl
  answer_cache sync p = refl

  -- What the roll-back leaves in the cache no message in flight prepares.
  left_claims :
      (l : Link b.State) (n : Text)
      → IsSound l
      → Lru.contains (roll_back_after_error l.statements).cache n ≡ true
      → (named n (pending_parses l.inflight) ≡ false)
        × (b.holds (apply_all b l.held l.inflight) n ≡ true)
  unfolding roll_back_after_error
  left_claims l n v h =
      let (held, unnamed) = contains-roll_back l.statements.cache l.statements.parse_replies n h in
      (rw v.aligned.of_parses at unnamed, v.claims n held)

  rolled_back-IsSound :
      (l : Link b.State) (rest : List Sent)
      → IsAligned (query_failed b rest l)
      → ((n : Text)
          → named n (pending_parses l.inflight) ≡ false
          → b.holds (apply_all b l.held l.inflight) n ≡ true
          → b.holds (apply_all b l.held rest) n ≡ true)
      → IsSound l
      → IsSound (query_failed b rest l)
  rolled_back-IsSound l rest a f v = record {
    aligned = a;
    valid =
        unfold roll_back_after_error in
        roll_back-IsValid l.statements.cache l.statements.parse_replies v.valid;
    claims = λ n c. let (unnamed, held) = left_claims l n v c in f n unnamed held;
  }

  -- A `DISCARD ALL` that fails discards nothing.
  undiscarded :
      (l : Link b.State) (rest : List Sent) (n : Text)
      → l.inflight ≡ discard ∷ rest
      → b.holds (apply_all b l.held l.inflight) n ≡ true
      → b.holds (apply_all b l.held rest) n ≡ true
  undiscarded l rest n e h =
      held_mono b (b.discard l.held) l.held rest n (λ k. ground (arith, b.holds-discard n l.held))
        (rw e at h)

  with_statements :
      (l : Link b.State) (p : PreparedStatements) (sent : List Sent) (held : b.State)
      → IsAligned (record { statements = p; inflight = sent; held = held })
      → p.cache ≡ l.statements.cache
      → apply_all b held sent ≡ apply_all b l.held l.inflight
      → IsSound l
      → IsSound (record { statements = p; inflight = sent; held = held })
  with_statements l p sent held a c e v = record {
    aligned = a;
    valid = rw c v.valid;
    claims = λ n h. rw e (v.claims n (rw c at h));
  }

  Step-IsSound : {l m : Link b.State} (s : Step b l m) → DropsNone b s → IsSound l → IsSound m
  Step-IsSound (parses l c) d v = client_parse-IsSound l c v
  Step-IsSound (reprepares l c) d v = reprepare-IsSound l c v
  Step-IsSound (closes l) d v =
      with_statements l (note_portal_close l.statements) (l.inflight ++ close_portal ∷ []) l.held
        (Step-IsAligned b (closes l) d v.aligned) (unfold note_portal_close in refl)
        (apply_all-append b l.held l.inflight (close_portal ∷ [])) v
  Step-IsSound (discards l) d v = record {
    aligned = Step-IsAligned b (discards l) d v.aligned;
    valid = unfold discard_all in clear-IsValid l.statements.cache v.valid;
    claims = λ n h. absurd (false≢true (sym (discarded l.statements n) ∙ h));
  }
  Step-IsSound (syncs l) d v =
      with_statements l l.statements (l.inflight ++ sync ∷ []) l.held
        (Step-IsAligned b (syncs l) d v.aligned) refl
        (apply_all-append b l.held l.inflight (sync ∷ [])) v
  Step-IsSound (replies l m rest e) d v =
      with_statements l (answer m l.statements) rest (apply b l.held m)
        (Step-IsAligned b (replies l m rest e) d v.aligned) (answer_cache m l.statements)
        (sym (ap (apply_all b l.held) e)) v
  Step-IsSound (errors l) d v =
      rolled_back-IsSound l (after_sync l.inflight) (Step-IsAligned b (errors l) d v.aligned)
        (λ n p h. held_skipped b l.held l.inflight n p h) v
  Step-IsSound (query_errors l) d v =
      rolled_back-IsSound l l.inflight (Step-IsAligned b (query_errors l) d v.aligned) (λ n p h. h)
        v
  Step-IsSound (discard_errors l rest e) d v =
      rolled_back-IsSound l rest (Step-IsAligned b (discard_errors l rest e) d v.aligned)
        (λ n p h. undiscarded l rest n e h) v
  Step-IsSound (sessions l read unread e) d v =
      with_statements l (reset_pending l.statements) unread (apply_all b l.held read)
        (Step-IsAligned b (sessions l read unread e) d v.aligned) (unfold reset_pending in refl)
        (sym (ap (apply_all b l.held) e ∙ apply_all-append b l.held read unread)) v

  pub Reach-IsSound :
      {l m : Link b.State} → IsSound l → (r : Reach b l m) → NeverDrops b r → IsSound m
  Reach-IsSound v here d = v
  Reach-IsSound v (next r s) d = Step-IsSound s d.1 (Reach-IsSound v r d.0)
