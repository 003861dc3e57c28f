-- ===== src/Proxy/Outbound/Follows.antt =====
-- The rewriting of a client's messages, as steps of the connection's model: what is recorded and
-- what is sent agree, message by message.
use halephant.Prelude.{
  ℕ, ◌≡◌, ◌++◌, ◌∙◌, ap, refl, sym, Bool, true, false, List, [], ◌∷◌, Option, none, some, Text,
  append-nil, append_assoc, map, arith,
}
use halephant.Proto.Frontend.{Parse, Describe, Close, TargetKind, FrontendMessage}
use halephant.Proxy.Messages.{Front}
use halephant.Proxy.Outbound.{
  Server, send_server, send_eviction, Rewritten, forwards, consumed, bails, inject, ensure_prepared,
  rewrite_name, rewrite_describe, rewrite_parse, parse_by, prepare_by, when_prepared,
  rewrite_target, rewrite_outbound, track, track_set_reset,
}
use halephant.Sql.Ast.{Statement, DiscardTarget, SetScope, ResetTarget}
use halephant.Sql.Parser.{parse_statement}
use halephant.Sql.Tokens.{Token}
use halephant.Statements.Client
use halephant.Statements.Replies.{
  PreparedStatements, ClientParse, Reprepare, note_client_parse, note_reprepare, note_portal_close,
  discard_all,
}
use halephant.Statements.Replies.Link.{
  Backend, Sent, Link, evictions, sent_for_parse, sent_for_reprepare, parses, reprepares, closes,
  discards, syncs, Reach, here, next,
}
use halephant.Statements.Store

-- What a message on the wire is to the model of a connection, apart from who asked for it.
pub data Shape : Type 0 where
  parse : Text → Shape
  close_statement : Text → Shape
  close_portal discard sync : Shape

abbrev pub shape : Sent → Shape
shape (Sent.parse r canon) = parse canon
shape (Sent.evict name) = close_statement name
shape Sent.close_portal = close_portal
shape Sent.discard = discard
shape Sent.sync = sync

discards_all : Statement → List Shape
discards_all (Statement.discard DiscardTarget.all) = discard ∷ []
discards_all _ = []

close_shape : TargetKind → Text → List Shape
close_shape TargetKind.statement name = close_statement name ∷ []
close_shape TargetKind.portal name = close_portal ∷ []

module _ (lex : Text → List Token) where
  unfoldable pub tracked : FrontendMessage → List Shape
  unfolding discards_all close_shape
  tracked (FrontendMessage.parse p) = parse p.name ∷ []
  tracked (FrontendMessage.close close) = close_shape close.kind close.name
  tracked FrontendMessage.sync = sync ∷ []
  tracked (FrontendMessage.query q) = discards_all (parse_statement (lex q))
  tracked _ = []

  unfoldable pub all_tracked : List FrontendMessage → List Shape
  all_tracked [] = []
  all_tracked (m ∷ ms) = tracked m ++ all_tracked ms

-- The model's state of a connection.
abbrev pub link_of : {S : Type 0} → S → List Sent → Server → Link S
link_of held inflight s = record { statements = s.statements; inflight = inflight; held = held }

-- From one state of the connection to another by steps of the model, with the messages sent between
-- them those that the model sends.
pub record Follows (b : Backend) (lex : Text → List Token) (held : b.State) (inflight : List Sent)
    (s after : Server) : Type 0 where
  pub added : List Sent
  pub out : List FrontendMessage
  pub reach : Reach b (link_of held inflight s) (link_of held (inflight ++ added) after)
  pub sent : after.sent ≡ s.sent ++ out
  pub same : map shape added ≡ all_tracked lex out

-- The messages of an eviction.
closing : Option Text → List FrontendMessage
closing none = []
closing (some v) = FrontendMessage.close (record { kind = TargetKind.statement; name = v }) ∷ []

send_eviction-sent : (o : Option Text) (s : Server) → (send_eviction o s).sent ≡ s.sent ++ closing o
unfolding send_eviction closing send_server
send_eviction-sent none s = sym (append-nil s.sent)
send_eviction-sent (some v) s = refl

send_eviction-statements :
    (o : Option Text) (s : Server) → (send_eviction o s).statements ≡ s.statements
unfolding send_eviction send_server
send_eviction-statements none s = refl
send_eviction-statements (some v) s = refl

prepared_shapes :
    (lex : Text → List Token) (o : Option Text) (r : halephant.Statements.Replies.Reply) (p : Parse)
    → map shape (evictions o ++ Sent.parse r p.name ∷ [])
      ≡ all_tracked lex (closing o ++ FrontendMessage.parse p ∷ [])
unfolding closing all_tracked tracked close_shape
prepared_shapes lex none r p = refl
prepared_shapes lex (some v) r p = refl

abbrev pub delivered : Front × Server × Rewritten → Server
delivered (c, s, forwards m) = send_server m s
delivered (c, s, consumed) = s
delivered (c, s, bails) = s

abbrev pub IsSent : Front × Server × Rewritten → Type 0
IsSent (c, s, bails) = ⊥
IsSent (c, s, _) = Unit

module _ (b : Backend) (lex : Text → List Token) (held : b.State) (inflight : List Sent) where
  -- Nothing recorded, and a message that the model does not know.
  unrecorded :
      (s after : Server) (m : FrontendMessage)
      → after.statements ≡ s.statements
      → after.sent ≡ s.sent
      → tracked lex m ≡ []
      → Follows b lex held inflight s (send_server m after)
  unfolding send_server all_tracked
  unrecorded s after m e f t = record {
    added = [];
    out = m ∷ [];
    reach = rw (e, append-nil inflight) here;
    sent = ap (λ xs. xs ++ m ∷ []) f;
    same = rw t refl;
  }

  -- An eviction and a `Parse` go out for what was recorded.
  prepared-Follows :
      (s : Server) (p : PreparedStatements) (o : Option Text)
      (r : halephant.Statements.Replies.Reply) (msg : Parse)
      → Reach b (link_of held inflight s) (record {
        statements = p;
        inflight = inflight ++ (evictions o ++ Sent.parse r msg.name ∷ []);
        held = held;
      })
      → Follows b lex held inflight s
          (send_server (FrontendMessage.parse msg) (send_eviction o (record s { statements = p })))
  unfolding send_server
  prepared-Follows s p o r msg h = record {
    added = evictions o ++ Sent.parse r msg.name ∷ [];
    out = closing o ++ FrontendMessage.parse msg ∷ [];
    reach = rw (send_eviction-statements o (record s { statements = p })) h;
    sent =
        ap (λ xs. xs ++ FrontendMessage.parse msg ∷ [])
          (send_eviction-sent o (record s { statements = p }))
        ∙ append_assoc s.sent (closing o) (FrontendMessage.parse msg ∷ []);
    same = prepared_shapes lex o r msg;
  }

  parse_by-Follows :
      (s : Server) (msg : Parse) (canon : Text) (c : Front) (p : PreparedStatements)
      (outcome : ClientParse)
      → Reach b (link_of held inflight s) (record {
        statements = p;
        inflight = inflight ++ sent_for_parse canon outcome;
        held = held;
      })
      → Follows b lex held inflight s
          (delivered (parse_by outcome msg canon c (record s { statements = p })))
  unfolding parse_by all_tracked
  parse_by-Follows s msg canon c p ClientParse.synthesize h = record {
    added = [];
    out = [];
    reach = h;
    sent = sym (append-nil s.sent);
    same = refl;
  }
  parse_by-Follows s msg canon c p (ClientParse.forward eviction) h =
      prepared-Follows s p eviction halephant.Statements.Replies.Reply.forward
        (record msg { name = canon }) h

  inject-Follows :
      (s : Server) (canon : Text) (found : Option Parse) (eviction : Option Text)
      (p : PreparedStatements)
      → Reach b (link_of held inflight s) (record {
        statements = p;
        inflight = inflight ++ sent_for_reprepare canon (Reprepare.prepare eviction);
        held = held;
      })
      → (inject canon found eviction (record s { statements = p })).1 ≡ true
      → Follows b lex held inflight s (inject canon found eviction (record s { statements = p })).0
  unfolding inject
  inject-Follows s canon none eviction p h e = absurd (ground arith)
  inject-Follows s canon (some msg) eviction p h e =
      prepared-Follows s p eviction halephant.Statements.Replies.Reply.suppress
        (record msg { name = canon }) h

  -- What preparing a statement again does, before the message that needs it.
  prepare_by-Follows :
      (s : Server) (canon : Text) (store : halephant.Statements.Store.StatementStore)
      (p : PreparedStatements) (outcome : Reprepare)
      → Reach b (link_of held inflight s) (record {
        statements = p;
        inflight = inflight ++ sent_for_reprepare canon outcome;
        held = held;
      })
      → (prepare_by outcome canon store (record s { statements = p })).1 ≡ true
      → Follows b lex held inflight s
          (prepare_by outcome canon store (record s { statements = p })).0
  unfolding prepare_by all_tracked
  prepare_by-Follows s canon store p Reprepare.already_prepared h e = record {
    added = [];
    out = [];
    reach = h;
    sent = sym (append-nil s.sent);
    same = refl;
  }
  prepare_by-Follows s canon store p (Reprepare.prepare eviction) h e =
      inject-Follows s canon (Store.get store canon) eviction p h e

  untracked-tail :
      (ms : List FrontendMessage) (m : FrontendMessage)
      → tracked lex m ≡ []
      → all_tracked lex (ms ++ m ∷ []) ≡ all_tracked lex ms
  unfolding all_tracked
  untracked-tail [] m t = rw t refl
  untracked-tail (n ∷ ms) m t = ap (λ shapes. tracked lex n ++ shapes) (untracked-tail ms m t)

  -- A message that the model does not know goes out behind the others.
  then-Follows :
      (s after : Server) (m : FrontendMessage)
      → tracked lex m ≡ []
      → Follows b lex held inflight s after
      → Follows b lex held inflight s (send_server m after)
  unfolding send_server
  then-Follows s after m t f = record {
    added = f.added;
    out = f.out ++ m ∷ [];
    reach = f.reach;
    sent = ap (λ xs. xs ++ m ∷ []) f.sent ∙ append_assoc s.sent f.out (m ∷ []);
    same = f.same ∙ sym (untracked-tail f.out m t);
  }

  when_prepared-Follows :
      (s : Server) (m : FrontendMessage) (c : Front) (ready : Server) (prepared : Bool)
      → tracked lex m ≡ []
      → (prepared ≡ true → Follows b lex held inflight s ready)
      → IsSent (when_prepared m c (ready, prepared))
      → Follows b lex held inflight s (delivered (when_prepared m c (ready, prepared)))
  unfolding when_prepared
  when_prepared-Follows s m c ready true t f i = then-Follows s ready m t (f refl)
  when_prepared-Follows s m c ready false t f i = absurd i

  rewrite_name-Follows :
      (s : Server) (o : Option Text) (unchanged : FrontendMessage)
      (renamed : Text → FrontendMessage) (c : Front)
      → tracked lex unchanged ≡ []
      → ((canon : Text) → tracked lex (renamed canon) ≡ [])
      → IsSent (rewrite_name o unchanged renamed c s)
      → Follows b lex held inflight s (delivered (rewrite_name o unchanged renamed c s))
  unfolding rewrite_name ensure_prepared
  rewrite_name-Follows s none unchanged renamed c t u i = unrecorded s s unchanged refl refl t
  rewrite_name-Follows s (some canon) unchanged renamed c t u i =
      when_prepared-Follows s (renamed canon) c _ _ (u canon)
        (prepare_by-Follows s canon c.store (note_reprepare s.statements canon).0
          (note_reprepare s.statements canon).1
          (next here (reprepares (link_of held inflight s) canon)))
        i

  rewrite_target-Follows :
      (s : Server) (kind : TargetKind) (d : Describe) (c : Front)
      → IsSent (rewrite_target kind d c s)
      → Follows b lex held inflight s (delivered (rewrite_target kind d c s))
  unfolding rewrite_target tracked
  rewrite_target-Follows s TargetKind.portal d c i =
      unrecorded s s (FrontendMessage.describe d) refl refl refl
  rewrite_target-Follows s TargetKind.statement d c i =
      rewrite_name-Follows s (Client.resolve c.prepared d.name) _ _ c refl (λ canon. refl) i

  -- A portal's `Close` and a `Sync` are recorded as they go out.
  close-Follows :
      (s : Server) (close : Close)
      → close.kind ≡ TargetKind.portal
      → Follows b lex held inflight s (
          send_server
            (FrontendMessage.close close)
            (record s { statements = note_portal_close s.statements }))
  unfolding send_server all_tracked tracked close_shape
  close-Follows s close k = record {
    added = Sent.close_portal ∷ [];
    out = FrontendMessage.close close ∷ [];
    reach = next here (closes (link_of held inflight s));
    sent = refl;
    same = rw k refl;
  }

  sync-Follows : (s : Server) → Follows b lex held inflight s (send_server FrontendMessage.sync s)
  unfolding send_server all_tracked tracked
  sync-Follows s = record {
    added = Sent.sync ∷ [];
    out = FrontendMessage.sync ∷ [];
    reach = next here (syncs (link_of held inflight s));
    sent = refl;
    same = refl;
  }

  discard-Follows :
      (s : Server) (m : FrontendMessage)
      → tracked lex m ≡ discard ∷ []
      → Follows b lex held inflight s
          (send_server m (record s { statements = discard_all s.statements; dirty_vars = [] }))
  unfolding send_server all_tracked
  discard-Follows s m t = record {
    added = Sent.discard ∷ [];
    out = m ∷ [];
    reach = next here (discards (link_of held inflight s));
    sent = refl;
    same = rw t refl;
  }

  track-Follows :
      (statement : Statement) (s : Server) (m : FrontendMessage)
      → tracked lex m ≡ discards_all statement
      → Follows b lex held inflight s (send_server m (track statement s))
  unfolding track discards_all
  track-Follows (Statement.discard DiscardTarget.all) s m t = discard-Follows s m t
  track-Follows (Statement.set SetScope.session parameter value) s m t =
      unrecorded s _ m refl refl t
  track-Follows (Statement.reset ResetTarget.all) s m t = unrecorded s _ m refl refl t
  track-Follows (Statement.reset (ResetTarget.parameter name)) s m t = unrecorded s _ m refl refl t
  track-Follows _ s m t = unrecorded s s m refl refl t

  -- A `Close` of a statement never comes here: it is answered without the server.
  abbrev pub IsPassed : FrontendMessage → Type 0
  IsPassed (FrontendMessage.close close) = close.kind ≡ TargetKind.portal
  IsPassed _ = Unit

  -- A message that is tracked and rewritten takes the connection along steps of the model.
  pub rewrite_outbound-Follows :
      (sha256 : List ℕ → List ℕ) (m : FrontendMessage) (c : Front) (s : Server)
      → IsPassed m
      → IsSent (rewrite_outbound sha256 m c (track_set_reset lex m s))
      → Follows b lex held inflight s
          (delivered (rewrite_outbound sha256 m c (track_set_reset lex m s)))
  unfolding rewrite_outbound rewrite_parse rewrite_describe track_set_reset tracked
  rewrite_outbound-Follows sha256 (FrontendMessage.parse msg) c s k i =
      let canon = (Client.register sha256 c.prepared msg c.store).2 in
      parse_by-Follows s msg canon _ (note_client_parse s.statements canon).0
        (note_client_parse s.statements canon).1
        (next here (parses (link_of held inflight s) canon))
  rewrite_outbound-Follows sha256 (FrontendMessage.bind msg) c s k i =
      rewrite_name-Follows s (Client.resolve c.prepared msg.statement) _ _ c refl (λ canon. refl) i
  rewrite_outbound-Follows sha256 (FrontendMessage.describe d) c s k i =
      rewrite_target-Follows s d.kind d c i
  rewrite_outbound-Follows sha256 (FrontendMessage.close close) c s k i = close-Follows s close k
  rewrite_outbound-Follows sha256 (FrontendMessage.query q) c s k i =
      track-Follows (parse_statement (lex q)) s (FrontendMessage.query q) refl
  rewrite_outbound-Follows sha256 FrontendMessage.sync c s k i = sync-Follows s
  rewrite_outbound-Follows sha256 m c s k i = unrecorded s s m refl refl refl
