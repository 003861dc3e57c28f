-- ===== src/Proxy/Outbound/Sends.antt =====
-- What the rewriting of a client's message sends to the server on its own.
use halephant.Prelude.{
  ℕ, ◌≡◌, refl, Bool, true, false, List, [], ◌∷◌, Option, none, some, Text, All, All-append,
}
use halephant.Proto.Frontend.{Parse, Describe, TargetKind, FrontendMessage}
use halephant.Proxy.Messages.{Front}
use halephant.Proxy.Outbound.{
  Server, send_server, send_eviction, Rewritten, forwards, consumed, bails, inject, prepare_by,
  ensure_prepared, when_prepared, rewrite_target, parse_by, rewrite_name, rewrite_describe,
  rewrite_parse, rewrite_outbound, track, track_set_reset,
}
use halephant.Sql.Ast.{Statement, SetScope, ResetTarget, DiscardTarget}
use halephant.Sql.Parser.{parse_statement}
use halephant.Sql.Tokens.{Token}
use halephant.Statements.Client
use halephant.Statements.Replies.{ClientParse, Reprepare, note_reprepare}
use halephant.Statements.Store
use halephant.Statements.Store.{StatementStore}

-- A message that carries the text of a statement.
abbrev pub has_text : FrontendMessage → Bool
has_text (FrontendMessage.query _) = true
has_text (FrontendMessage.parse _) = true
has_text _ = false

abbrev pub forwarded : Rewritten → List FrontendMessage
forwarded (forwards m) = m ∷ []
forwarded consumed = []
forwarded bails = []

-- A predicate on messages that only those with a text can fail, whatever name a `Parse` goes under.
module _ (P : FrontendMessage → Type 0) (other : (m : FrontendMessage) → has_text m ≡ false → P m)
    (renamed : (p : Parse) (canon : Text)
      → P (FrontendMessage.parse p)
      → P (FrontendMessage.parse (record p { name = canon }))) where
  pub send_server-Sends :
      (m : FrontendMessage) (s : Server) → P m → All P s.sent → All P (send_server m s).sent
  unfolding send_server
  send_server-Sends m s p h = All-append P s.sent (m ∷ []) h (p, tt)

  send_eviction-Sends :
      (o : Option Text) (s : Server) → All P s.sent → All P (send_eviction o s).sent
  unfolding send_eviction
  send_eviction-Sends none s h = h
  send_eviction-Sends (some v) s h = send_server-Sends _ s (other _ refl) h

  inject-Sends :
      (canon : Text) (o : Option Parse) (eviction : Option Text) (s : Server)
      → ((p : Parse) → o ≡ some p → P (FrontendMessage.parse p))
      → All P s.sent
      → All P (inject canon o eviction s).0.sent
  unfolding inject
  inject-Sends canon none eviction s f h = h
  inject-Sends canon (some parse) eviction s f h =
      send_server-Sends _ (send_eviction eviction s) (renamed parse canon (f parse refl))
        (send_eviction-Sends eviction s h)

  prepare_by-Sends :
      (outcome : Reprepare) (canon : Text) (store : StatementStore) (s : Server)
      → ((p : Parse) → Store.get store canon ≡ some p → P (FrontendMessage.parse p))
      → All P s.sent
      → All P (prepare_by outcome canon store s).0.sent
  unfolding prepare_by
  prepare_by-Sends Reprepare.already_prepared canon store s f h = h
  prepare_by-Sends (Reprepare.prepare eviction) canon store s f h =
      inject-Sends canon (Store.get store canon) eviction s f h

  -- The messages sent before a rewritten message, and that message.
  abbrev pub Sends : Front × Server × Rewritten → Type 0
  Sends (c, s, r) = All P s.sent × All P (forwarded r)

  when_prepared-Sends :
      (m : FrontendMessage) (c : Front) (s : Server) (ready : Bool)
      → P m
      → All P s.sent
      → Sends (when_prepared m c (s, ready))
  unfolding when_prepared
  when_prepared-Sends m c s true p h = (h, (p, tt))
  when_prepared-Sends m c s false p h = (h, tt)

  rewrite_name-Sends :
      (o : Option Text) (unchanged : FrontendMessage) (under : Text → FrontendMessage) (c : Front)
      (s : Server)
      → P unchanged
      → ((canon : Text) → P (under canon))
      → ((canon : Text) (p : Parse)
          → o ≡ some canon
          → Store.get c.store canon ≡ some p
          → P (FrontendMessage.parse p))
      → All P s.sent
      → Sends (rewrite_name o unchanged under c s)
  unfolding rewrite_name ensure_prepared
  rewrite_name-Sends none unchanged under c s p q f h = (h, (p, tt))
  rewrite_name-Sends (some canon) unchanged under c s p q f h =
      when_prepared-Sends (under canon) c _ _ (q canon) (
        prepare_by-Sends (note_reprepare s.statements canon).1 canon c.store _
          (λ parse e. f canon parse refl e) h)

  -- What may be prepared again for a name of the client.
  abbrev pub Replays : Front → Type 0
  Replays c =
      (name canon : Text) (p : Parse)
      → Client.resolve c.prepared name ≡ some canon
      → Store.get c.store canon ≡ some p
      → P (FrontendMessage.parse p)

  rewrite_target-Sends :
      (kind : TargetKind) (d : Describe) (c : Front) (s : Server)
      → Replays c
      → All P s.sent
      → Sends (rewrite_target kind d c s)
  unfolding rewrite_target
  rewrite_target-Sends TargetKind.portal d c s f h = (h, (other _ refl, tt))
  rewrite_target-Sends TargetKind.statement d c s f h =
      rewrite_name-Sends (Client.resolve c.prepared d.name) _ _ c s (other _ refl)
        (λ canon. other _ refl) (f d.name) h

  parse_by-Sends :
      (outcome : ClientParse) (parse : Parse) (canon : Text) (c : Front) (s : Server)
      → P (FrontendMessage.parse parse)
      → All P s.sent
      → Sends (parse_by outcome parse canon c s)
  unfolding parse_by
  parse_by-Sends ClientParse.synthesize parse canon c s p h = (h, tt)
  parse_by-Sends (ClientParse.forward eviction) parse canon c s p h =
      (send_eviction-Sends eviction s h, (renamed parse canon p, tt))

  pub rewrite_outbound-Sends :
      (sha256 : List ℕ → List ℕ) (m : FrontendMessage) (c : Front) (s : Server)
      → P m
      → Replays c
      → All P s.sent
      → Sends (rewrite_outbound sha256 m c s)
  unfolding rewrite_outbound rewrite_parse rewrite_describe
  rewrite_outbound-Sends sha256 (FrontendMessage.parse parse) c s p f h =
      parse_by-Sends _ parse _ _ _ p h
  rewrite_outbound-Sends sha256 (FrontendMessage.bind bind) c s p f h =
      rewrite_name-Sends (Client.resolve c.prepared bind.statement) _ _ c s p
        (λ canon. other _ refl) (f bind.statement) h
  rewrite_outbound-Sends sha256 (FrontendMessage.describe d) c s p f h =
      rewrite_target-Sends d.kind d c s f h
  rewrite_outbound-Sends sha256 m c s p f h = (h, (p, tt))

track-sent : (statement : Statement) (s : Server) → (track statement s).sent ≡ s.sent
unfolding track
track-sent (Statement.set SetScope.session parameter value) s = refl
track-sent (Statement.set _ parameter value) s = refl
track-sent (Statement.reset ResetTarget.all) s = refl
track-sent (Statement.reset (ResetTarget.parameter name)) s = refl
track-sent (Statement.discard DiscardTarget.all) s = refl
track-sent _ s = refl

pub track_set_reset-sent :
    (lex : Text → List Token) (m : FrontendMessage) (s : Server)
    → (track_set_reset lex m s).sent ≡ s.sent
unfolding track_set_reset
track_set_reset-sent lex (FrontendMessage.query q) s = track-sent (parse_statement (lex q)) s
track_set_reset-sent lex _ s = refl
