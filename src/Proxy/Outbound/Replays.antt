-- ===== src/Proxy/Outbound/Replays.antt =====
-- What proxy/prepared.rs and proxy/intercept.rs of crates/halephant-core/src leave of the statements
-- behind one client's names: what halephant may prepare again for that client.
use halephant.Prelude.{
  ℕ, ◌≡◌, refl, sym, subst, Bool, true, false, List, Option, none, some, Text, text_eq,
}
use halephant.Proto.Frontend.{Parse, Describe, TargetKind, FrontendMessage}
use halephant.Proto.Types.{TransactionStatus}
use halephant.Proxy.Intercept.{
  drop_name, drop_all, close_target, handle_close_intercept, deallocate_names, intercept_deallocate,
  handle_deallocate_intercept, intercept_listen, subscribed, handle_listen_intercept,
}
use halephant.Proxy.Messages.{Front}
use halephant.Proxy.Outbound.{
  Server, when_prepared, rewrite_name, rewrite_target, rewrite_describe, parse_by, rewrite_parse,
  rewrite_outbound,
}
use halephant.Sql.Ast.{Statement, DeallocateTarget}
use halephant.Sql.Parser.{parse_statement}
use halephant.Sql.Tokens.{Token}
use halephant.Statements.Client
use halephant.Statements.Client.Origin.{
  IsNamedBy, AllNames, register-AllEntries, remove-AllEntries, release_each-AllEntries,
  register-AllNames, remove-AllNames, release_all-AllNames,
}
use halephant.Statements.Client.{canonical_name}
use halephant.Statements.Replies.{ClientParse}
use halephant.Statements.Store
use halephant.Statements.Store.Entries.{AllEntries, get-AllEntries}

-- No two of the statements share a canonical name.
abbrev pub IsDistinct : (List ℕ → List ℕ) → (Text → Type 0) → Type 0
IsDistinct sha256 known =
    (p q : Parse)
    → known p.query
    → known q.query
    → canonical_name sha256 p.query p.param_types ≡ canonical_name sha256 q.query q.param_types
    → p.query ≡ q.query

-- The texts that clients prepare, and those of them that are safe.
module _ (sha256 : List ℕ → List ℕ) (known safe : Text → Type 0) where
  abbrev pub IsKnownEntry : Text → Parse → Type 0
  IsKnownEntry canon p = (canonical_name sha256 p.query p.param_types ≡ canon) × known p.query

  abbrev pub IsSafeName : Text → Type 0
  IsSafeName canon =
      (p : Parse)
      → known p.query
      → canonical_name sha256 p.query p.param_types ≡ canon
      → safe p.query

  -- The store holds known texts under their canonical names, whoever prepared them, and the names of
  -- this client stand for safe ones.
  abbrev pub IsCarried : Front → Type 0
  IsCarried c = AllEntries IsKnownEntry c.store × AllNames IsSafeName c.prepared

  pub replayed :
      (c : Front) (name canon : Text) (p : Parse)
      → IsCarried c
      → Client.resolve c.prepared name ≡ some canon
      → Store.get c.store canon ≡ some p
      → safe p.query
  replayed c name canon p h e g =
      let entry = get-AllEntries IsKnownEntry c.store canon p h.0 g in
      subst (IsNamedBy IsSafeName) e (h.1 name) p entry.1 entry.0

  -- What a message that is let through carries: a `Parse` has a safe text.
  abbrev pub IsLetThrough : FrontendMessage → Type 0
  IsLetThrough (FrontendMessage.parse p) = known p.query × safe p.query
  IsLetThrough _ = Unit

  drop_name-IsCarried : (name : Text) (c : Front) → IsCarried c → IsCarried (drop_name name c)
  unfolding drop_name
  drop_name-IsCarried name c h = (
    remove-AllEntries IsKnownEntry c.prepared name c.store h.0,
    remove-AllNames IsSafeName c.prepared name c.store h.1,
  )

  drop_all-IsCarried : (c : Front) → IsCarried c → IsCarried (drop_all c)
  unfolding drop_all Client.release_all
  drop_all-IsCarried c h = (
    release_each-AllEntries IsKnownEntry c.prepared.names c.store h.0,
    release_all-AllNames IsSafeName c.prepared c.store,
  )

  close_target-IsCarried :
      (kind : TargetKind) (name : Text) (c : Front)
      → IsCarried c
      → IsCarried (close_target kind name c).0
  unfolding close_target
  close_target-IsCarried TargetKind.statement name c h = drop_name-IsCarried name c h
  close_target-IsCarried TargetKind.portal name c h = h

  pub close-IsCarried :
      (m : FrontendMessage) (c : Front) → IsCarried c → IsCarried (handle_close_intercept m c).0
  unfolding handle_close_intercept
  close-IsCarried (FrontendMessage.close close) c h =
      close_target-IsCarried close.kind close.name c h
  close-IsCarried _ c h = h

  deallocate_names-IsCarried :
      (target : DeallocateTarget) (c : Front) → IsCarried c → IsCarried (deallocate_names target c)
  unfolding deallocate_names
  deallocate_names-IsCarried (DeallocateTarget.name name) c h = drop_name-IsCarried name c h
  deallocate_names-IsCarried DeallocateTarget.all c h = drop_all-IsCarried c h

  intercept_deallocate-IsCarried :
      (s : Statement) (status : TransactionStatus) (c : Front)
      → IsCarried c
      → IsCarried (intercept_deallocate s status c).0
  unfolding intercept_deallocate
  intercept_deallocate-IsCarried (Statement.deallocate target) status c h =
      deallocate_names-IsCarried target c h
  intercept_deallocate-IsCarried _ status c h = h

  pub deallocate-IsCarried :
      (lex : Text → List Token) (m : FrontendMessage) (status : TransactionStatus) (c : Front)
      → IsCarried c
      → IsCarried (handle_deallocate_intercept lex m status c).0
  unfolding handle_deallocate_intercept
  deallocate-IsCarried lex (FrontendMessage.query q) status c h =
      intercept_deallocate-IsCarried (parse_statement (lex q)) status c h
  deallocate-IsCarried lex _ status c h = h

  intercept_listen-IsCarried :
      (s : Statement) (status : TransactionStatus) (channels : List Text) (c : Front)
      → IsCarried c
      → IsCarried (intercept_listen s status channels c).0
  unfolding intercept_listen
  intercept_listen-IsCarried (Statement.listen channel) status channels c h = h
  intercept_listen-IsCarried (Statement.unlisten target) status channels c h = h
  intercept_listen-IsCarried _ status channels c h = h

  subscribed-IsCarried :
      (s : Statement) (status : TransactionStatus) (c : Front) (channels : Option (List Text))
      → IsCarried c
      → IsCarried (subscribed s status c channels).0
  unfolding subscribed
  subscribed-IsCarried s status c none h = h
  subscribed-IsCarried s status c (some channels) h =
      intercept_listen-IsCarried s status channels c h

  pub listen-IsCarried :
      (lex : Text → List Token) (m : FrontendMessage) (status : TransactionStatus) (c : Front)
      → IsCarried c
      → IsCarried (handle_listen_intercept lex m status c).0
  unfolding handle_listen_intercept
  listen-IsCarried lex (FrontendMessage.query q) status c h =
      subscribed-IsCarried (parse_statement (lex q)) status c c.channels h
  listen-IsCarried lex _ status c h = h

  parse_by-IsCarried :
      (outcome : ClientParse) (p : Parse) (canon : Text) (c : Front) (s : Server)
      → IsCarried c
      → IsCarried (parse_by outcome p canon c s).0
  unfolding parse_by
  parse_by-IsCarried ClientParse.synthesize p canon c s h = h
  parse_by-IsCarried (ClientParse.forward eviction) p canon c s h = h

  when_prepared-IsCarried :
      (m : FrontendMessage) (c : Front) (s : Server) (ready : Bool)
      → IsCarried c
      → IsCarried (when_prepared m c (s, ready)).0
  unfolding when_prepared
  when_prepared-IsCarried m c s true h = h
  when_prepared-IsCarried m c s false h = h

  rewrite_name-IsCarried :
      (o : Option Text) (unchanged : FrontendMessage) (under : Text → FrontendMessage) (c : Front)
      (s : Server)
      → IsCarried c
      → IsCarried (rewrite_name o unchanged under c s).0
  unfolding rewrite_name
  rewrite_name-IsCarried none unchanged under c s h = h
  rewrite_name-IsCarried (some canon) unchanged under c s h =
      when_prepared-IsCarried (under canon) c _ _ h

  rewrite_target-IsCarried :
      (kind : TargetKind) (d : Describe) (c : Front) (s : Server)
      → IsCarried c
      → IsCarried (rewrite_target kind d c s).0
  unfolding rewrite_target
  rewrite_target-IsCarried TargetKind.portal d c s h = h
  rewrite_target-IsCarried TargetKind.statement d c s h = rewrite_name-IsCarried _ _ _ c s h

  registered-IsCarried :
      (p : Parse) (c : Front)
      → IsDistinct sha256 known
      → known p.query
      → safe p.query
      → IsCarried c
      → let (names, store, canon) = Client.register sha256 c.prepared p c.store in
        IsCarried (record c { prepared = names; store = store })
  registered-IsCarried p c distinct k s h = (
    register-AllEntries sha256 IsKnownEntry c.prepared p c.store (refl, k) h.0,
    register-AllNames IsSafeName sha256 c.prepared p c.store
        (λ q kq e. subst safe (sym (distinct q p kq k e)) s) h.1,
  )

  pub rewrite_outbound-IsCarried :
      (m : FrontendMessage) (c : Front) (s : Server)
      → IsDistinct sha256 known
      → IsLetThrough m
      → IsCarried c
      → IsCarried (rewrite_outbound sha256 m c s).0
  unfolding rewrite_outbound rewrite_parse rewrite_describe
  rewrite_outbound-IsCarried (FrontendMessage.parse p) c s distinct k h =
      parse_by-IsCarried _ p _ _ _ (registered-IsCarried p c distinct k.0 k.1 h)
  rewrite_outbound-IsCarried (FrontendMessage.bind bind) c s distinct k h =
      rewrite_name-IsCarried _ _ _ c s h
  rewrite_outbound-IsCarried (FrontendMessage.describe d) c s distinct k h =
      rewrite_target-IsCarried d.kind d c s h
  rewrite_outbound-IsCarried m c s distinct k h = h
