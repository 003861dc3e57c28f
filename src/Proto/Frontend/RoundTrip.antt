-- ===== src/Proto/Frontend/RoundTrip.antt =====
-- Reading back what crates/halephant-core/src/proto/frontend.rs writes.
use mathlib.Core.Option.{some-injective}
use halephant.Prelude.{
  ℕ, ◌+◌, ◌^◌, ◌≡◌, ◌<◌, ◌++◌, refl, sym, subst, List, [], ◌∷◌, some, length, append-nil, All,
  All-map, arith,
}
use halephant.Proto.Chumsky.{ok, Chumsky, run, run-go}
use halephant.Proto.Frontend.Encoding.{encode_target_kind}
use halephant.Proto.Frontend.Layout.{type_byte, payload}
use halephant.Proto.Frontend.Parsing.{
  kind_of, target_kind, query_parser, parse_parser, bind_parser, describe_parser, execute_parser,
  close_parser, copy_fail_parser, parse,
}
use halephant.Proto.Frontend.{Parse, Bind, TargetKind, FrontendMessage}
use halephant.Proto.Primitives.Takes.{
  Takes-any, Takes-mapped, Takes-and_then, Takes-custom, Takes-int32, Takes-cstring,
  Takes-count_prefixed, IsNullable, Takes-nullable_bytes, Takes-format_code,
}
use halephant.Proto.Primitives.Wire.{
  be16, be32, IsCString, cstring, nullable_bytes, count_prefixed, code, Takes, Takes-bind,
  Takes-then,
}
use halephant.Proto.Primitives.{
  pg_int32, pg_cstring, pg_nullable_bytes, pg_count_prefixed, pg_format_code,
}
use halephant.Proto.Types.{FormatCode}

module _ (c : Chumsky) where
  pub Takes-run :
      {A : Type 0} → (p : c.Parser A) (w : List ℕ) (a : A) → Takes (c.go p) w a → run c p w ≡ ok a
  Takes-run p w a h = run-go c p w a (0 + length w) (
      subst
        (λ v.
          c.go p (record { at = 0; left = v }) ≡ ok (a, record { at = 0 + length w; left = [] }))
        (append-nil w) (h 0 []))

  Takes-kind :
      (kind : TargetKind) → Takes (c.go (target_kind c)) (encode_target_kind kind ∷ []) kind
  unfolding target_kind kind_of
  Takes-kind TargetKind.statement at tail =
      rw
        (
          c.go-try_map (kind_of c) c.any (record { at = at; left = b'S' ∷ tail }),
          Takes-any c b'S' at tail,
        )
        refl
  Takes-kind TargetKind.portal at tail =
      rw
        (
          c.go-try_map (kind_of c) c.any (record { at = at; left = b'P' ∷ tail }),
          Takes-any c b'P' at tail,
        )
        refl

  -- What the fields of a message must be for the wire form to hold them.
  abbrev pub IsWire : FrontendMessage → Type 0
  IsWire (FrontendMessage.bind m) =
      IsCString m.portal
      × IsCString m.statement
      × (length m.param_formats < 2 ^ 15)
      × ((length m.params < 2 ^ 15) × All (IsNullable c) m.params)
      × (length m.result_formats < 2 ^ 15)
  IsWire (FrontendMessage.close m) = IsCString m.name
  IsWire (FrontendMessage.copy_fail msg) = IsCString msg
  IsWire (FrontendMessage.describe m) = IsCString m.name
  IsWire (FrontendMessage.execute m) = IsCString m.portal × (m.max_rows < 2 ^ 32)
  IsWire (FrontendMessage.parse p) =
      IsCString p.name
      × IsCString p.query
      × (length p.param_types < 2 ^ 15)
      × All (λ oid. oid < 2 ^ 32) p.param_types
  IsWire (FrontendMessage.query query) = IsCString query
  IsWire _ = Unit

  formats-Takes :
      (fs : List FormatCode) → All (λ f. Takes (c.go (pg_format_code c)) (be16 (code f)) f) fs
  formats-Takes [] = tt
  formats-Takes (f ∷ fs) = (Takes-format_code c f, formats-Takes fs)

  pub Takes-formats :
      (fs : List FormatCode)
      → length fs < 2 ^ 15
      → Takes
          (c.go (pg_count_prefixed c (pg_format_code c)))
          (count_prefixed (λ f. be16 (code f)) fs)
          fs
  Takes-formats fs l =
      Takes-count_prefixed c (pg_format_code c) (λ f. be16 (code f)) fs l (formats-Takes fs)

  Takes-parse :
      (p : Parse)
      → IsWire (FrontendMessage.parse p)
      → Takes (c.go (parse_parser c)) (payload (FrontendMessage.parse p)) (FrontendMessage.parse p)
  unfolding parse_parser
  Takes-parse p h = Takes-custom c _ (payload (FrontendMessage.parse p)) _ (
      Takes-bind (c.go (pg_cstring c)) _ (cstring p.name) _ p.name _ (Takes-cstring c p.name h.0) (
        Takes-bind (c.go (pg_cstring c)) _ (cstring p.query) _ p.query _
          (Takes-cstring c p.query h.1)
          (Takes-then (c.go (pg_count_prefixed c (pg_int32 c)))
            (λ types.
              FrontendMessage.parse
                (record { name = p.name; query = p.query; param_types = types }))
            (count_prefixed be32 p.param_types) p.param_types
            (Takes-count_prefixed c (pg_int32 c) be32 p.param_types h.2
              (All-map (Takes-int32 c) p.param_types h.3)))))

  Takes-bind_message :
      (m : Bind)
      → IsWire (FrontendMessage.bind m)
      → Takes (c.go (bind_parser c)) (payload (FrontendMessage.bind m)) (FrontendMessage.bind m)
  unfolding bind_parser
  Takes-bind_message m h = Takes-custom c _ (payload (FrontendMessage.bind m)) _ (
      Takes-bind (c.go (pg_cstring c)) _ (cstring m.portal) _ m.portal _
        (Takes-cstring c m.portal h.0)
        (Takes-bind (c.go (pg_cstring c)) _ (cstring m.statement) _ m.statement _
          (Takes-cstring c m.statement h.1)
          (Takes-bind (c.go (pg_count_prefixed c (pg_format_code c))) _
            (count_prefixed (λ f. be16 (code f)) m.param_formats) _ m.param_formats _
            (Takes-formats m.param_formats h.2)
            (Takes-bind (c.go (pg_count_prefixed c (pg_nullable_bytes c))) _
              (count_prefixed nullable_bytes m.params) _ m.params _
              (Takes-count_prefixed c (pg_nullable_bytes c) nullable_bytes m.params h.3.0
                (All-map (Takes-nullable_bytes c) m.params h.3.1))
              (Takes-then (c.go (pg_count_prefixed c (pg_format_code c)))
                (λ results. FrontendMessage.bind (record m { result_formats = results }))
                (count_prefixed (λ f. be16 (code f)) m.result_formats) m.result_formats
                (Takes-formats m.result_formats h.4))))))

  -- Of a message with a type, `parse` reads back the message from its type and its payload, if every
  -- text is Unicode without the character 0, every count is below 2 ^ 15, every value shorter than
  -- 2 ^ 31 bytes and every number below 2 ^ 32.
  pub parse-payload :
      (m : FrontendMessage) (t : ℕ) → type_byte m ≡ some t → IsWire m → parse c t (payload m) ≡ ok m
  unfolding parse query_parser describe_parser execute_parser close_parser copy_fail_parser
  parse-payload (FrontendMessage.bind m) t e h =
      rw (sym (some-injective _ _ e))
        (Takes-run (bind_parser c) (payload (FrontendMessage.bind m)) _ (Takes-bind_message m h))
  parse-payload (FrontendMessage.close m) t e h = rw (sym (some-injective _ _ e)) (
      Takes-run (close_parser c) (payload (FrontendMessage.close m)) _ (
        Takes-mapped c (λ r. FrontendMessage.close (record { kind = r.0; name = r.1 }))
          (c.and_then (target_kind c) (pg_cstring c))
          ((encode_target_kind m.kind ∷ []) ++ cstring m.name) (m.kind, m.name)
          (Takes-and_then c (target_kind c) (pg_cstring c) (encode_target_kind m.kind ∷ [])
            (cstring m.name) m.kind m.name (Takes-kind m.kind) (Takes-cstring c m.name h))))
  parse-payload (FrontendMessage.copy_data bytes) t e h = rw (sym (some-injective _ _ e)) refl
  parse-payload FrontendMessage.copy_done t e h = rw (sym (some-injective _ _ e)) refl
  parse-payload (FrontendMessage.copy_fail msg) t e h = rw (sym (some-injective _ _ e)) (
      Takes-run (copy_fail_parser c) (cstring msg) _ (
        Takes-mapped c FrontendMessage.copy_fail (pg_cstring c) (cstring msg) msg
          (Takes-cstring c msg h)))
  parse-payload (FrontendMessage.describe m) t e h = rw (sym (some-injective _ _ e)) (
      Takes-run (describe_parser c) (payload (FrontendMessage.describe m)) _ (
        Takes-mapped c (λ r. FrontendMessage.describe (record { kind = r.0; name = r.1 }))
          (c.and_then (target_kind c) (pg_cstring c))
          ((encode_target_kind m.kind ∷ []) ++ cstring m.name) (m.kind, m.name)
          (Takes-and_then c (target_kind c) (pg_cstring c) (encode_target_kind m.kind ∷ [])
            (cstring m.name) m.kind m.name (Takes-kind m.kind) (Takes-cstring c m.name h))))
  parse-payload (FrontendMessage.execute m) t e h = rw (sym (some-injective _ _ e)) (
      Takes-run (execute_parser c) (payload (FrontendMessage.execute m)) _ (
        Takes-mapped c (λ r. FrontendMessage.execute (record { portal = r.0; max_rows = r.1 }))
          (c.and_then (pg_cstring c) (pg_int32 c)) (cstring m.portal ++ be32 m.max_rows)
          (m.portal, m.max_rows)
          (Takes-and_then c (pg_cstring c) (pg_int32 c) (cstring m.portal) (be32 m.max_rows)
            m.portal m.max_rows (Takes-cstring c m.portal h.0) (Takes-int32 c m.max_rows h.1))))
  parse-payload FrontendMessage.flush t e h = rw (sym (some-injective _ _ e)) refl
  parse-payload (FrontendMessage.function_call bytes) t e h = rw (sym (some-injective _ _ e)) refl
  parse-payload (FrontendMessage.parse p) t e h =
      rw (sym (some-injective _ _ e))
        (Takes-run (parse_parser c) (payload (FrontendMessage.parse p)) _ (Takes-parse p h))
  parse-payload (FrontendMessage.password_message bytes) t e h =
      rw (sym (some-injective _ _ e)) refl
  parse-payload (FrontendMessage.query query) t e h = rw (sym (some-injective _ _ e)) (
      Takes-run (query_parser c) (cstring query) _ (
        Takes-mapped c FrontendMessage.query (pg_cstring c) (cstring query) query
          (Takes-cstring c query h)))
  parse-payload FrontendMessage.sync t e h = rw (sym (some-injective _ _ e)) refl
  parse-payload FrontendMessage.terminate t e h = rw (sym (some-injective _ _ e)) refl
  parse-payload (FrontendMessage.startup _) t e h = absurd (ground arith)
  parse-payload FrontendMessage.ssl_request t e h = absurd (ground arith)
  parse-payload FrontendMessage.gss_enc_request t e h = absurd (ground arith)
  parse-payload (FrontendMessage.cancel_request _ _) t e h = absurd (ground arith)
