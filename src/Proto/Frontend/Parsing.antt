-- ===== src/Proto/Frontend/Parsing.antt =====
-- `parse_initial` and `parse` of crates/halephant-core/src/proto/frontend.rs.
use halephant.Prelude.{ℕ, ◌==◌, List, [], Option, none, some, Text, if◌then◌else◌}
use halephant.Proto.Chumsky.{
  Outcome, ok, err, bind, Span, Input, Chumsky, ProtocolError, unknown_message_type, run,
}
use halephant.Proto.Frontend.{TargetKind, FrontendMessage}
use halephant.Proto.Primitives.{
  pg_int32, pg_cstring, pg_nullable_bytes, pg_count_prefixed, pg_format_code,
}
use halephant.Proto.Primitives.Loop.{loop_all}

abbrev pub protocol_v3 : ℕ
protocol_v3 = 196608

abbrev pub ssl_request_code : ℕ
ssl_request_code = 80877103

abbrev pub cancel_request_code : ℕ
cancel_request_code = 80877102

abbrev pub gss_enc_request_code : ℕ
gss_enc_request_code = 80877104

module _ (c : Chumsky) where
  unfoldable pub kind_of : ℕ → Span → Outcome c.Rich TargetKind
  kind_of b span =
      if b == b'S'
      then ok TargetKind.statement
      else if b == b'P'
      then ok TargetKind.portal
      else err (c.rich_custom span)

  unfoldable pub target_kind : c.Parser TargetKind
  unfolding kind_of
  target_kind = c.try_map kind_of c.any

  -- A key and its value, or the empty key that ends the list.
  unfoldable pub parameter_after : Text → Input → Outcome c.Rich (Option (Text × Text) × Input)
  parameter_after [] i = ok (none, i)
  parameter_after key i = bind (c.go (pg_cstring c) i) (λ r. ok (some (key, r.0), r.1))

  unfoldable pub parameter : Input → Outcome c.Rich (Option (Text × Text) × Input)
  unfolding parameter_after
  parameter i = bind (c.go (pg_cstring c) i) (λ r. parameter_after r.0 r.1)

  unfoldable pub startup_body : Input → Outcome c.Rich (FrontendMessage × Input)
  unfolding parameter loop_all
  startup_body i = bind (loop_all parameter i) (λ r. ok (
    FrontendMessage.startup
        (record { version = record { major = 3; minor = 0 }; parameters = r.0 }),
    r.1,
  ))

  unfoldable pub query_parser : c.Parser FrontendMessage
  query_parser = c.mapped FrontendMessage.query (pg_cstring c)

  unfoldable pub parse_parser : c.Parser FrontendMessage
  parse_parser = c.custom (λ i. bind (c.go (pg_cstring c) i) (λ name.
      bind (c.go (pg_cstring c) name.1) (λ query.
        bind (c.go (pg_count_prefixed c (pg_int32 c)) query.1) (λ types. ok (
          FrontendMessage.parse (record { name = name.0; query = query.0; param_types = types.0 }),
          types.1,
        )))))

  unfoldable pub bind_parser : c.Parser FrontendMessage
  bind_parser = c.custom (λ i. bind (c.go (pg_cstring c) i) (λ portal.
      bind (c.go (pg_cstring c) portal.1) (λ statement.
        bind (c.go (pg_count_prefixed c (pg_format_code c)) statement.1) (λ formats.
          bind (c.go (pg_count_prefixed c (pg_nullable_bytes c)) formats.1) (λ params.
            bind (c.go (pg_count_prefixed c (pg_format_code c)) params.1) (λ results. ok (
              FrontendMessage.bind (record {
                portal = portal.0;
                statement = statement.0;
                param_formats = formats.0;
                params = params.0;
                result_formats = results.0;
              }),
              results.1,
            )))))))

  unfoldable pub describe_parser : c.Parser FrontendMessage
  describe_parser =
      c.mapped (λ r. FrontendMessage.describe (record { kind = r.0; name = r.1 }))
        (c.and_then (target_kind) (pg_cstring c))

  unfoldable pub execute_parser : c.Parser FrontendMessage
  execute_parser =
      c.mapped (λ r. FrontendMessage.execute (record { portal = r.0; max_rows = r.1 }))
        (c.and_then (pg_cstring c) (pg_int32 c))

  unfoldable pub close_parser : c.Parser FrontendMessage
  close_parser =
      c.mapped (λ r. FrontendMessage.close (record { kind = r.0; name = r.1 }))
        (c.and_then (target_kind) (pg_cstring c))

  unfoldable pub copy_fail_parser : c.Parser FrontendMessage
  copy_fail_parser = c.mapped FrontendMessage.copy_fail (pg_cstring c)

  unfoldable pub cancel_request : Input → Outcome c.Rich (FrontendMessage × Input)
  cancel_request i = bind (c.go (pg_int32 c) i) (λ process_id.
      bind (c.go (pg_int32 c) process_id.1)
        (λ secret_key. ok (FrontendMessage.cancel_request process_id.0 secret_key.0, secret_key.1)))

  unfoldable pub initial_by : ℕ → Input → Outcome c.Rich (FrontendMessage × Input)
  unfolding startup_body cancel_request
  initial_by code i =
      if code == protocol_v3
      then startup_body i
      else if code == ssl_request_code
      then ok (FrontendMessage.ssl_request, i)
      else if code == cancel_request_code
      then cancel_request i
      else if code == gss_enc_request_code
      then ok (FrontendMessage.gss_enc_request, i)
      else err (c.rich_custom (record { start = 4; stop = 8 }))

  unfoldable pub initial_parser : c.Parser FrontendMessage
  unfolding initial_by
  initial_parser = c.custom (λ i.
      bind (c.go (pg_int32 c) i)
        (λ length. bind (c.go (pg_int32 c) length.1) (λ code. initial_by code.0 code.1)))

  unfoldable pub parse_initial : List ℕ → Outcome ProtocolError FrontendMessage
  parse_initial input = run c (initial_parser) input

  unfoldable pub parse : ℕ → List ℕ → Outcome ProtocolError FrontendMessage
  parse msg_type payload =
      if msg_type == b'B'
      then run c (bind_parser) payload
      else if msg_type == b'C'
      then run c (close_parser) payload
      else if msg_type == b'c'
      then ok FrontendMessage.copy_done
      else if msg_type == b'd'
      then ok (FrontendMessage.copy_data payload)
      else if msg_type == b'D'
      then run c (describe_parser) payload
      else if msg_type == b'E'
      then run c (execute_parser) payload
      else if msg_type == b'f'
      then run c (copy_fail_parser) payload
      else if msg_type == b'F'
      then ok (FrontendMessage.function_call payload)
      else if msg_type == b'H'
      then ok FrontendMessage.flush
      else if msg_type == b'P'
      then run c (parse_parser) payload
      else if msg_type == b'p'
      then ok (FrontendMessage.password_message payload)
      else if msg_type == b'Q'
      then run c (query_parser) payload
      else if msg_type == b'S'
      then ok FrontendMessage.sync
      else if msg_type == b'X'
      then ok FrontendMessage.terminate
      else err (unknown_message_type msg_type)
