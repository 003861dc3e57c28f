-- ===== src/Proto/Frontend/Layout.antt =====
-- The wire form of the messages of crates/halephant-core/src/proto/frontend.rs, after PostgreSQL's
-- message formats and apart from the code, and that `encode` writes it.
use halephant.Prelude.{
  ℕ, ◌+◌, ◌-◌, ◌^◌, ◌≡◌, ◌++◌, sym, List, [], ◌∷◌, Option, none, some, Text, length, append-nil,
}
use halephant.Proto.Buffer.{
  Buffer, encode_cstring, encode_count_prefixed, Writes, Writes-then, Writes-cstring,
  Writes-count_prefixed, Writes-initial, Writes-message,
}
use halephant.Proto.Frontend.Encoding.{
  encode_target_kind, encode_parameters, encode_param, encode_format, encode_parse, encode_bind,
  encode_nothing, encode,
}
use halephant.Proto.Frontend.Parsing.{ssl_request_code, cancel_request_code, gss_enc_request_code}
use halephant.Proto.Frontend.{Startup, Parse, Bind, FrontendMessage}
use halephant.Proto.Primitives.Wire.{
  be16, be32, cstring, nullable_bytes, each, count_prefixed, code,
}
use halephant.Proto.Types.{FormatCode}

-- None for a message that opens a connection.
abbrev pub type_byte : FrontendMessage → Option ℕ
type_byte (FrontendMessage.bind _) = some b'B'
type_byte (FrontendMessage.close _) = some b'C'
type_byte (FrontendMessage.copy_data _) = some b'd'
type_byte FrontendMessage.copy_done = some b'c'
type_byte (FrontendMessage.copy_fail _) = some b'f'
type_byte (FrontendMessage.describe _) = some b'D'
type_byte (FrontendMessage.execute _) = some b'E'
type_byte FrontendMessage.flush = some b'H'
type_byte (FrontendMessage.function_call _) = some b'F'
type_byte (FrontendMessage.parse _) = some b'P'
type_byte (FrontendMessage.password_message _) = some b'p'
type_byte (FrontendMessage.query _) = some b'Q'
type_byte FrontendMessage.sync = some b'S'
type_byte FrontendMessage.terminate = some b'X'
type_byte _ = none

abbrev pub pair_layout : Text × Text → List ℕ
pair_layout (key, value) = cstring key ++ cstring value

abbrev pub payload : FrontendMessage → List ℕ
payload (FrontendMessage.startup s) =
    (be16 s.version.major ++ be16 s.version.minor) ++ (each pair_layout s.parameters ++ 0 ∷ [])
payload FrontendMessage.ssl_request = be32 ssl_request_code
payload FrontendMessage.gss_enc_request = be32 gss_enc_request_code
payload (FrontendMessage.cancel_request process_id secret_key) =
    be32 cancel_request_code ++ (be32 process_id ++ be32 secret_key)
payload (FrontendMessage.bind m) =
    cstring m.portal
    ++ (cstring m.statement
        ++ (count_prefixed (λ f. be16 (code f)) m.param_formats
            ++ (count_prefixed nullable_bytes m.params
                ++ count_prefixed (λ f. be16 (code f)) m.result_formats)))
payload (FrontendMessage.close m) = (encode_target_kind m.kind ∷ []) ++ cstring m.name
payload (FrontendMessage.copy_data bytes) = bytes
payload (FrontendMessage.copy_fail msg) = cstring msg
payload (FrontendMessage.describe m) = (encode_target_kind m.kind ∷ []) ++ cstring m.name
payload (FrontendMessage.execute m) = cstring m.portal ++ be32 m.max_rows
payload (FrontendMessage.function_call bytes) = bytes
payload (FrontendMessage.parse p) =
    cstring p.name ++ (cstring p.query ++ count_prefixed be32 p.param_types)
payload (FrontendMessage.password_message bytes) = bytes
payload (FrontendMessage.query query) = cstring query
payload _ = []

-- The length counts itself, but not the type.
abbrev pub frame : Option ℕ → List ℕ → List ℕ
frame none bytes = be32 (4 + length bytes) ++ bytes
frame (some t) bytes = t ∷ (be32 (4 + length bytes) ++ bytes)

abbrev pub wire : FrontendMessage → List ℕ
wire m = frame (type_byte m) (payload m)

module _ (b : Buffer) where
  pub Writes-nothing : Writes b (encode_nothing b) []
  unfolding encode_nothing
  Writes-nothing dst = sym (append-nil (b.contents dst))

  Writes-parameters :
      (ps : List (Text × Text)) → Writes b (encode_parameters b ps) (each pair_layout ps)
  unfolding encode_parameters
  Writes-parameters [] dst = sym (append-nil (b.contents dst))
  Writes-parameters ((key, value) ∷ ps) dst =
      Writes-then b (λ d. encode_cstring b (encode_cstring b d key) value) (encode_parameters b ps)
        (cstring key ++ cstring value) (each pair_layout ps)
        (Writes-then b (λ d. encode_cstring b d key) (λ d. encode_cstring b d value) (cstring key)
          (cstring value) (Writes-cstring b key) (Writes-cstring b value))
        (Writes-parameters ps) dst

  pub Writes-param : (o : Option (List ℕ)) → Writes b (λ d. encode_param b d o) (nullable_bytes o)
  unfolding encode_param
  Writes-param none = λ d. b.contents-put_i32 d (2 ^ 32 - 1)
  Writes-param (some bytes) =
      Writes-then b (λ d. b.put_i32 d (length bytes)) (λ d. b.extend_from_slice d bytes)
        (be32 (length bytes)) bytes (λ d. b.contents-put_i32 d (length bytes))
        (λ d. b.contents-extend_from_slice d bytes)

  pub Writes-formats :
      (fs : List FormatCode)
      → Writes b
          (λ d. encode_count_prefixed b d fs (encode_format b))
          (count_prefixed (λ f. be16 (code f)) fs)
  unfolding encode_format
  Writes-formats fs =
      Writes-count_prefixed b fs (encode_format b) (λ f. be16 (code f))
        (λ f d. b.contents-put_i16 d (code f))

  Writes-parse : (p : Parse) → Writes b (encode_parse b p) (payload (FrontendMessage.parse p))
  unfolding encode_parse
  Writes-parse p =
      Writes-then b (λ d. encode_cstring b d p.name)
        (λ d. encode_count_prefixed b (encode_cstring b d p.query) p.param_types b.put_i32)
        (cstring p.name) _ (Writes-cstring b p.name)
        (Writes-then b (λ d. encode_cstring b d p.query)
          (λ d. encode_count_prefixed b d p.param_types b.put_i32) (cstring p.query)
          (count_prefixed be32 p.param_types) (Writes-cstring b p.query)
          (Writes-count_prefixed b p.param_types b.put_i32 be32
            (λ oid d. b.contents-put_i32 d oid)))

  Writes-bind : (m : Bind) → Writes b (encode_bind b m) (payload (FrontendMessage.bind m))
  unfolding encode_bind
  Writes-bind m =
      let formats : b.BytesMut → List FormatCode → b.BytesMut =
        λ d fs. encode_count_prefixed b d fs (encode_format b) in
      let params : b.BytesMut → b.BytesMut =
        λ d. encode_count_prefixed b d m.params (encode_param b) in
      Writes-then b (λ d. encode_cstring b d m.portal)
        (λ d.
          formats (params (formats (encode_cstring b d m.statement) m.param_formats))
            m.result_formats)
        (cstring m.portal) _ (Writes-cstring b m.portal)
        (Writes-then b (λ d. encode_cstring b d m.statement)
          (λ d. formats (params (formats d m.param_formats)) m.result_formats) (cstring m.statement)
          _ (Writes-cstring b m.statement)
          (Writes-then b (λ d. formats d m.param_formats) (λ d. formats (params d) m.result_formats)
            (count_prefixed (λ f. be16 (code f)) m.param_formats) _ (Writes-formats m.param_formats)
            (Writes-then b params (λ d. formats d m.result_formats)
              (count_prefixed nullable_bytes m.params)
              (count_prefixed (λ f. be16 (code f)) m.result_formats)
              (Writes-count_prefixed b m.params (encode_param b) nullable_bytes Writes-param)
              (Writes-formats m.result_formats))))

  Writes-kind :
      (t : ℕ) (name : Text)
      → Writes b (λ d. encode_cstring b (b.put_u8 d t) name) ((t ∷ []) ++ cstring name)
  Writes-kind t name =
      Writes-then b (λ d. b.put_u8 d t) (λ d. encode_cstring b d name) (t ∷ []) (cstring name)
        (λ d. b.contents-put_u8 d t) (Writes-cstring b name)

  Writes-startup :
      (s : Startup)
      → Writes b
          (λ d.
            b.put_u8
              (encode_parameters b s.parameters
                (b.put_i16 (b.put_i16 d s.version.major) s.version.minor))
              0)
          (payload (FrontendMessage.startup s))
  Writes-startup s =
      Writes-then b (λ d. b.put_i16 (b.put_i16 d s.version.major) s.version.minor)
        (λ d. b.put_u8 (encode_parameters b s.parameters d) 0)
        (be16 s.version.major ++ be16 s.version.minor) (each pair_layout s.parameters ++ 0 ∷ [])
        (Writes-then b (λ d. b.put_i16 d s.version.major) (λ d. b.put_i16 d s.version.minor)
          (be16 s.version.major) (be16 s.version.minor) (λ d. b.contents-put_i16 d s.version.major)
          (λ d. b.contents-put_i16 d s.version.minor))
        (Writes-then b (encode_parameters b s.parameters) (λ d. b.put_u8 d 0)
          (each pair_layout s.parameters) (0 ∷ []) (Writes-parameters s.parameters)
          (λ d. b.contents-put_u8 d 0))

  Writes-cancel :
      (process_id secret_key : ℕ)
      → Writes b
          (λ d. b.put_i32 (b.put_i32 (b.put_i32 d cancel_request_code) process_id) secret_key)
          (payload (FrontendMessage.cancel_request process_id secret_key))
  Writes-cancel process_id secret_key =
      Writes-then b (λ d. b.put_i32 d cancel_request_code)
        (λ d. b.put_i32 (b.put_i32 d process_id) secret_key) (be32 cancel_request_code)
        (be32 process_id ++ be32 secret_key) (λ d. b.contents-put_i32 d cancel_request_code)
        (Writes-then b (λ d. b.put_i32 d process_id) (λ d. b.put_i32 d secret_key) (be32 process_id)
          (be32 secret_key) (λ d. b.contents-put_i32 d process_id)
          (λ d. b.contents-put_i32 d secret_key))

  -- Behind whatever the buffer holds, `encode` writes the wire form of the message and no more: its
  -- type, but for the messages that open a connection, its length, and its fields in their order.
  pub encode-wire :
      (m : FrontendMessage) (dst : b.BytesMut)
      → b.contents (encode b m dst) ≡ b.contents dst ++ wire m
  unfolding encode
  encode-wire (FrontendMessage.startup s) dst = Writes-initial b _ _ (Writes-startup s) dst
  encode-wire FrontendMessage.ssl_request dst =
      Writes-initial b (λ d. b.put_i32 d ssl_request_code) _
        (λ d. b.contents-put_i32 d ssl_request_code) dst
  encode-wire FrontendMessage.gss_enc_request dst =
      Writes-initial b (λ d. b.put_i32 d gss_enc_request_code) _
        (λ d. b.contents-put_i32 d gss_enc_request_code) dst
  encode-wire (FrontendMessage.cancel_request process_id secret_key) dst =
      Writes-initial b _ _ (Writes-cancel process_id secret_key) dst
  encode-wire (FrontendMessage.bind m) dst =
      Writes-message b b'B' (encode_bind b m) _ (Writes-bind m) dst
  encode-wire (FrontendMessage.close m) dst =
      Writes-message b b'C' _ _ (Writes-kind (encode_target_kind m.kind) m.name) dst
  encode-wire (FrontendMessage.copy_data bytes) dst =
      Writes-message b b'd' (λ d. b.extend_from_slice d bytes) bytes
        (λ d. b.contents-extend_from_slice d bytes) dst
  encode-wire FrontendMessage.copy_done dst =
      Writes-message b b'c' (encode_nothing b) [] Writes-nothing dst
  encode-wire (FrontendMessage.copy_fail msg) dst =
      Writes-message b b'f' _ _ (Writes-cstring b msg) dst
  encode-wire (FrontendMessage.describe m) dst =
      Writes-message b b'D' _ _ (Writes-kind (encode_target_kind m.kind) m.name) dst
  encode-wire (FrontendMessage.execute m) dst =
      Writes-message b b'E' (λ d. b.put_i32 (encode_cstring b d m.portal) m.max_rows) _
        (Writes-then b (λ d. encode_cstring b d m.portal) (λ d. b.put_i32 d m.max_rows)
          (cstring m.portal) (be32 m.max_rows) (Writes-cstring b m.portal)
          (λ d. b.contents-put_i32 d m.max_rows))
        dst
  encode-wire FrontendMessage.flush dst =
      Writes-message b b'H' (encode_nothing b) [] Writes-nothing dst
  encode-wire (FrontendMessage.function_call bytes) dst =
      Writes-message b b'F' (λ d. b.extend_from_slice d bytes) bytes
        (λ d. b.contents-extend_from_slice d bytes) dst
  encode-wire (FrontendMessage.parse p) dst =
      Writes-message b b'P' (encode_parse b p) _ (Writes-parse p) dst
  encode-wire (FrontendMessage.password_message bytes) dst =
      Writes-message b b'p' (λ d. b.extend_from_slice d bytes) bytes
        (λ d. b.contents-extend_from_slice d bytes) dst
  encode-wire (FrontendMessage.query query) dst =
      Writes-message b b'Q' _ _ (Writes-cstring b query) dst
  encode-wire FrontendMessage.sync dst =
      Writes-message b b'S' (encode_nothing b) [] Writes-nothing dst
  encode-wire FrontendMessage.terminate dst =
      Writes-message b b'X' (encode_nothing b) [] Writes-nothing dst
