-- ===== src/Proto/Frontend/Encoding.antt =====
-- `encode` of crates/halephant-core/src/proto/frontend.rs.
use halephant.Prelude.{ℕ, ◌-◌, ◌^◌, List, [], ◌∷◌, Option, none, some, Text, length}
use halephant.Proto.Buffer.{
  Buffer, encode_initial, encode_message, encode_cstring, encode_count_prefixed,
}
use halephant.Proto.Frontend.Parsing.{ssl_request_code, cancel_request_code, gss_enc_request_code}
use halephant.Proto.Frontend.{Parse, Bind, TargetKind, FrontendMessage}
use halephant.Proto.Primitives.Wire.{code}
use halephant.Proto.Types.{FormatCode}

abbrev pub encode_target_kind : TargetKind → ℕ
encode_target_kind TargetKind.statement = b'S'
encode_target_kind TargetKind.portal = b'P'

module _ (b : Buffer) where
  unfoldable pub encode_parameters : List (Text × Text) → b.BytesMut → b.BytesMut
  encode_parameters [] dst = dst
  encode_parameters ((key, value) ∷ rest) dst =
      encode_parameters rest (encode_cstring b (encode_cstring b dst key) value)

  unfoldable pub encode_param : b.BytesMut → Option (List ℕ) → b.BytesMut
  encode_param dst none = b.put_i32 dst (2 ^ 32 - 1)
  encode_param dst (some bytes) = b.extend_from_slice (b.put_i32 dst (length bytes)) bytes

  unfoldable pub encode_format : b.BytesMut → FormatCode → b.BytesMut
  encode_format dst fc = b.put_i16 dst (code fc)

  unfoldable pub encode_parse : Parse → b.BytesMut → b.BytesMut
  encode_parse p dst =
      encode_count_prefixed b (encode_cstring b (encode_cstring b dst p.name) p.query) p.param_types
        b.put_i32

  unfoldable pub encode_bind : Bind → b.BytesMut → b.BytesMut
  unfolding encode_param encode_format
  encode_bind m dst =
      let names = encode_cstring b (encode_cstring b dst m.portal) m.statement in
      let formats = encode_count_prefixed b names m.param_formats (encode_format) in
      let params = encode_count_prefixed b formats m.params (encode_param) in
      encode_count_prefixed b params m.result_formats (encode_format)

  unfoldable pub encode_nothing : b.BytesMut → b.BytesMut
  encode_nothing dst = dst

  unfoldable pub encode : FrontendMessage → b.BytesMut → b.BytesMut
  unfolding encode_parameters encode_parse encode_bind encode_nothing
  encode (FrontendMessage.startup s) dst = encode_initial b dst (λ d.
      b.put_u8
        (encode_parameters s.parameters (b.put_i16 (b.put_i16 d s.version.major) s.version.minor))
        0)
  encode FrontendMessage.ssl_request dst = encode_initial b dst (λ d. b.put_i32 d ssl_request_code)
  encode FrontendMessage.gss_enc_request dst =
      encode_initial b dst (λ d. b.put_i32 d gss_enc_request_code)
  encode (FrontendMessage.cancel_request process_id secret_key) dst =
      encode_initial b dst
        (λ d. b.put_i32 (b.put_i32 (b.put_i32 d cancel_request_code) process_id) secret_key)
  encode (FrontendMessage.query query) dst =
      encode_message b dst b'Q' (λ d. encode_cstring b d query)
  encode (FrontendMessage.parse p) dst = encode_message b dst b'P' (encode_parse p)
  encode (FrontendMessage.bind m) dst = encode_message b dst b'B' (encode_bind m)
  encode (FrontendMessage.describe m) dst =
      encode_message b dst b'D'
        (λ d. encode_cstring b (b.put_u8 d (encode_target_kind m.kind)) m.name)
  encode (FrontendMessage.execute m) dst =
      encode_message b dst b'E' (λ d. b.put_i32 (encode_cstring b d m.portal) m.max_rows)
  encode (FrontendMessage.close m) dst =
      encode_message b dst b'C'
        (λ d. encode_cstring b (b.put_u8 d (encode_target_kind m.kind)) m.name)
  encode FrontendMessage.sync dst = encode_message b dst b'S' (encode_nothing)
  encode FrontendMessage.flush dst = encode_message b dst b'H' (encode_nothing)
  encode FrontendMessage.terminate dst = encode_message b dst b'X' (encode_nothing)
  encode FrontendMessage.copy_done dst = encode_message b dst b'c' (encode_nothing)
  encode (FrontendMessage.copy_data bytes) dst =
      encode_message b dst b'd' (λ d. b.extend_from_slice d bytes)
  encode (FrontendMessage.copy_fail msg) dst =
      encode_message b dst b'f' (λ d. encode_cstring b d msg)
  encode (FrontendMessage.function_call bytes) dst =
      encode_message b dst b'F' (λ d. b.extend_from_slice d bytes)
  encode (FrontendMessage.password_message bytes) dst =
      encode_message b dst b'p' (λ d. b.extend_from_slice d bytes)
