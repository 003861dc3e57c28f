-- ===== src/Proto/Backend/Encoding.antt =====
-- `encode` of crates/halephant-core/src/proto/backend.rs.
use halephant.Prelude.{ℕ, List, [], ◌∷◌, Text}
use halephant.Proto.Backend.{
  FieldDescription, CopyResponse, Notification, NoticeFields, Salt, BackendMessage,
}
use halephant.Proto.Buffer.{Buffer, encode_message, encode_cstring, encode_count_prefixed}
use halephant.Proto.Frontend.Encoding.{encode_param, encode_format, encode_nothing}
use halephant.Proto.Primitives.Wire.{code}
use halephant.Proto.Types.{TransactionStatus}

abbrev pub status_byte : TransactionStatus → ℕ
status_byte TransactionStatus.idle = b'I'
status_byte TransactionStatus.in_transaction = b'T'
status_byte TransactionStatus.failed = b'E'

module _ (b : Buffer) where
  unfoldable pub encode_mechanisms : List Text → b.BytesMut → b.BytesMut
  encode_mechanisms [] dst = dst
  encode_mechanisms (mech ∷ rest) dst = encode_mechanisms rest (encode_cstring b dst mech)

  unfoldable pub encode_field : b.BytesMut → FieldDescription → b.BytesMut
  encode_field dst f =
      let named = b.put_i16 (b.put_i32 (encode_cstring b dst f.name) f.table_oid) f.column_id in
      let typed = b.put_i32 (b.put_i16 (b.put_i32 named f.type_oid) f.type_size) f.type_modifier in
      b.put_i16 typed (code f.format)

  unfoldable pub encode_tagged : List (ℕ × Text) → b.BytesMut → b.BytesMut
  encode_tagged [] dst = dst
  encode_tagged ((tag, value) ∷ rest) dst =
      encode_tagged rest (encode_cstring b (b.put_u8 dst tag) value)

  unfoldable pub encode_notice_fields : NoticeFields → b.BytesMut → b.BytesMut
  encode_notice_fields n dst = b.put_u8 (encode_tagged n.fields dst) 0

  unfoldable pub encode_copy_response : CopyResponse → b.BytesMut → b.BytesMut
  encode_copy_response cr dst =
      encode_count_prefixed b (b.put_u8 dst (code cr.format)) cr.column_formats (encode_format b)

  unfoldable pub encode_salt : Salt → b.BytesMut → b.BytesMut
  encode_salt s dst = b.extend_from_slice (b.put_i32 dst 5) (s.b0 ∷ s.b1 ∷ s.b2 ∷ s.b3 ∷ [])

  unfoldable pub encode_notification : Notification → b.BytesMut → b.BytesMut
  encode_notification n dst =
      encode_cstring b (encode_cstring b (b.put_i32 dst n.process_id) n.channel) n.payload

  unfoldable pub encode : BackendMessage → b.BytesMut → b.BytesMut
  encode BackendMessage.authentication_ok dst = encode_message b dst b'R' (λ d. b.put_i32 d 0)
  encode BackendMessage.authentication_cleartext_password dst =
      encode_message b dst b'R' (λ d. b.put_i32 d 3)
  encode (BackendMessage.authentication_md5_password salt) dst =
      encode_message b dst b'R' (encode_salt salt)
  encode (BackendMessage.authentication_sasl mechanisms) dst =
      encode_message b dst b'R' (λ d. b.put_u8 (encode_mechanisms mechanisms (b.put_i32 d 10)) 0)
  encode (BackendMessage.authentication_sasl_continue bytes) dst =
      encode_message b dst b'R' (λ d. b.extend_from_slice (b.put_i32 d 11) bytes)
  encode (BackendMessage.authentication_sasl_final bytes) dst =
      encode_message b dst b'R' (λ d. b.extend_from_slice (b.put_i32 d 12) bytes)
  encode (BackendMessage.backend_key_data process_id secret_key) dst =
      encode_message b dst b'K' (λ d. b.put_i32 (b.put_i32 d process_id) secret_key)
  encode BackendMessage.parse_complete dst = encode_message b dst b'1' (encode_nothing b)
  encode BackendMessage.bind_complete dst = encode_message b dst b'2' (encode_nothing b)
  encode BackendMessage.close_complete dst = encode_message b dst b'3' (encode_nothing b)
  encode BackendMessage.no_data dst = encode_message b dst b'n' (encode_nothing b)
  encode BackendMessage.portal_suspended dst = encode_message b dst b's' (encode_nothing b)
  encode BackendMessage.empty_query_response dst = encode_message b dst b'I' (encode_nothing b)
  encode BackendMessage.copy_done dst = encode_message b dst b'c' (encode_nothing b)
  encode (BackendMessage.command_complete tag) dst =
      encode_message b dst b'C' (λ d. encode_cstring b d tag)
  encode (BackendMessage.row_description fields) dst =
      encode_message b dst b'T' (λ d. encode_count_prefixed b d fields (encode_field))
  encode (BackendMessage.data_row columns) dst =
      encode_message b dst b'D' (λ d. encode_count_prefixed b d columns (encode_param b))
  encode (BackendMessage.parameter_description oids) dst =
      encode_message b dst b't' (λ d. encode_count_prefixed b d oids b.put_i32)
  encode (BackendMessage.parameter_status name value) dst =
      encode_message b dst b'S' (λ d. encode_cstring b (encode_cstring b d name) value)
  encode (BackendMessage.ready_for_query status) dst =
      encode_message b dst b'Z' (λ d. b.put_u8 d (status_byte status))
  encode (BackendMessage.copy_in_response cr) dst =
      encode_message b dst b'G' (encode_copy_response cr)
  encode (BackendMessage.copy_out_response cr) dst =
      encode_message b dst b'H' (encode_copy_response cr)
  encode (BackendMessage.copy_both_response cr) dst =
      encode_message b dst b'W' (encode_copy_response cr)
  encode (BackendMessage.copy_data bytes) dst =
      encode_message b dst b'd' (λ d. b.extend_from_slice d bytes)
  encode (BackendMessage.error_response fields) dst =
      encode_message b dst b'E' (encode_notice_fields fields)
  encode (BackendMessage.notice_response fields) dst =
      encode_message b dst b'N' (encode_notice_fields fields)
  encode (BackendMessage.notification_response n) dst =
      encode_message b dst b'A' (encode_notification n)
