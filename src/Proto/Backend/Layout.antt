-- ===== src/Proto/Backend/Layout.antt =====
-- The wire form of the messages of crates/halephant-core/src/proto/backend.rs, after PostgreSQL's
-- message formats and apart from the code, and that `encode` writes it.
use halephant.Prelude.{ℕ, ◌≡◌, ◌++◌, sym, List, [], ◌∷◌, some, Text, append-nil}
use halephant.Proto.Backend.Encoding.{
  status_byte, encode_mechanisms, encode_field, encode_tagged, encode_notice_fields,
  encode_copy_response, encode_salt, encode_notification, encode,
}
use halephant.Proto.Backend.{
  FieldDescription, CopyResponse, Notification, NoticeFields, Salt, BackendMessage,
}
use halephant.Proto.Buffer.{
  Buffer, encode_cstring, encode_count_prefixed, Writes, Writes-then, Writes-cstring,
  Writes-count_prefixed, Writes-message,
}
use halephant.Proto.Frontend.Encoding.{encode_param, encode_format, encode_nothing}
use halephant.Proto.Frontend.Layout.{frame, Writes-nothing, Writes-param, Writes-formats}
use halephant.Proto.Primitives.Wire.{
  be16, be32, cstring, nullable_bytes, each, count_prefixed, code,
}

abbrev pub type_byte : BackendMessage → ℕ
type_byte BackendMessage.parse_complete = b'1'
type_byte BackendMessage.bind_complete = b'2'
type_byte BackendMessage.close_complete = b'3'
type_byte (BackendMessage.notification_response _) = b'A'
type_byte (BackendMessage.command_complete _) = b'C'
type_byte BackendMessage.copy_done = b'c'
type_byte (BackendMessage.copy_data _) = b'd'
type_byte (BackendMessage.data_row _) = b'D'
type_byte (BackendMessage.error_response _) = b'E'
type_byte (BackendMessage.copy_in_response _) = b'G'
type_byte (BackendMessage.copy_out_response _) = b'H'
type_byte BackendMessage.empty_query_response = b'I'
type_byte (BackendMessage.backend_key_data _ _) = b'K'
type_byte BackendMessage.no_data = b'n'
type_byte (BackendMessage.notice_response _) = b'N'
type_byte BackendMessage.portal_suspended = b's'
type_byte (BackendMessage.parameter_status _ _) = b'S'
type_byte (BackendMessage.parameter_description _) = b't'
type_byte (BackendMessage.row_description _) = b'T'
type_byte (BackendMessage.copy_both_response _) = b'W'
type_byte (BackendMessage.ready_for_query _) = b'Z'
type_byte _ = b'R'

abbrev pub field_layout : FieldDescription → List ℕ
field_layout f =
    cstring f.name
    ++ (be32 f.table_oid
        ++ (be16 f.column_id
            ++ (be32 f.type_oid
                ++ (be16 f.type_size ++ (be32 f.type_modifier ++ be16 (code f.format))))))

abbrev pub tagged_layout : ℕ × Text → List ℕ
tagged_layout (tag, value) = (tag ∷ []) ++ cstring value

abbrev pub notice_layout : NoticeFields → List ℕ
notice_layout n = each tagged_layout n.fields ++ 0 ∷ []

abbrev pub copy_layout : CopyResponse → List ℕ
copy_layout cr = (code cr.format ∷ []) ++ count_prefixed (λ f. be16 (code f)) cr.column_formats

abbrev pub payload : BackendMessage → List ℕ
payload BackendMessage.authentication_ok = be32 0
payload BackendMessage.authentication_cleartext_password = be32 3
payload (BackendMessage.authentication_md5_password s) = be32 5 ++ (s.b0 ∷ s.b1 ∷ s.b2 ∷ s.b3 ∷ [])
payload (BackendMessage.authentication_sasl mechanisms) =
    be32 10 ++ (each cstring mechanisms ++ 0 ∷ [])
payload (BackendMessage.authentication_sasl_continue bytes) = be32 11 ++ bytes
payload (BackendMessage.authentication_sasl_final bytes) = be32 12 ++ bytes
payload (BackendMessage.backend_key_data process_id secret_key) = be32 process_id ++ be32 secret_key
payload (BackendMessage.command_complete tag) = cstring tag
payload (BackendMessage.row_description fields) = count_prefixed field_layout fields
payload (BackendMessage.data_row columns) = count_prefixed nullable_bytes columns
payload (BackendMessage.parameter_description oids) = count_prefixed be32 oids
payload (BackendMessage.parameter_status name value) = cstring name ++ cstring value
payload (BackendMessage.ready_for_query status) = status_byte status ∷ []
payload (BackendMessage.copy_in_response cr) = copy_layout cr
payload (BackendMessage.copy_out_response cr) = copy_layout cr
payload (BackendMessage.copy_both_response cr) = copy_layout cr
payload (BackendMessage.copy_data bytes) = bytes
payload (BackendMessage.error_response fields) = notice_layout fields
payload (BackendMessage.notice_response fields) = notice_layout fields
payload (BackendMessage.notification_response n) =
    be32 n.process_id ++ (cstring n.channel ++ cstring n.payload)
payload _ = []

abbrev pub wire : BackendMessage → List ℕ
wire m = frame (some (type_byte m)) (payload m)

module _ (b : Buffer) where
  Writes-tail :
      (n : ℕ) (bytes : List ℕ)
      → Writes b (λ d. b.extend_from_slice (b.put_i32 d n) bytes) (be32 n ++ bytes)
  Writes-tail n bytes =
      Writes-then b (λ d. b.put_i32 d n) (λ d. b.extend_from_slice d bytes) (be32 n) bytes
        (λ d. b.contents-put_i32 d n) (λ d. b.contents-extend_from_slice d bytes)

  Writes-mechanisms : (ms : List Text) → Writes b (encode_mechanisms b ms) (each cstring ms)
  unfolding encode_mechanisms
  Writes-mechanisms [] dst = sym (append-nil (b.contents dst))
  Writes-mechanisms (mech ∷ ms) dst =
      Writes-then b (λ d. encode_cstring b d mech) (encode_mechanisms b ms) (cstring mech)
        (each cstring ms) (Writes-cstring b mech) (Writes-mechanisms ms) dst

  Writes-sasl :
      (ms : List Text)
      → Writes b
          (λ d. b.put_u8 (encode_mechanisms b ms (b.put_i32 d 10)) 0)
          (be32 10 ++ (each cstring ms ++ 0 ∷ []))
  Writes-sasl ms =
      Writes-then b (λ d. b.put_i32 d 10) (λ d. b.put_u8 (encode_mechanisms b ms d) 0) (be32 10) _
        (λ d. b.contents-put_i32 d 10)
        (Writes-then b (encode_mechanisms b ms) (λ d. b.put_u8 d 0) (each cstring ms) (0 ∷ [])
          (Writes-mechanisms ms) (λ d. b.contents-put_u8 d 0))

  Writes-tagged : (fs : List (ℕ × Text)) → Writes b (encode_tagged b fs) (each tagged_layout fs)
  unfolding encode_tagged
  Writes-tagged [] dst = sym (append-nil (b.contents dst))
  Writes-tagged ((tag, value) ∷ fs) dst =
      Writes-then b (λ d. encode_cstring b (b.put_u8 d tag) value) (encode_tagged b fs)
        ((tag ∷ []) ++ cstring value) (each tagged_layout fs)
        (Writes-then b (λ d. b.put_u8 d tag) (λ d. encode_cstring b d value) (tag ∷ [])
          (cstring value) (λ d. b.contents-put_u8 d tag) (Writes-cstring b value))
        (Writes-tagged fs) dst

  Writes-notice : (n : NoticeFields) → Writes b (encode_notice_fields b n) (notice_layout n)
  unfolding encode_notice_fields
  Writes-notice n =
      Writes-then b (encode_tagged b n.fields) (λ d. b.put_u8 d 0) (each tagged_layout n.fields)
        (0 ∷ []) (Writes-tagged n.fields) (λ d. b.contents-put_u8 d 0)

  Writes-copy : (cr : CopyResponse) → Writes b (encode_copy_response b cr) (copy_layout cr)
  unfolding encode_copy_response
  Writes-copy cr =
      Writes-then b (λ d. b.put_u8 d (code cr.format))
        (λ d. encode_count_prefixed b d cr.column_formats (encode_format b)) (code cr.format ∷ [])
        (count_prefixed (λ f. be16 (code f)) cr.column_formats)
        (λ d. b.contents-put_u8 d (code cr.format)) (Writes-formats b cr.column_formats)

  Writes-numbers : (m n : ℕ) → Writes b (λ d. b.put_i32 (b.put_i32 d m) n) (be32 m ++ be32 n)
  Writes-numbers m n =
      Writes-then b (λ d. b.put_i32 d m) (λ d. b.put_i32 d n) (be32 m) (be32 n)
        (λ d. b.contents-put_i32 d m) (λ d. b.contents-put_i32 d n)

  Writes-texts :
      (s t : Text)
      → Writes b (λ d. encode_cstring b (encode_cstring b d s) t) (cstring s ++ cstring t)
  Writes-texts s t =
      Writes-then b (λ d. encode_cstring b d s) (λ d. encode_cstring b d t) (cstring s) (cstring t)
        (Writes-cstring b s) (Writes-cstring b t)

  Writes-notification :
      (n : Notification)
      → Writes b
          (encode_notification b n)
          (be32 n.process_id ++ (cstring n.channel ++ cstring n.payload))
  unfolding encode_notification
  Writes-notification n =
      Writes-then b (λ d. b.put_i32 d n.process_id)
        (λ d. encode_cstring b (encode_cstring b d n.channel) n.payload) (be32 n.process_id) _
        (λ d. b.contents-put_i32 d n.process_id) (Writes-texts n.channel n.payload)

  Writes-field : (f : FieldDescription) → Writes b (λ d. encode_field b d f) (field_layout f)
  unfolding encode_field
  Writes-field f =
      Writes-then b (λ d. encode_cstring b d f.name)
        (λ d.
          b.put_i16
            (b.put_i32
              (b.put_i16 (b.put_i32 (b.put_i16 (b.put_i32 d f.table_oid) f.column_id) f.type_oid)
                f.type_size)
              f.type_modifier)
            (code f.format))
        (cstring f.name) _ (Writes-cstring b f.name)
        (Writes-then b (λ d. b.put_i32 d f.table_oid)
          (λ d.
            b.put_i16
              (b.put_i32 (b.put_i16 (b.put_i32 (b.put_i16 d f.column_id) f.type_oid) f.type_size)
                f.type_modifier)
              (code f.format))
          (be32 f.table_oid) _ (λ d. b.contents-put_i32 d f.table_oid)
          (Writes-then b (λ d. b.put_i16 d f.column_id)
            (λ d.
              b.put_i16 (b.put_i32 (b.put_i16 (b.put_i32 d f.type_oid) f.type_size) f.type_modifier)
                (code f.format))
            (be16 f.column_id) _ (λ d. b.contents-put_i16 d f.column_id)
            (Writes-then b (λ d. b.put_i32 d f.type_oid)
              (λ d. b.put_i16 (b.put_i32 (b.put_i16 d f.type_size) f.type_modifier) (code f.format))
              (be32 f.type_oid) _ (λ d. b.contents-put_i32 d f.type_oid)
              (Writes-then b (λ d. b.put_i16 d f.type_size)
                (λ d. b.put_i16 (b.put_i32 d f.type_modifier) (code f.format)) (be16 f.type_size) _
                (λ d. b.contents-put_i16 d f.type_size)
                (Writes-then b (λ d. b.put_i32 d f.type_modifier) (λ d. b.put_i16 d (code f.format))
                  (be32 f.type_modifier) (be16 (code f.format))
                  (λ d. b.contents-put_i32 d f.type_modifier)
                  (λ d. b.contents-put_i16 d (code f.format)))))))

  Writes-salt : (s : Salt) → Writes b (encode_salt b s) (be32 5 ++ (s.b0 ∷ s.b1 ∷ s.b2 ∷ s.b3 ∷ []))
  unfolding encode_salt
  Writes-salt s = Writes-tail 5 (s.b0 ∷ s.b1 ∷ s.b2 ∷ s.b3 ∷ [])

  -- Behind whatever the buffer holds, `encode` writes the wire form of the message and no more: its
  -- type, its length, and its fields in their order.
  pub encode-backend_wire :
      (m : BackendMessage) (dst : b.BytesMut)
      → b.contents (encode b m dst) ≡ b.contents dst ++ wire m
  unfolding encode
  encode-backend_wire BackendMessage.authentication_ok dst =
      Writes-message b b'R' (λ d. b.put_i32 d 0) _ (λ d. b.contents-put_i32 d 0) dst
  encode-backend_wire BackendMessage.authentication_cleartext_password dst =
      Writes-message b b'R' (λ d. b.put_i32 d 3) _ (λ d. b.contents-put_i32 d 3) dst
  encode-backend_wire (BackendMessage.authentication_md5_password s) dst =
      Writes-message b b'R' (encode_salt b s) _ (Writes-salt s) dst
  encode-backend_wire (BackendMessage.authentication_sasl ms) dst =
      Writes-message b b'R' _ _ (Writes-sasl ms) dst
  encode-backend_wire (BackendMessage.authentication_sasl_continue bytes) dst =
      Writes-message b b'R' _ _ (Writes-tail 11 bytes) dst
  encode-backend_wire (BackendMessage.authentication_sasl_final bytes) dst =
      Writes-message b b'R' _ _ (Writes-tail 12 bytes) dst
  encode-backend_wire (BackendMessage.backend_key_data process_id secret_key) dst =
      Writes-message b b'K' _ _ (Writes-numbers process_id secret_key) dst
  encode-backend_wire BackendMessage.parse_complete dst =
      Writes-message b b'1' (encode_nothing b) [] (Writes-nothing b) dst
  encode-backend_wire BackendMessage.bind_complete dst =
      Writes-message b b'2' (encode_nothing b) [] (Writes-nothing b) dst
  encode-backend_wire BackendMessage.close_complete dst =
      Writes-message b b'3' (encode_nothing b) [] (Writes-nothing b) dst
  encode-backend_wire BackendMessage.no_data dst =
      Writes-message b b'n' (encode_nothing b) [] (Writes-nothing b) dst
  encode-backend_wire BackendMessage.portal_suspended dst =
      Writes-message b b's' (encode_nothing b) [] (Writes-nothing b) dst
  encode-backend_wire BackendMessage.empty_query_response dst =
      Writes-message b b'I' (encode_nothing b) [] (Writes-nothing b) dst
  encode-backend_wire BackendMessage.copy_done dst =
      Writes-message b b'c' (encode_nothing b) [] (Writes-nothing b) dst
  encode-backend_wire (BackendMessage.command_complete tag) dst =
      Writes-message b b'C' _ _ (Writes-cstring b tag) dst
  encode-backend_wire (BackendMessage.row_description fields) dst =
      Writes-message b b'T' _ _
        (Writes-count_prefixed b fields (encode_field b) field_layout Writes-field) dst
  encode-backend_wire (BackendMessage.data_row columns) dst =
      Writes-message b b'D' _ _
        (Writes-count_prefixed b columns (encode_param b) nullable_bytes (Writes-param b)) dst
  encode-backend_wire (BackendMessage.parameter_description oids) dst =
      Writes-message b b't' _ _
        (Writes-count_prefixed b oids b.put_i32 be32 (λ oid d. b.contents-put_i32 d oid)) dst
  encode-backend_wire (BackendMessage.parameter_status name value) dst =
      Writes-message b b'S' _ _ (Writes-texts name value) dst
  encode-backend_wire (BackendMessage.ready_for_query status) dst =
      Writes-message b b'Z' (λ d. b.put_u8 d (status_byte status)) _
        (λ d. b.contents-put_u8 d (status_byte status)) dst
  encode-backend_wire (BackendMessage.copy_in_response cr) dst =
      Writes-message b b'G' _ _ (Writes-copy cr) dst
  encode-backend_wire (BackendMessage.copy_out_response cr) dst =
      Writes-message b b'H' _ _ (Writes-copy cr) dst
  encode-backend_wire (BackendMessage.copy_both_response cr) dst =
      Writes-message b b'W' _ _ (Writes-copy cr) dst
  encode-backend_wire (BackendMessage.copy_data bytes) dst =
      Writes-message b b'd' (λ d. b.extend_from_slice d bytes) bytes
        (λ d. b.contents-extend_from_slice d bytes) dst
  encode-backend_wire (BackendMessage.error_response fields) dst =
      Writes-message b b'E' _ _ (Writes-notice fields) dst
  encode-backend_wire (BackendMessage.notice_response fields) dst =
      Writes-message b b'N' _ _ (Writes-notice fields) dst
  encode-backend_wire (BackendMessage.notification_response n) dst =
      Writes-message b b'A' _ _ (Writes-notification n) dst
