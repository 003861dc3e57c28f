-- ===== src/Proto/Backend/Parsing.antt =====
-- `parse` of crates/halephant-core/src/proto/backend.rs.
use halephant.Prelude.{ℕ, ◌==◌, List, [], Option, none, some, Text, if◌then◌else◌}
use halephant.Proto.Backend.{FieldDescription, CopyResponse, NoticeFields, BackendMessage}
use halephant.Proto.Chumsky.{
  Outcome, ok, err, bind, Span, Input, Chumsky, ProtocolError, unknown_message_type, run,
}
use halephant.Proto.Primitives.Loop.{loop_all}
use halephant.Proto.Primitives.{
  pg_int16, pg_int32, pg_cstring, pg_nullable_bytes, pg_count_prefixed, pg_format_code,
}
use halephant.Proto.Types.{FormatCode, TransactionStatus}

module _ (c : Chumsky) where
  unfoldable pub salt_parser : Input → Outcome c.Rich (BackendMessage × Input)
  salt_parser i = bind (c.go c.any i) (λ b0. bind (c.go c.any b0.1) (λ b1.
      bind (c.go c.any b1.1) (λ b2. bind (c.go c.any b2.1) (λ b3. ok (
        BackendMessage.authentication_md5_password
            (record { b0 = b0.0; b1 = b1.0; b2 = b2.0; b3 = b3.0 }),
        b3.1,
      )))))

  -- A mechanism, or the empty one that ends the list.
  unfoldable pub mechanism_or_end : Text → Option Text
  mechanism_or_end [] = none
  mechanism_or_end mech = some mech

  unfoldable pub mechanism : Input → Outcome c.Rich (Option Text × Input)
  mechanism i = bind (c.go (pg_cstring c) i) (λ r. ok (mechanism_or_end r.0, r.1))

  unfoldable pub authentication_by : ℕ → Input → Outcome c.Rich (BackendMessage × Input)
  authentication_by auth_type i =
      if auth_type == 0
      then ok (BackendMessage.authentication_ok, i)
      else if auth_type == 3
      then ok (BackendMessage.authentication_cleartext_password, i)
      else if auth_type == 5
      then salt_parser i
      else if auth_type == 10
      then bind (loop_all (mechanism) i) (λ r. ok (BackendMessage.authentication_sasl r.0, r.1))
      else if auth_type == 11
      then bind (c.go (c.repeated c.any) i)
          (λ r. ok (BackendMessage.authentication_sasl_continue r.0, r.1))
      else if auth_type == 12
      then bind (c.go (c.repeated c.any) i)
          (λ r. ok (BackendMessage.authentication_sasl_final r.0, r.1))
      else err (c.rich_custom (record { start = 0; stop = 4 }))

  unfoldable pub authentication : c.Parser BackendMessage
  authentication = c.custom (λ i. bind (c.go (pg_int32 c) i) (λ r. authentication_by r.0 r.1))

  unfoldable pub backend_key_data : c.Parser BackendMessage
  backend_key_data =
      c.mapped (λ r. BackendMessage.backend_key_data r.0 r.1) (c.and_then (pg_int32 c) (pg_int32 c))

  unfoldable pub command_complete : c.Parser BackendMessage
  command_complete = c.mapped BackendMessage.command_complete (pg_cstring c)

  unfoldable pub data_row : c.Parser BackendMessage
  data_row = c.mapped BackendMessage.data_row (pg_count_prefixed c (pg_nullable_bytes c))

  unfoldable pub field_description : c.Parser FieldDescription
  field_description = c.custom (λ i. bind (c.go (pg_cstring c) i) (λ name.
      bind (c.go (pg_int32 c) name.1) (λ table_oid.
        bind (c.go (pg_int16 c) table_oid.1) (λ column_id.
          bind (c.go (pg_int32 c) column_id.1) (λ type_oid.
            bind (c.go (pg_int16 c) type_oid.1) (λ type_size.
              bind (c.go (pg_int32 c) type_size.1) (λ type_modifier.
                bind (c.go (pg_format_code c) type_modifier.1) (λ format. ok (
                  record {
                    name = name.0;
                    table_oid = table_oid.0;
                    column_id = column_id.0;
                    type_oid = type_oid.0;
                    type_size = type_size.0;
                    type_modifier = type_modifier.0;
                    format = format.0;
                  },
                  format.1,
                )))))))))

  unfoldable pub row_description : c.Parser BackendMessage
  row_description =
      c.mapped BackendMessage.row_description (pg_count_prefixed c (field_description))

  unfoldable pub parameter_status : c.Parser BackendMessage
  parameter_status =
      c.mapped (λ r. BackendMessage.parameter_status r.0 r.1)
        (c.and_then (pg_cstring c) (pg_cstring c))

  unfoldable pub parameter_description : c.Parser BackendMessage
  parameter_description =
      c.mapped BackendMessage.parameter_description (pg_count_prefixed c (pg_int32 c))

  unfoldable pub status_of : ℕ → Span → Outcome c.Rich TransactionStatus
  status_of b span =
      if b == b'I'
      then ok TransactionStatus.idle
      else if b == b'T'
      then ok TransactionStatus.in_transaction
      else if b == b'E'
      then ok TransactionStatus.failed
      else err (c.rich_custom span)

  unfoldable pub ready_for_query : c.Parser BackendMessage
  ready_for_query = c.mapped BackendMessage.ready_for_query (c.try_map (status_of) c.any)

  unfoldable pub notification : c.Parser BackendMessage
  notification =
      c.mapped
        (λ r.
          BackendMessage.notification_response
            (record { process_id = r.0.0; channel = r.0.1; payload = r.1 }))
        (c.and_then (c.and_then (pg_int32 c) (pg_cstring c)) (pg_cstring c))

  -- A tag and its value, or the tag 0 that ends the list.
  unfoldable pub notice_after : ℕ → Input → Outcome c.Rich (Option (ℕ × Text) × Input)
  notice_after tag i =
      let value = bind (c.go (pg_cstring c) i) (λ r. ok (some (tag, r.0), r.1)) in
      if tag == 0 then ok (none, i) else value

  unfoldable pub notice_field : Input → Outcome c.Rich (Option (ℕ × Text) × Input)
  notice_field i = bind (c.go c.any i) (λ r. notice_after r.0 r.1)

  unfoldable pub notice_fields : c.Parser NoticeFields
  notice_fields =
      c.custom (λ i. bind (loop_all (notice_field) i) (λ r. ok (record { fields = r.0 }, r.1)))

  unfoldable pub overall_format : ℕ → Span → Outcome c.Rich FormatCode
  overall_format b span =
      if b == 0
      then ok FormatCode.text
      else if b == 1
      then ok FormatCode.binary
      else err (c.rich_custom span)

  unfoldable pub copy_response : c.Parser CopyResponse
  copy_response =
      c.mapped (λ r. record { format = r.0; column_formats = r.1 })
        (c.and_then (c.try_map (overall_format) c.any) (pg_count_prefixed c (pg_format_code c)))

  unfoldable pub parse : ℕ → List ℕ → Outcome ProtocolError BackendMessage
  parse msg_type payload =
      if msg_type == b'1'
      then ok BackendMessage.parse_complete
      else if msg_type == b'2'
      then ok BackendMessage.bind_complete
      else if msg_type == b'3'
      then ok BackendMessage.close_complete
      else if msg_type == b'A'
      then run c (notification) payload
      else if msg_type == b'C'
      then run c (command_complete) payload
      else if msg_type == b'c'
      then ok BackendMessage.copy_done
      else if msg_type == b'd'
      then ok (BackendMessage.copy_data payload)
      else if msg_type == b'D'
      then run c (data_row) payload
      else if msg_type == b'E'
      then run c (c.mapped BackendMessage.error_response (notice_fields)) payload
      else if msg_type == b'G'
      then run c (c.mapped BackendMessage.copy_in_response (copy_response)) payload
      else if msg_type == b'H'
      then run c (c.mapped BackendMessage.copy_out_response (copy_response)) payload
      else if msg_type == b'I'
      then ok BackendMessage.empty_query_response
      else if msg_type == b'K'
      then run c (backend_key_data) payload
      else if msg_type == b'n'
      then ok BackendMessage.no_data
      else if msg_type == b'N'
      then run c (c.mapped BackendMessage.notice_response (notice_fields)) payload
      else if msg_type == b'R'
      then run c (authentication) payload
      else if msg_type == b's'
      then ok BackendMessage.portal_suspended
      else if msg_type == b'S'
      then run c (parameter_status) payload
      else if msg_type == b't'
      then run c (parameter_description) payload
      else if msg_type == b'T'
      then run c (row_description) payload
      else if msg_type == b'W'
      then run c (c.mapped BackendMessage.copy_both_response (copy_response)) payload
      else if msg_type == b'Z'
      then run c (ready_for_query) payload
      else err (unknown_message_type msg_type)
