-- ===== src/Proto/Backend/RoundTrip.antt =====
-- Reading back what crates/halephant-core/src/proto/backend.rs writes.
use halephant.Prelude.{
  ℕ, ◌+◌, ◌^◌, ◌≡◌, ◌<◌, ◌++◌, refl, subst, List, [], ◌∷◌, length, append-nil, append_assoc, All,
  All-map, arith,
}
use halephant.Proto.Backend.Encoding.{status_byte}
use halephant.Proto.Backend.Fields.{
  IsField, IsTagged, IsMechanism, Takes-field, Takes-status, Takes-copy, Takes-notice,
  Takes-mechanisms, go-rest,
}
use halephant.Proto.Backend.Layout.{type_byte, payload, field_layout, notice_layout, copy_layout}
use halephant.Proto.Backend.Parsing.{
  salt_parser, authentication_by, authentication, backend_key_data, command_complete, data_row,
  field_description, row_description, parameter_status, parameter_description, status_of,
  ready_for_query, notification, notice_fields, copy_response, mechanism, parse,
}
use halephant.Proto.Backend.{CopyResponse, Notification, NoticeFields, Salt, BackendMessage}
use halephant.Proto.Chumsky.{Outcome, ok, Input, Chumsky, run, run-go}
use halephant.Proto.Frontend.RoundTrip.{Takes-run}
use halephant.Proto.Primitives.Loop.{loop_all}
use halephant.Proto.Primitives.Takes.{
  Takes-any, Takes-mapped, Takes-and_then, Takes-int32, Takes-cstring, Takes-count_prefixed,
  IsNullable, Takes-nullable_bytes,
}
use halephant.Proto.Primitives.Wire.{
  be32, IsCString, cstring, nullable_bytes, each, count_prefixed, Takes, Takes-bind, Takes-then,
}
use halephant.Proto.Primitives.{pg_int32, pg_cstring, pg_nullable_bytes, pg_count_prefixed}

module _ (c : Chumsky) where
  -- What the fields of a message must be for the wire form to hold them.
  abbrev pub IsWire : BackendMessage → Type 0
  IsWire (BackendMessage.authentication_sasl ms) = All IsMechanism ms
  IsWire (BackendMessage.backend_key_data process_id secret_key) =
      (process_id < 2 ^ 32) × (secret_key < 2 ^ 32)
  IsWire (BackendMessage.command_complete tag) = IsCString tag
  IsWire (BackendMessage.row_description fields) = (length fields < 2 ^ 15) × All IsField fields
  IsWire (BackendMessage.data_row columns) = (length columns < 2 ^ 15) × All (IsNullable c) columns
  IsWire (BackendMessage.parameter_description oids) =
      (length oids < 2 ^ 15) × All (λ oid. oid < 2 ^ 32) oids
  IsWire (BackendMessage.parameter_status name value) = IsCString name × IsCString value
  IsWire (BackendMessage.copy_in_response cr) = length cr.column_formats < 2 ^ 15
  IsWire (BackendMessage.copy_out_response cr) = length cr.column_formats < 2 ^ 15
  IsWire (BackendMessage.copy_both_response cr) = length cr.column_formats < 2 ^ 15
  IsWire (BackendMessage.error_response n) = All IsTagged n.fields
  IsWire (BackendMessage.notice_response n) = All IsTagged n.fields
  IsWire (BackendMessage.notification_response n) =
      (n.process_id < 2 ^ 32) × IsCString n.channel × IsCString n.payload
  IsWire _ = Unit

  Takes-salt :
      (s : Salt)
      → Takes
          (salt_parser c)
          (s.b0 ∷ s.b1 ∷ s.b2 ∷ s.b3 ∷ [])
          (BackendMessage.authentication_md5_password s)
  unfolding salt_parser
  Takes-salt s =
      let m = BackendMessage.authentication_md5_password s in
      Takes-bind (λ i. c.go c.any i) _ (s.b0 ∷ []) (s.b1 ∷ s.b2 ∷ s.b3 ∷ []) s.b0 m
        (Takes-any c s.b0)
        (Takes-bind (λ i. c.go c.any i) _ (s.b1 ∷ []) (s.b2 ∷ s.b3 ∷ []) s.b1 m (Takes-any c s.b1)
          (Takes-bind (λ i. c.go c.any i) _ (s.b2 ∷ []) (s.b3 ∷ []) s.b2 m (Takes-any c s.b2)
            (Takes-then (λ i. c.go c.any i)
              (λ b3. BackendMessage.authentication_md5_password (record s { b3 = b3 })) (s.b3 ∷ [])
              s.b3 (Takes-any c s.b3))))

  -- Behind its type, an authentication message takes the rest of the input.
  Takes-authentication :
      (n : ℕ) (w : List ℕ) (m : BackendMessage)
      → n < 2 ^ 32
      → authentication_by c n (record { at = 4; left = w })
        ≡ ok (m, record { at = 4 + length w; left = [] })
      → run c (authentication c) (be32 n ++ w) ≡ ok m
  unfolding authentication
  Takes-authentication n w m l h =
      run-go c (authentication c) (be32 n ++ w) m (4 + length w)
        (rw (c.go-custom _ (record { at = 0; left = be32 n ++ w }), Takes-int32 c n l 0 w) h)

  at-end :
      {A : Type 0}
      → (f : Input → Outcome c.Rich (A × Input)) (w : List ℕ) (a : A) → Takes f w a
      → f (record { at = 4; left = w }) ≡ ok (a, record { at = 4 + length w; left = [] })
  at-end f w a h =
      subst (λ v. f (record { at = 4; left = v }) ≡ ok (a, record { at = 4 + length w; left = [] }))
        (append-nil w) (h 4 [])

  run-copy :
      (k : CopyResponse → BackendMessage) (cr : CopyResponse)
      → length cr.column_formats < 2 ^ 15
      → run c (c.mapped k (copy_response c)) (copy_layout cr) ≡ ok (k cr)
  run-copy k cr l =
      Takes-run c (c.mapped k (copy_response c)) (copy_layout cr) (k cr)
        (Takes-mapped c k (copy_response c) (copy_layout cr) cr (Takes-copy c cr l))

  run-notice :
      (k : NoticeFields → BackendMessage) (n : NoticeFields)
      → All IsTagged n.fields
      → run c (c.mapped k (notice_fields c)) (notice_layout n) ≡ ok (k n)
  run-notice k n h =
      Takes-run c (c.mapped k (notice_fields c)) (notice_layout n) (k n)
        (Takes-mapped c k (notice_fields c) (notice_layout n) n (Takes-notice c n h))

  run-notification :
      (n : Notification)
      → IsWire (BackendMessage.notification_response n)
      → run c (notification c) (payload (BackendMessage.notification_response n))
        ≡ ok (BackendMessage.notification_response n)
  unfolding notification
  run-notification n h =
      let v = be32 n.process_id ++ cstring n.channel in
      subst (λ w. run c (notification c) w ≡ ok (BackendMessage.notification_response n))
        (append_assoc (be32 n.process_id) (cstring n.channel) (cstring n.payload))
        (Takes-run c (notification c) (v ++ cstring n.payload)
          (BackendMessage.notification_response n)
          (Takes-mapped c _ (c.and_then (c.and_then (pg_int32 c) (pg_cstring c)) (pg_cstring c))
            (v ++ cstring n.payload) ((n.process_id, n.channel), n.payload)
            (Takes-and_then c (c.and_then (pg_int32 c) (pg_cstring c)) (pg_cstring c) v
              (cstring n.payload) (n.process_id, n.channel) n.payload
              (Takes-and_then c (pg_int32 c) (pg_cstring c) (be32 n.process_id) (cstring n.channel)
                n.process_id n.channel (Takes-int32 c n.process_id h.0)
                (Takes-cstring c n.channel h.1))
              (Takes-cstring c n.payload h.2))))

  -- `parse` reads back every message of the server from its type and its payload, if every text is
  -- Unicode without the character 0, every count is below 2 ^ 15, every value shorter than 2 ^ 31
  -- bytes, every number below 2 ^ 32 or 2 ^ 16 as its field is wide, no tag of a notice is 0, and no
  -- authentication mechanism is empty.
  pub parse-backend_payload :
      (m : BackendMessage) → IsWire m → parse c (type_byte m) (payload m) ≡ ok m
  unfolding parse authentication_by backend_key_data command_complete data_row row_description
      parameter_status parameter_description ready_for_query
  parse-backend_payload BackendMessage.authentication_ok h =
      Takes-authentication 0 [] BackendMessage.authentication_ok (omega arith) refl
  parse-backend_payload BackendMessage.authentication_cleartext_password h =
      Takes-authentication 3 [] BackendMessage.authentication_cleartext_password (omega arith) refl
  parse-backend_payload (BackendMessage.authentication_md5_password s) h =
      Takes-authentication 5 (s.b0 ∷ s.b1 ∷ s.b2 ∷ s.b3 ∷ []) _ (omega arith)
        (at-end (salt_parser c) (s.b0 ∷ s.b1 ∷ s.b2 ∷ s.b3 ∷ []) _ (Takes-salt s))
  parse-backend_payload (BackendMessage.authentication_sasl ms) h =
      Takes-authentication 10 (each cstring ms ++ 0 ∷ []) _ (omega arith) (
        at-end (authentication_by c 10) (each cstring ms ++ 0 ∷ []) _ (
          Takes-then (loop_all (mechanism c)) BackendMessage.authentication_sasl
            (each cstring ms ++ 0 ∷ []) ms (Takes-mechanisms c ms h)))
  parse-backend_payload (BackendMessage.authentication_sasl_continue bytes) h =
      Takes-authentication 11 bytes _ (omega arith) (rw (go-rest c bytes 4) refl)
  parse-backend_payload (BackendMessage.authentication_sasl_final bytes) h =
      Takes-authentication 12 bytes _ (omega arith) (rw (go-rest c bytes 4) refl)
  parse-backend_payload (BackendMessage.backend_key_data process_id secret_key) h =
      Takes-run c (backend_key_data c) (be32 process_id ++ be32 secret_key) _ (
        Takes-mapped c _ (c.and_then (pg_int32 c) (pg_int32 c)) (be32 process_id ++ be32 secret_key)
          (process_id, secret_key)
          (Takes-and_then c (pg_int32 c) (pg_int32 c) (be32 process_id) (be32 secret_key) process_id
            secret_key (Takes-int32 c process_id h.0) (Takes-int32 c secret_key h.1)))
  parse-backend_payload BackendMessage.parse_complete h = refl
  parse-backend_payload BackendMessage.bind_complete h = refl
  parse-backend_payload BackendMessage.close_complete h = refl
  parse-backend_payload BackendMessage.no_data h = refl
  parse-backend_payload BackendMessage.portal_suspended h = refl
  parse-backend_payload BackendMessage.empty_query_response h = refl
  parse-backend_payload BackendMessage.copy_done h = refl
  parse-backend_payload (BackendMessage.copy_data bytes) h = refl
  parse-backend_payload (BackendMessage.command_complete tag) h =
      Takes-run c (command_complete c) (cstring tag) _ (
        Takes-mapped c BackendMessage.command_complete (pg_cstring c) (cstring tag) tag
          (Takes-cstring c tag h))
  parse-backend_payload (BackendMessage.row_description fields) h =
      Takes-run c (row_description c) (count_prefixed field_layout fields) _ (
        Takes-mapped c BackendMessage.row_description (pg_count_prefixed c (field_description c))
          (count_prefixed field_layout fields) fields
          (Takes-count_prefixed c (field_description c) field_layout fields h.0
            (All-map (Takes-field c) fields h.1)))
  parse-backend_payload (BackendMessage.data_row columns) h =
      Takes-run c (data_row c) (count_prefixed nullable_bytes columns) _ (
        Takes-mapped c BackendMessage.data_row (pg_count_prefixed c (pg_nullable_bytes c))
          (count_prefixed nullable_bytes columns) columns
          (Takes-count_prefixed c (pg_nullable_bytes c) nullable_bytes columns h.0
            (All-map (Takes-nullable_bytes c) columns h.1)))
  parse-backend_payload (BackendMessage.parameter_description oids) h =
      Takes-run c (parameter_description c) (count_prefixed be32 oids) _ (
        Takes-mapped c BackendMessage.parameter_description (pg_count_prefixed c (pg_int32 c))
          (count_prefixed be32 oids) oids
          (Takes-count_prefixed c (pg_int32 c) be32 oids h.0 (All-map (Takes-int32 c) oids h.1)))
  parse-backend_payload (BackendMessage.parameter_status name value) h =
      Takes-run c (parameter_status c) (cstring name ++ cstring value) _ (
        Takes-mapped c _ (c.and_then (pg_cstring c) (pg_cstring c)) (cstring name ++ cstring value)
          (name, value)
          (Takes-and_then c (pg_cstring c) (pg_cstring c) (cstring name) (cstring value) name value
            (Takes-cstring c name h.0) (Takes-cstring c value h.1)))
  parse-backend_payload (BackendMessage.ready_for_query status) h =
      Takes-run c (ready_for_query c) (status_byte status ∷ []) _ (
        Takes-mapped c BackendMessage.ready_for_query (c.try_map (status_of c) c.any)
          (status_byte status ∷ []) status (Takes-status c status))
  parse-backend_payload (BackendMessage.copy_in_response cr) h =
      run-copy BackendMessage.copy_in_response cr h
  parse-backend_payload (BackendMessage.copy_out_response cr) h =
      run-copy BackendMessage.copy_out_response cr h
  parse-backend_payload (BackendMessage.copy_both_response cr) h =
      run-copy BackendMessage.copy_both_response cr h
  parse-backend_payload (BackendMessage.error_response n) h =
      run-notice BackendMessage.error_response n h
  parse-backend_payload (BackendMessage.notice_response n) h =
      run-notice BackendMessage.notice_response n h
  parse-backend_payload (BackendMessage.notification_response n) h = run-notification n h
