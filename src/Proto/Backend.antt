-- ===== src/Proto/Backend.antt =====
-- The messages of crates/halephant-core/src/proto/backend.rs. An `i16` or `i32` is its bit pattern,
-- below 2 ^ 16 or 2 ^ 32; a byte is below 256.
pub mod Parsing
pub mod Encoding
pub mod Layout
pub mod Fields
pub mod RoundTrip
use halephant.Prelude.{ℕ, ◌==◌, Bool, List, [], ◌∷◌, Option, none, some, Text, find}
use halephant.Proto.Types.{Oid, FormatCode, TransactionStatus}

pub record FieldDescription : Type 0 where
  pub name : Text
  pub table_oid : Oid
  pub column_id : ℕ
  pub type_oid : Oid
  pub type_size : ℕ
  pub type_modifier : ℕ
  pub format : FormatCode

pub record CopyResponse : Type 0 where
  pub format : FormatCode
  pub column_formats : List FormatCode

pub record Notification : Type 0 where
  pub process_id : ℕ
  pub channel : Text
  pub payload : Text

pub record NoticeFields : Type 0 where
  pub fields : List (ℕ × Text)

-- The array of four bytes in `AuthenticationMd5Password`.
pub record Salt : Type 0 where
  pub b0 : ℕ
  pub b1 : ℕ
  pub b2 : ℕ
  pub b3 : ℕ

pub data BackendMessage : Type 0 where
  authentication_ok authentication_cleartext_password : BackendMessage
  authentication_md5_password : Salt → BackendMessage
  authentication_sasl : List Text → BackendMessage
  authentication_sasl_continue : List ℕ → BackendMessage
  authentication_sasl_final : List ℕ → BackendMessage
  backend_key_data : ℕ → ℕ → BackendMessage
  parse_complete bind_complete close_complete no_data portal_suspended : BackendMessage
  empty_query_response : BackendMessage
  command_complete : Text → BackendMessage
  row_description : List FieldDescription → BackendMessage
  data_row : List (Option (List ℕ)) → BackendMessage
  parameter_description : List Oid → BackendMessage
  parameter_status : Text → Text → BackendMessage
  ready_for_query : TransactionStatus → BackendMessage
  copy_in_response copy_out_response copy_both_response : CopyResponse → BackendMessage
  copy_data : List ℕ → BackendMessage
  copy_done : BackendMessage
  error_response notice_response : NoticeFields → BackendMessage
  notification_response : Notification → BackendMessage

-- `NoticeFields::get`, and the message field.
unfoldable pub field : ℕ → NoticeFields → Option Text
field tag n = elim (find (λ f. f.0 == tag) n.fields) [ some (_, v) ↦ some v | none ↦ none ]
