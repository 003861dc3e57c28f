-- ===== src/Proto/Frontend.antt =====
-- The messages of crates/halephant-core/src/proto/frontend.rs. An `i16` or `i32` is its bit
-- pattern, below 2 ^ 16 or 2 ^ 32.
pub mod Parsing
pub mod Layout
pub mod Encoding
pub mod RoundTrip
pub mod Opening
pub mod Ends
use halephant.Prelude.{ℕ, List, Option, Text}
use halephant.Proto.Types.{Oid, FormatCode}

pub record ProtocolVersion : Type 0 where
  pub major : ℕ
  pub minor : ℕ

pub record Startup : Type 0 where
  pub version : ProtocolVersion
  pub parameters : List (Text × Text)

pub record Parse : Type 0 where
  pub name : Text
  pub query : Text
  pub param_types : List Oid

pub record Bind : Type 0 where
  pub portal : Text
  pub statement : Text
  pub param_formats : List FormatCode
  pub params : List (Option (List ℕ))
  pub result_formats : List FormatCode

pub data TargetKind : Type 0 where
  statement portal : TargetKind

pub record Describe : Type 0 where
  pub kind : TargetKind
  pub name : Text

pub record Execute : Type 0 where
  pub portal : Text
  pub max_rows : ℕ

pub record Close : Type 0 where
  pub kind : TargetKind
  pub name : Text

pub data FrontendMessage : Type 0 where
  startup : Startup → FrontendMessage
  ssl_request : FrontendMessage
  gss_enc_request : FrontendMessage
  cancel_request : ℕ → ℕ → FrontendMessage
  bind : Bind → FrontendMessage
  close : Close → FrontendMessage
  copy_data : List ℕ → FrontendMessage
  copy_done : FrontendMessage
  copy_fail : Text → FrontendMessage
  describe : Describe → FrontendMessage
  execute : Execute → FrontendMessage
  flush : FrontendMessage
  function_call : List ℕ → FrontendMessage
  parse : Parse → FrontendMessage
  password_message : List ℕ → FrontendMessage
  query : Text → FrontendMessage
  sync : FrontendMessage
  terminate : FrontendMessage
