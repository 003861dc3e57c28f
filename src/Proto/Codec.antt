-- ===== src/Proto/Codec.antt =====
-- The framing of crates/halephant-core/src/proto/codec.rs. The buffer after the call stands beside
-- the result.
pub mod Frames
pub mod Stream
use halephant.Prelude.{
  ℕ, ◌+◌, ◌*◌, ◌^◌, ◌≡◌, refl, Bool, true, false, List, [], ◌∷◌, Option, none, some, ltb,
  if◌then◌else◌,
}
use halephant.Proto.Buffer.{Buffer}
use halephant.Proto.Chumsky.{
  Outcome, ok, err, panicked, bind, Chumsky, ProtocolError, invalid_value,
}
use halephant.Proto.Backend
use halephant.Proto.Backend.{BackendMessage}
use halephant.Proto.Frontend.Parsing.{parse_initial, parse}
use halephant.Proto.Frontend.{FrontendMessage}

-- `u32::from_be_bytes`.
abbrev pub from_be_bytes : ℕ → ℕ → ℕ → ℕ → ℕ
from_be_bytes a b c d = ((a * 256 + b) * 256 + c) * 256 + d

-- `.map(Some)`.
abbrev pub found : {M : Type 0} → Outcome ProtocolError M → Outcome ProtocolError (Option M)
found (ok m) = ok (some m)
found (err e) = err e
found panicked = panicked

-- `&frame[5..]`.
abbrev pub skip_header : List ℕ → List ℕ
skip_header (t ∷ a ∷ b ∷ c ∷ d ∷ payload) = payload
skip_header _ = []

module _ (b : Buffer) where
  initial_of :
      (List ℕ → Outcome ProtocolError FrontendMessage)
      → b.BytesMut
      → ℕ
      → Outcome ProtocolError (Option FrontendMessage) × b.BytesMut
  initial_of parse_frame src length =
      if ltb length 4
      then (err (invalid_value 0), src)
      else if ltb (b.len src) length
      then (ok none, src)
      else (let (taken, left) = b.split_to src length in
          (found (parse_frame (b.contents taken)), left))

  initial_by_bytes :
      (List ℕ → Outcome ProtocolError FrontendMessage)
      → b.BytesMut
      → List ℕ
      → Outcome ProtocolError (Option FrontendMessage) × b.BytesMut
  unfolding initial_of
  initial_by_bytes parse_frame src (x0 ∷ x1 ∷ x2 ∷ x3 ∷ _) =
      initial_of parse_frame src (from_be_bytes x0 x1 x2 x3)
  initial_by_bytes parse_frame src _ = (ok none, src)

  -- Fewer than four bytes wait for more.
  unfoldable pub decode_initial :
      (List ℕ → Outcome ProtocolError FrontendMessage)
      → b.BytesMut
      → Outcome ProtocolError (Option FrontendMessage) × b.BytesMut
  unfolding initial_by_bytes
  decode_initial parse_frame src = initial_by_bytes parse_frame src (b.contents src)

  regular_of :
      {M : Type 0}
      → (ℕ → List ℕ → Outcome ProtocolError M)
      → b.BytesMut
      → ℕ
      → ℕ
      → Outcome ProtocolError (Option M) × b.BytesMut
  regular_of parse src msg_type length =
      if ltb length 4
      then (err (invalid_value 1), src)
      else if ltb (b.len src) (1 + length)
      then (ok none, src)
      else (let (taken, left) = b.split_to src (1 + length) in
          (found (parse msg_type (skip_header (b.contents taken))), left))

  regular_by_bytes :
      {M : Type 0}
      → (ℕ → List ℕ → Outcome ProtocolError M)
      → b.BytesMut
      → List ℕ
      → Outcome ProtocolError (Option M) × b.BytesMut
  unfolding regular_of
  regular_by_bytes parse src (msg_type ∷ x0 ∷ x1 ∷ x2 ∷ x3 ∷ _) =
      regular_of parse src msg_type (from_be_bytes x0 x1 x2 x3)
  regular_by_bytes parse src _ = (ok none, src)

  -- Fewer than five bytes wait for more.
  unfoldable pub decode_regular :
      {M : Type 0}
      → (ℕ → List ℕ → Outcome ProtocolError M)
      → b.BytesMut
      → Outcome ProtocolError (Option M) × b.BytesMut
  unfolding regular_by_bytes
  decode_regular parse src = regular_by_bytes parse src (b.contents src)

-- Whether the codec still expects a startup, after what it has decoded.
abbrev pub after_message : Bool → FrontendMessage → Bool
after_message startup FrontendMessage.ssl_request = startup
after_message startup FrontendMessage.gss_enc_request = startup
after_message startup (FrontendMessage.cancel_request _ _) = startup
after_message startup _ = false

abbrev pub after_decode : Bool → Outcome ProtocolError (Option FrontendMessage) → Bool
after_decode startup (ok (some m)) = after_message startup m
after_decode startup _ = startup

module _ (c : Chumsky) (b : Buffer) where
  decode_by : Bool → b.BytesMut → Outcome ProtocolError (Option FrontendMessage) × b.BytesMut
  decode_by true src = decode_initial b (parse_initial c) src
  decode_by false src = decode_regular b (parse c) src

  -- `FrontendCodec::decode`, with the flag `startup` before and after.
  unfoldable pub decode :
      Bool → b.BytesMut → Outcome ProtocolError (Option FrontendMessage) × b.BytesMut × Bool
  unfolding decode_by
  decode startup src =
      let (result, left) = decode_by startup src in (result, left, after_decode startup result)

  -- `BackendCodec::decode`.
  unfoldable pub decode_backend :
      b.BytesMut → Outcome ProtocolError (Option BackendMessage) × b.BytesMut
  decode_backend src = decode_regular b (Backend.Parsing.parse c) src
