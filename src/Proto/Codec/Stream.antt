-- ===== src/Proto/Codec/Stream.antt =====
-- From `encode` to `decode` of crates/halephant-core/src/proto/.
use halephant.Prelude.{
  ℕ, ◌+◌, ◌^◌, ◌≡◌, ◌<◌, ◌≤◌, ◌++◌, ◌∙◌, ap, refl, sym, false, List, [], some, Text, ltb, length,
  append-nil, arith,
}
use halephant.Proto.Backend
use halephant.Proto.Backend.{BackendMessage}
use halephant.Proto.Buffer.{Buffer}
use halephant.Proto.Chumsky.{ok, panicked, bind, Input, Chumsky, run-panics}
use halephant.Proto.Codec.{
  found, decode_regular, decode_by, decode, decode_backend, after_decode, after_message,
}
use halephant.Proto.Codec.Frames.{decode_regular-frame}
use halephant.Proto.Frontend.Encoding.{encode}
use halephant.Proto.Frontend.Layout.{type_byte, payload, frame, wire, encode-wire}
use halephant.Proto.Frontend.Parsing.{parse, parse_parser}
use halephant.Proto.Frontend.RoundTrip.{IsWire, parse-payload}
use halephant.Proto.Frontend.{FrontendMessage}
use halephant.Proto.Primitives.Takes.{Takes-cstring, Takes-int16}
use halephant.Proto.Primitives.Wire.{be16, IsCString, cstring}
use halephant.Proto.Primitives.{pg_int16, pg_int32, counted, pg_count_prefixed}

after-typed : (m : FrontendMessage) (t : ℕ) → type_byte m ≡ some t → after_message false m ≡ false
after-typed (FrontendMessage.startup _) t e = refl
after-typed FrontendMessage.ssl_request t e = refl
after-typed FrontendMessage.gss_enc_request t e = refl
after-typed (FrontendMessage.cancel_request _ _) t e = refl
after-typed _ t e = refl

module _ (c : Chumsky) (b : Buffer) where
  -- Past the startup, `decode` takes one message of the stream, reads it back as it was, and leaves
  -- what comes behind it, if the message is one with a type, its frame is shorter than 2 ^ 32, every
  -- text is Unicode without the character 0, every count is below 2 ^ 15, every value shorter than
  -- 2 ^ 31 bytes and every number below 2 ^ 32.
  pub decode-wire :
      (m : FrontendMessage) (t : ℕ) (src : b.BytesMut) (rest : List ℕ)
      → type_byte m ≡ some t
      → IsWire c m
      → 4 + length (payload m) < 2 ^ 32
      → b.contents src ≡ wire m ++ rest
      → let (result, left, startup) = decode c b false src in
        (result ≡ ok (some m)) × (b.contents left ≡ rest) × (startup ≡ false)
  unfolding decode decode_by
  decode-wire m t src rest e h l k =
      let framed : b.contents src ≡ frame (some t) (payload m) ++ rest =
        k ∙ ap (λ o. frame o (payload m) ++ rest) e in
      let step = decode_regular-frame b (parse c) src t (payload m) rest framed l in
      let read : (decode_regular b (parse c) src).0 ≡ ok (some m) =
        step.0 ∙ ap found (parse-payload c m t e h) in
      (read, step.1, ap (after_decode false) read ∙ after-typed m t e)

  -- What one side encodes into an empty buffer, the other side decodes: the same message, and nothing
  -- is left.
  pub decode-encode :
      (m : FrontendMessage) (t : ℕ) (dst : b.BytesMut)
      → type_byte m ≡ some t
      → IsWire c m
      → 4 + length (payload m) < 2 ^ 32
      → b.contents dst ≡ []
      → let (result, left, startup) = decode c b false (encode b m dst) in
        (result ≡ ok (some m)) × (b.contents left ≡ []) × (startup ≡ false)
  decode-encode m t dst e h l k =
      decode-wire m t (encode b m dst) [] e h l
        (encode-wire b m dst ∙ (ap (λ w. w ++ wire m) k ∙ sym (append-nil (wire m))))

  -- What `encode` writes of a server's message into an empty buffer is decoded: the same message, and
  -- nothing is left, if its frame is shorter than 2 ^ 32, every text is Unicode without the character
  -- 0, every count is below 2 ^ 15, every value shorter than 2 ^ 31 bytes, every number as small as its
  -- field is wide, no tag of a notice is 0, and no authentication mechanism is empty.
  pub decode_backend-encode :
      (m : BackendMessage) (dst : b.BytesMut)
      → Backend.RoundTrip.IsWire c m
      → 4 + length (Backend.Layout.payload m) < 2 ^ 32
      → b.contents dst ≡ []
      → let (result, left) = decode_backend c b (Backend.Encoding.encode b m dst) in
        (result ≡ ok (some m)) × (b.contents left ≡ [])
  unfolding decode_backend
  decode_backend-encode m dst h l k =
      let bytes = Backend.Layout.wire m in
      let framed : b.contents (Backend.Encoding.encode b m dst) ≡ bytes ++ [] =
        Backend.Layout.encode-backend_wire b m dst
        ∙ (ap (λ w. w ++ bytes) k ∙ sym (append-nil bytes)) in
      let step =
        decode_regular-frame b (Backend.Parsing.parse c) (Backend.Encoding.encode b m dst)
          (Backend.Layout.type_byte m) (Backend.Layout.payload m) [] framed l in
      (step.0 ∙ ap found (Backend.RoundTrip.parse-backend_payload c m h), step.1)

counted-panics :
    (c : Chumsky)
    → {A : Type 0} → (item : c.Parser A) (n : ℕ) (i : Input) → 2 ^ 15 ≤ n
    → counted c item n i ≡ panicked
unfolding counted
counted-panics c item n i h = let e : ltb n (2 ^ 15) ≡ false = ground arith in rw e refl

-- A count of items that is negative makes the parser panic, before an item is read.
pub pg_count_prefixed-panics :
    (c : Chumsky)
    → {A : Type 0} → (item : c.Parser A) (n at : ℕ) (tail : List ℕ) → 2 ^ 15 ≤ n
    → n < 2 ^ 16
    → c.go (pg_count_prefixed c item) (record { at = at; left = be16 n ++ tail }) ≡ panicked
unfolding pg_count_prefixed
pg_count_prefixed-panics c item n at tail h k =
    rw
      (
        c.go-custom (λ i. bind (c.go (pg_int16 c) i) (λ r. counted c item r.0 r.1))
            (record { at = at; left = be16 n ++ tail }),
        Takes-int16 c n k at tail,
      )
      (counted-panics c item n _ h)

parse_parser-panics :
    (c : Chumsky) (name query : Text) (n : ℕ) (tail : List ℕ)
    → IsCString name
    → IsCString query
    → 2 ^ 15 ≤ n
    → n < 2 ^ 16
    → c.go
        (parse_parser c)
        (record { at = 0; left = cstring name ++ (cstring query ++ (be16 n ++ tail)) })
      ≡ panicked
unfolding parse_parser
parse_parser-panics c name query n tail h k l m =
    rw
      (
        c.go-custom _
            (record { at = 0; left = cstring name ++ (cstring query ++ (be16 n ++ tail)) }),
        Takes-cstring c name h 0 (cstring query ++ (be16 n ++ tail)),
        Takes-cstring c query k (0 + length (cstring name)) (be16 n ++ tail),
        pg_count_prefixed-panics c (pg_int32 c) n
            (0 + length (cstring name) + length (cstring query)) tail l m,
      )
      refl

-- `parse` panics on a `Parse` whose count of parameter types is negative, whatever follows the count,
-- if its name and its query are Unicode without the character 0.
pub parse-panics :
    (c : Chumsky) (name query : Text) (n : ℕ) (tail : List ℕ)
    → IsCString name
    → IsCString query
    → 2 ^ 15 ≤ n
    → n < 2 ^ 16
    → parse c b'P' (cstring name ++ (cstring query ++ (be16 n ++ tail))) ≡ panicked
unfolding parse
parse-panics c name query n tail h k l m =
    run-panics c (parse_parser c) (cstring name ++ (cstring query ++ (be16 n ++ tail)))
      (parse_parser-panics c name query n tail h k l m)
