-- ===== src/Proto/Codec/Frames.antt =====
-- Frames of crates/halephant-core/src/proto/codec.rs, as they arrive.
use halephant.Prelude.{
  ℕ, ◌+◌, ◌/◌, ◌%◌, ◌^◌, ◌≡◌, ◌<◌, ◌≤◌, ◌++◌, ◌∙◌, ap, refl, true, false, List, [], ◌∷◌, none, some,
  ltb, length, length-append, arith,
}
use halephant.Proto.Buffer.{Buffer}
use halephant.Proto.Chumsky.{Outcome, ok, ProtocolError}
use halephant.Proto.Codec.{
  from_be_bytes, found, skip_header, decode_regular, regular_by_bytes, regular_of,
}
use halephant.Proto.Frontend.Layout.{frame}

from_be_bytes-be32 :
    (n : ℕ)
    → n < 2 ^ 32
    → from_be_bytes (n / 16777216 % 256) (n / 65536 % 256) (n / 256 % 256) (n % 256) ≡ n
from_be_bytes-be32 n h = omega arith

module _ (b : Buffer) {M : Type 0} (parse : ℕ → List ℕ → Outcome ProtocolError M) where
  regular_of-frame :
      (src : b.BytesMut) (t : ℕ) (payload rest : List ℕ)
      → b.contents src ≡ frame (some t) payload ++ rest
      → let (result, left) = regular_of b parse src t (4 + length payload) in
        (result ≡ found (parse t payload)) × (b.contents left ≡ rest)
  unfolding regular_of
  regular_of-frame src t payload rest h =
      let n = length payload in
      let short : ltb (4 + n) 4 ≡ false = ground arith in
      let total : b.len src ≡ length (frame (some t) payload ++ rest) =
        b.len-contents src ∙ ap length h in
      let parts : length (frame (some t) payload ++ rest)
          ≡ length (frame (some t) payload) + length rest =
        length-append (frame (some t) payload) rest in
      let whole : 1 + (4 + n) ≡ length (frame (some t) payload) = omega arith in
      let enough : ltb (b.len src) (1 + (4 + n)) ≡ false = ground arith in
      let split = b.contents-split_to src (frame (some t) payload) rest h in
      rw (short, enough, whole) (ap (λ w. found (parse t (skip_header w))) split.0, split.1)

  -- A whole frame, whatever comes behind it, is decoded by its type and its payload, and what comes
  -- behind it stays in the buffer; the length of the frame is below 2 ^ 32.
  pub decode_regular-frame :
      (src : b.BytesMut) (t : ℕ) (payload rest : List ℕ)
      → b.contents src ≡ frame (some t) payload ++ rest
      → 4 + length payload < 2 ^ 32
      → let (result, left) = decode_regular b parse src in
        (result ≡ found (parse t payload)) × (b.contents left ≡ rest)
  unfolding decode_regular regular_by_bytes
  decode_regular-frame src t payload rest h l =
      rw (h, from_be_bytes-be32 (4 + length payload) l) (regular_of-frame src t payload rest h)

  -- The length that the header holds.
  abbrev header_length : List ℕ → ℕ
  header_length (t ∷ x0 ∷ x1 ∷ x2 ∷ x3 ∷ _) = from_be_bytes x0 x1 x2 x3
  header_length _ = 0

  regular_of-waits :
      (src : b.BytesMut) (t n : ℕ)
      → 4 ≤ n
      → b.len src < 1 + n
      → regular_of b parse src t n ≡ (ok none, src)
  unfolding regular_of
  regular_of-waits src t n h k =
      let short : ltb n 4 ≡ false = ground arith in
      let few : ltb (b.len src) (1 + n) ≡ true = ground arith in rw (short, few) refl

  regular_by_bytes-waits :
      (src : b.BytesMut) (bytes missing payload : List ℕ) (t : ℕ)
      → b.len src ≡ length bytes
      → bytes ++ missing ≡ frame (some t) payload
      → 0 < length missing
      → 4 + length payload < 2 ^ 32
      → regular_by_bytes b parse src bytes ≡ (ok none, src)
  unfolding regular_by_bytes
  regular_by_bytes-waits src (u ∷ x0 ∷ x1 ∷ x2 ∷ x3 ∷ bytes) missing payload t e h k l =
      let n : from_be_bytes x0 x1 x2 x3 ≡ 4 + length payload =
        ap header_length h ∙ from_be_bytes-be32 (4 + length payload) l in
      let total = ap length h in
      let parts = length-append bytes missing in
      rw n (regular_of-waits src u (4 + length payload) (omega arith) (omega arith))
  regular_by_bytes-waits src [] missing payload t e h k l = refl
  regular_by_bytes-waits src (_ ∷ []) missing payload t e h k l = refl
  regular_by_bytes-waits src (_ ∷ _ ∷ []) missing payload t e h k l = refl
  regular_by_bytes-waits src (_ ∷ _ ∷ _ ∷ []) missing payload t e h k l = refl
  regular_by_bytes-waits src (_ ∷ _ ∷ _ ∷ _ ∷ []) missing payload t e h k l = refl

  -- As long as a frame is not complete, however much of it has come, nothing is decoded, nothing is
  -- refused and nothing is taken from the buffer; the length of the frame is below 2 ^ 32.
  pub decode_regular-waits :
      (src : b.BytesMut) (missing payload : List ℕ) (t : ℕ)
      → b.contents src ++ missing ≡ frame (some t) payload
      → 0 < length missing
      → 4 + length payload < 2 ^ 32
      → decode_regular b parse src ≡ (ok none, src)
  unfolding decode_regular
  decode_regular-waits src missing payload t h k l =
      regular_by_bytes-waits src (b.contents src) missing payload t (b.len-contents src) h k l
