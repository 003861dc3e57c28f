-- ===== src/Proto/Buffer.antt =====
-- `BytesMut` and `BufMut` of the library bytes, as far as crates/halephant-core/src/proto/ uses them,
-- with their documented effect on the contents, and crates/halephant-core/src/proto/coding.rs.
pub mod Lists
use halephant.Prelude.Utf8.{as_bytes}
use halephant.Prelude.{
  ℕ, ◌+◌, ◌-◌, ◌%◌, ◌^◌, ◌≡◌, ◌++◌, ◌∙◌, ap, refl, sym, List, [], ◌∷◌, Text, length, length-append,
  append_assoc, append-nil, arith,
}
use halephant.Proto.Primitives.Wire.{be16, be32, cstring, each, count_prefixed}

pub record Buffer : Type 1 where
  pub BytesMut : Type 0
  pub contents : BytesMut → List ℕ
  pub len : BytesMut → ℕ
  pub put_u8 : BytesMut → ℕ → BytesMut
  pub put_i16 : BytesMut → ℕ → BytesMut
  pub put_i32 : BytesMut → ℕ → BytesMut
  pub extend_from_slice : BytesMut → List ℕ → BytesMut
  -- `dst[at..at + bytes.len()].copy_from_slice(bytes)`.
  pub overwrite : BytesMut → ℕ → List ℕ → BytesMut
  -- The first `n` bytes, and what is left of the buffer.
  pub split_to : BytesMut → ℕ → BytesMut × BytesMut
  pub len-contents : (b : BytesMut) → len b ≡ length (contents b)
  pub contents-put_u8 : (b : BytesMut) (n : ℕ) → contents (put_u8 b n) ≡ contents b ++ n ∷ []
  pub contents-put_i16 : (b : BytesMut) (n : ℕ) → contents (put_i16 b n) ≡ contents b ++ be16 n
  pub contents-put_i32 : (b : BytesMut) (n : ℕ) → contents (put_i32 b n) ≡ contents b ++ be32 n
  pub contents-extend_from_slice :
      (b : BytesMut) (bytes : List ℕ) → contents (extend_from_slice b bytes) ≡ contents b ++ bytes
  pub contents-overwrite :
      (b : BytesMut) (before old after bytes : List ℕ)
      → contents b ≡ before ++ (old ++ after)
      → length old ≡ length bytes
      → contents (overwrite b (length before) bytes) ≡ before ++ (bytes ++ after)
  pub contents-split_to :
      (b : BytesMut) (frame rest : List ℕ)
      → contents b ≡ frame ++ rest
      → let (taken, left) = split_to b (length frame) in
        (contents taken ≡ frame) × (contents left ≡ rest)

module _ (b : Buffer) where
  -- The length goes into the place that was kept for it.
  unfoldable pub patch_length : b.BytesMut → ℕ → b.BytesMut
  patch_length dst length_pos = b.overwrite dst length_pos (be32 (b.len dst - length_pos))

  unfoldable pub encode_initial : b.BytesMut → (b.BytesMut → b.BytesMut) → b.BytesMut
  unfolding patch_length
  encode_initial dst f = patch_length (f (b.put_i32 dst 0)) (b.len dst)

  unfoldable pub encode_message : b.BytesMut → ℕ → (b.BytesMut → b.BytesMut) → b.BytesMut
  unfolding encode_initial
  encode_message dst msg_type f =
      let typed = b.put_u8 dst msg_type in patch_length (f (b.put_i32 typed 0)) (b.len typed)

  unfoldable pub encode_cstring : b.BytesMut → Text → b.BytesMut
  encode_cstring dst s = b.put_u8 (b.extend_from_slice dst (as_bytes s)) 0

  pub encode_items : {A : Type 0} → List A → (b.BytesMut → A → b.BytesMut) → b.BytesMut → b.BytesMut
  encode_items [] f dst = dst
  encode_items (item ∷ items) f dst = encode_items items f (f dst item)

  unfoldable pub encode_count_prefixed :
      {A : Type 0} → b.BytesMut → List A → (b.BytesMut → A → b.BytesMut) → b.BytesMut
  unfolding encode_items
  encode_count_prefixed dst items f = encode_items items f (b.put_i16 dst (length items))

  -- What a function writes behind the contents.
  abbrev pub Writes : (b.BytesMut → b.BytesMut) → List ℕ → Type 0
  Writes f w = (dst : b.BytesMut) → b.contents (f dst) ≡ b.contents dst ++ w

  pub Writes-then :
      (f g : b.BytesMut → b.BytesMut) (w v : List ℕ)
      → Writes f w
      → Writes g v
      → Writes (λ dst. g (f dst)) (w ++ v)
  Writes-then f g w v h k dst = rw (k (f dst), h dst) (append_assoc (b.contents dst) w v)

  pub Writes-cstring : (s : Text) → Writes (λ dst. encode_cstring dst s) (cstring s)
  unfolding encode_cstring
  Writes-cstring s =
      Writes-then (λ dst. b.extend_from_slice dst (as_bytes s)) (λ dst. b.put_u8 dst 0) (as_bytes s)
        (0 ∷ []) (λ dst. b.contents-extend_from_slice dst (as_bytes s))
        (λ dst. b.contents-put_u8 dst 0)

  pub Writes-items :
      {A : Type 0}
      → (items : List A) (f : b.BytesMut → A → b.BytesMut) (w : A → List ℕ)
      → ((a : A) → Writes (λ dst. f dst a) (w a))
      → Writes (encode_items items f) (each w items)
  unfolding encode_items
  Writes-items [] f w h dst = sym (append-nil (b.contents dst))
  Writes-items (a ∷ items) f w h dst =
      Writes-then (λ dst. f dst a) (encode_items items f) (w a) (each w items) (h a)
        (Writes-items items f w h) dst

  pub Writes-count_prefixed :
      {A : Type 0}
      → (items : List A) (f : b.BytesMut → A → b.BytesMut) (w : A → List ℕ)
      → ((a : A) → Writes (λ dst. f dst a) (w a))
      → Writes (λ dst. encode_count_prefixed dst items f) (count_prefixed w items)
  unfolding encode_count_prefixed
  Writes-count_prefixed items f w h =
      Writes-then (λ dst. b.put_i16 dst (length items)) (encode_items items f) (be16 (length items))
        (each w items) (λ dst. b.contents-put_i16 dst (length items)) (Writes-items items f w h)

  -- The frame of a payload, with its length in front.
  abbrev pub framed : List ℕ → List ℕ
  framed payload = be32 (4 + length payload) ++ payload

  patched :
      (dst : b.BytesMut) (before w : List ℕ)
      → b.contents dst ≡ before ++ (be32 0 ++ w)
      → b.contents (patch_length dst (length before)) ≡ before ++ framed w
  unfolding patch_length
  patched dst before w h =
      let total : b.len dst ≡ length before + length (be32 0 ++ w) =
        b.len-contents dst ∙ (ap length h ∙ length-append before (be32 0 ++ w)) in
      let e : b.len dst - length before ≡ 4 + length w = omega arith in
      b.contents-overwrite dst before (be32 0) w (be32 (b.len dst - length before)) h refl
      ∙ ap (λ n. before ++ (be32 n ++ w)) e

  pub Writes-initial :
      (f : b.BytesMut → b.BytesMut) (w : List ℕ)
      → Writes f w
      → Writes (λ dst. encode_initial dst f) (framed w)
  unfolding encode_initial
  Writes-initial f w h dst =
      let placed : b.contents (f (b.put_i32 dst 0)) ≡ b.contents dst ++ (be32 0 ++ w) =
        h (b.put_i32 dst 0)
        ∙ (ap (λ bytes. bytes ++ w) (b.contents-put_i32 dst 0)
            ∙ append_assoc (b.contents dst) (be32 0) w) in
      rw (b.len-contents dst) (patched (f (b.put_i32 dst 0)) (b.contents dst) w placed)

  pub Writes-message :
      (t : ℕ) (f : b.BytesMut → b.BytesMut) (w : List ℕ)
      → Writes f w
      → Writes (λ dst. encode_message dst t f) (t ∷ framed w)
  unfolding encode_message
  Writes-message t f w h dst =
      Writes-initial f w h (b.put_u8 dst t)
      ∙ (ap (λ bytes. bytes ++ framed w) (b.contents-put_u8 dst t)
          ∙ append_assoc (b.contents dst) (t ∷ []) (framed w))
