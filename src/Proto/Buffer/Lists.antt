-- ===== src/Proto/Buffer/Lists.antt =====
-- A buffer that is a list of bytes: the operations of Buffer can be had.
use halephant.Prelude.{ℕ, zero, suc, ◌≡◌, ◌++◌, ap, refl, sym, List, [], ◌∷◌, length}
use halephant.Proto.Buffer.{Buffer}
use halephant.Proto.Primitives.Wire.{be16, be32}

abbrev pub take : ℕ → List ℕ → List ℕ
take zero xs = []
take (suc n) [] = []
take (suc n) (x ∷ xs) = x ∷ take n xs

abbrev pub drop : ℕ → List ℕ → List ℕ
drop zero xs = xs
drop (suc n) [] = []
drop (suc n) (x ∷ xs) = drop n xs

pub take-length : (xs ys : List ℕ) → take (length xs) (xs ++ ys) ≡ xs
take-length [] ys = refl
take-length (x ∷ xs) ys = ap (λ zs. x ∷ zs) (take-length xs ys)

pub drop-length : (xs ys : List ℕ) → drop (length xs) (xs ++ ys) ≡ ys
drop-length [] ys = refl
drop-length (x ∷ xs) ys = drop-length xs ys

abbrev pub put_over : List ℕ → ℕ → List ℕ → List ℕ
put_over xs at bytes = take at xs ++ (bytes ++ drop (length bytes) (drop at xs))

pub put_over-middle :
    (xs before old after bytes : List ℕ)
    → xs ≡ before ++ (old ++ after)
    → length old ≡ length bytes
    → put_over xs (length before) bytes ≡ before ++ (bytes ++ after)
put_over-middle xs before old after bytes h e =
    rw
      (
        h,
        take-length before (old ++ after),
        drop-length before (old ++ after),
        sym e,
        drop-length old after,
      )
      refl

pub split-parts :
    (xs frame rest : List ℕ)
    → xs ≡ frame ++ rest
    → (take (length frame) xs ≡ frame) × (drop (length frame) xs ≡ rest)
split-parts xs frame rest h = rw h (take-length frame rest, drop-length frame rest)

abbrev pub on_lists : Buffer
on_lists = record {
  BytesMut = List ℕ;
  contents = λ b. b;
  len = length;
  put_u8 = λ b n. b ++ n ∷ [];
  put_i16 = λ b n. b ++ be16 n;
  put_i32 = λ b n. b ++ be32 n;
  extend_from_slice = λ b bytes. b ++ bytes;
  overwrite = put_over;
  split_to = λ b n. (take n b, drop n b);
  len-contents = λ b. refl;
  contents-put_u8 = λ b n. refl;
  contents-put_i16 = λ b n. refl;
  contents-put_i32 = λ b n. refl;
  contents-extend_from_slice = λ b bytes. refl;
  contents-overwrite = put_over-middle;
  contents-split_to = split-parts;
}
