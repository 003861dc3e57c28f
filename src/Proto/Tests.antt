-- ===== src/Proto/Tests.antt =====
-- Tests of the wire format on lists of bytes.
use halephant.Prelude.{
  ◌+◌, ◌^◌, ◌≡◌, ◌<◌, ◌++◌, refl, false, [], ◌∷◌, some, none, inl, length, arith, codes,
}
use halephant.Prelude.Utf8.{as_bytes, encode_char}
use halephant.Proto.Backend
use halephant.Proto.Backend.Layout.{encode-backend_wire}
use halephant.Proto.Backend.{BackendMessage}
use halephant.Proto.Buffer.{Buffer}
use halephant.Proto.Buffer.Lists as Arrays
use halephant.Proto.Chumsky.{Chumsky, ok, panicked}
use halephant.Proto.Chumsky.Lists
use halephant.Proto.Codec.{decode, decode_regular, decode_backend}
use halephant.Proto.Codec.Frames.{decode_regular-waits}
use halephant.Proto.Codec.Stream.{decode-wire, decode_backend-encode, parse-panics}
use halephant.Proto.Frontend.Encoding.{encode}
use halephant.Proto.Frontend.Layout.{payload, frame, wire, encode-wire}
use halephant.Proto.Frontend.Opening.{parse_initial-frame}
use halephant.Proto.Frontend.Ends.{loop_all-parameter}
use halephant.Proto.Frontend.Parsing.{parameter, parse, parse_initial}
use halephant.Proto.Primitives.Loop.{loop, loop_all}
use halephant.Proto.Frontend.{FrontendMessage}
use halephant.Proto.Primitives.Wire.{be16, cstring}

abbrev bytes : Buffer
bytes = Arrays.on_lists

abbrev chars : Chumsky
chars = Lists.on_lists

abbrev hi : FrontendMessage
hi = FrontendMessage.query (codes "hi")

encode-wire_example : encode bytes hi (7 ∷ []) ≡ 7 ∷ wire hi
encode-wire_example = encode-wire bytes hi (7 ∷ [])

abbrev row : BackendMessage
row = BackendMessage.data_row (some (1 ∷ 2 ∷ []) ∷ none ∷ [])

encode-backend_wire_example :
    Backend.Encoding.encode bytes row (7 ∷ []) ≡ 7 ∷ Backend.Layout.wire row
encode-backend_wire_example = encode-backend_wire bytes row (7 ∷ [])

abbrev opening : FrontendMessage
opening =
    FrontendMessage.startup (record {
      version = record { major = 3; minor = 0 };
      parameters = (codes "u", codes "a") ∷ [];
    })

opening_bounded : 4 + length (payload opening) < 2 ^ 32
unfolding as_bytes encode_char
opening_bounded = omega arith

parse_initial-frame_example : parse_initial chars (frame none (payload opening)) ≡ ok opening
parse_initial-frame_example =
    parse_initial-frame chars opening
      (
        refl,
        (
          (
            omega arith,
            ((inl (omega arith), tt), (refl, tt)),
            ((inl (omega arith), tt), (refl, tt)),
          ),
          tt,
        ),
      )
      opening_bounded

decode_regular-waits_example :
    decode_regular bytes (parse chars) (b'Q' ∷ 0 ∷ 0 ∷ 0 ∷ 7 ∷ 104 ∷ [])
    ≡ (ok none, b'Q' ∷ 0 ∷ 0 ∷ 0 ∷ 7 ∷ 104 ∷ [])
decode_regular-waits_example =
    decode_regular-waits bytes (parse chars) (b'Q' ∷ 0 ∷ 0 ∷ 0 ∷ 7 ∷ 104 ∷ []) (105 ∷ 0 ∷ [])
      (104 ∷ 105 ∷ 0 ∷ []) b'Q' refl (omega arith) (omega arith)

hi_bounded : 4 + length (payload hi) < 2 ^ 32
unfolding as_bytes encode_char
hi_bounded = omega arith

-- Two messages in the buffer: the first is read.
decode-wire_example :
    let (result, left, startup) = decode chars bytes false (wire hi ++ wire FrontendMessage.sync) in
    (result ≡ ok (some hi)) × (left ≡ wire FrontendMessage.sync) × (startup ≡ false)
decode-wire_example =
    decode-wire chars bytes hi b'Q' (wire hi ++ wire FrontendMessage.sync)
      (wire FrontendMessage.sync) refl
      ((inl (omega arith), (inl (omega arith), tt)), (refl, (refl, tt))) hi_bounded refl

decode_backend-encode_example :
    let (result, left) = decode_backend chars bytes (Backend.Encoding.encode bytes row []) in
    (result ≡ ok (some row)) × (left ≡ [])
decode_backend-encode_example =
    decode_backend-encode chars bytes row [] (omega arith, (omega arith, (tt, tt))) (omega arith)
      refl

parse-panics_example :
    parse chars b'P' (cstring [] ++ (cstring (codes "q") ++ (be16 65535 ++ []))) ≡ panicked
parse-panics_example =
    parse-panics chars [] (codes "q") 65535 [] (tt, tt) ((inl (omega arith), tt), (refl, tt))
      (omega arith) (omega arith)

-- A parameter without a value.
loop_all-parameter_example :
    (¬ (loop (parameter chars) 9 (record { at = 0; left = 97 ∷ 0 ∷ [] }) ≡ panicked))
    × (loop (parameter chars) 9 (record { at = 0; left = 97 ∷ 0 ∷ [] })
        ≡ loop_all (parameter chars) (record { at = 0; left = 97 ∷ 0 ∷ [] }))
loop_all-parameter_example =
    loop_all-parameter chars 9 (record { at = 0; left = 97 ∷ 0 ∷ [] }) (omega arith)
