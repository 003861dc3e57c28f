-- ===== src/Proto/Frontend/Opening.antt =====
-- The messages of crates/halephant-core/src/proto/frontend.rs that open a connection.
use halephant.Prelude.{
  ℕ, ◌+◌, ◌^◌, ◌≡◌, ◌<◌, ◌++◌, refl, sym, ap, ◌∙◌, subst, List, [], ◌∷◌, none, some, Text, length,
  length-append, All, All-map, arith,
}
use halephant.Prelude.Utf8.{as_bytes}
use halephant.Proto.Chumsky.{ok, Chumsky}
use halephant.Proto.Frontend.Layout.{pair_layout, payload, frame}
use halephant.Proto.Frontend.Parsing.{
  protocol_v3, ssl_request_code, cancel_request_code, gss_enc_request_code, parameter_after,
  parameter, startup_body, cancel_request, initial_by, initial_parser, parse_initial,
}
use halephant.Proto.Frontend.RoundTrip.{Takes-run}
use halephant.Proto.Frontend.{Startup, FrontendMessage}
use halephant.Proto.Primitives.Loop.{loop_all, Takes-loop_all}
use halephant.Proto.Primitives.Takes.{Takes-custom, Takes-int32, Takes-cstring}
use halephant.Proto.Primitives.Wire.{
  be32, IsCString, cstring, each, Takes, Takes-done, Takes-bind, Takes-then,
}
use halephant.Proto.Primitives.{pg_int32, pg_cstring}

-- A key that is not empty, and its value.
abbrev pub IsParameter : Text × Text → Type 0
IsParameter (key, value) = (0 < length key) × IsCString key × IsCString value

-- What the fields of an opening message must be. The parser knows the version 3.0 alone.
abbrev pub IsOpening : FrontendMessage → Type 0
IsOpening (FrontendMessage.startup s) =
    (s.version ≡ record { major = 3; minor = 0 }) × All IsParameter s.parameters
IsOpening FrontendMessage.ssl_request = Unit
IsOpening FrontendMessage.gss_enc_request = Unit
IsOpening (FrontendMessage.cancel_request process_id secret_key) =
    (process_id < 2 ^ 32) × (secret_key < 2 ^ 32)
IsOpening _ = ⊥

-- The payload behind its code.
abbrev body : FrontendMessage → List ℕ
body (FrontendMessage.startup s) = each pair_layout s.parameters ++ 0 ∷ []
body (FrontendMessage.cancel_request process_id secret_key) = be32 process_id ++ be32 secret_key
body _ = []

abbrev code_of : FrontendMessage → ℕ
code_of (FrontendMessage.startup s) = protocol_v3
code_of (FrontendMessage.cancel_request _ _) = cancel_request_code
code_of FrontendMessage.ssl_request = ssl_request_code
code_of _ = gss_enc_request_code

module _ (c : Chumsky) where
  Takes-after :
      (key value : Text)
      → IsParameter (key, value)
      → Takes (parameter_after c key) (cstring value) (some (key, value))
  unfolding parameter_after
  Takes-after [] value h = absurd (omega arith)
  Takes-after (k ∷ ks) value h =
      Takes-then (λ i. c.go (pg_cstring c) i) (λ v. some (k ∷ ks, v)) (cstring value) value
        (Takes-cstring c value h.2)

  Takes-parameter : (p : Text × Text) → IsParameter p → Takes (parameter c) (pair_layout p) (some p)
  unfolding parameter
  Takes-parameter (key, value) h =
      Takes-bind (λ i. c.go (pg_cstring c) i) (parameter_after c) (cstring key) (cstring value) key
        (some (key, value)) (Takes-cstring c key h.1) (Takes-after key value h)

  Takes-ending : Takes (parameter c) (0 ∷ []) none
  unfolding parameter parameter_after as_bytes
  Takes-ending =
      Takes-bind (λ i. c.go (pg_cstring c) i) (parameter_after c) (0 ∷ []) [] [] none
        (Takes-cstring c [] (tt, tt)) (Takes-done none)

  pair-nonempty : (p : Text × Text) → 0 < length (pair_layout p)
  pair-nonempty (key, value) =
      rw (length-append (cstring key) (cstring value), length-append (as_bytes key) (0 ∷ []))
        (omega arith)

  Takes-startup :
      (s : Startup)
      → IsOpening (FrontendMessage.startup s)
      → Takes (startup_body c) (body (FrontendMessage.startup s)) (FrontendMessage.startup s)
  unfolding startup_body
  Takes-startup s h at tail =
      Takes-then (loop_all (parameter c))
        (λ ps.
          FrontendMessage.startup
            (record { version = record { major = 3; minor = 0 }; parameters = ps }))
        (body (FrontendMessage.startup s)) s.parameters
        (Takes-loop_all (parameter c) pair_layout (0 ∷ []) s.parameters pair-nonempty
          (All-map Takes-parameter s.parameters h.1) Takes-ending)
        at tail
      ∙ ap
          (λ v. ok (
            FrontendMessage.startup (record { version = v; parameters = s.parameters }),
            record { at = at + length (body (FrontendMessage.startup s)); left = tail },
          ))
          (sym h.0)

  Takes-cancel :
      (process_id secret_key : ℕ)
      → IsOpening (FrontendMessage.cancel_request process_id secret_key)
      → Takes
          (cancel_request c)
          (be32 process_id ++ be32 secret_key)
          (FrontendMessage.cancel_request process_id secret_key)
  unfolding cancel_request
  Takes-cancel process_id secret_key h =
      Takes-bind (λ i. c.go (pg_int32 c) i) _ (be32 process_id) (be32 secret_key) process_id _
        (Takes-int32 c process_id h.0)
        (Takes-then (λ i. c.go (pg_int32 c) i) (FrontendMessage.cancel_request process_id)
          (be32 secret_key) secret_key (Takes-int32 c secret_key h.1))

  Takes-body : (m : FrontendMessage) → IsOpening m → Takes (initial_by c (code_of m)) (body m) m
  unfolding initial_by
  Takes-body (FrontendMessage.startup s) h = Takes-startup s h
  Takes-body FrontendMessage.ssl_request h = Takes-done FrontendMessage.ssl_request
  Takes-body FrontendMessage.gss_enc_request h = Takes-done FrontendMessage.gss_enc_request
  Takes-body (FrontendMessage.cancel_request process_id secret_key) h =
      Takes-cancel process_id secret_key h
  Takes-body _ h = absurd h

  code-less : (m : FrontendMessage) → code_of m < 2 ^ 32
  code-less (FrontendMessage.startup _) = omega arith
  code-less FrontendMessage.ssl_request = omega arith
  code-less (FrontendMessage.cancel_request _ _) = omega arith
  code-less _ = omega arith

  payload-parts : (m : FrontendMessage) → IsOpening m → payload m ≡ be32 (code_of m) ++ body m
  payload-parts (FrontendMessage.startup s) h = rw h.0 refl
  payload-parts FrontendMessage.ssl_request h = refl
  payload-parts FrontendMessage.gss_enc_request h = refl
  payload-parts (FrontendMessage.cancel_request _ _) h = refl
  payload-parts _ h = absurd h

  Takes-opening :
      (m : FrontendMessage) (n : ℕ)
      → IsOpening m
      → n < 2 ^ 32
      → Takes (c.go (initial_parser c)) (be32 n ++ (be32 (code_of m) ++ body m)) m
  unfolding initial_parser
  Takes-opening m n h l = Takes-custom c _ (be32 n ++ (be32 (code_of m) ++ body m)) m (
      Takes-bind (λ i. c.go (pg_int32 c) i) _ (be32 n) (be32 (code_of m) ++ body m) n m
        (Takes-int32 c n l)
        (Takes-bind (λ i. c.go (pg_int32 c) i) (initial_by c) (be32 (code_of m)) (body m)
          (code_of m) m (Takes-int32 c (code_of m) (code-less m)) (Takes-body m h)))

  -- `parse_initial` reads back an opening message from its whole frame, if a startup has the version
  -- 3.0, only parameters with a name, and texts of Unicode without the character 0, if numbers are
  -- below 2 ^ 32, and so is the length of the frame.
  pub parse_initial-frame :
      (m : FrontendMessage)
      → IsOpening m
      → 4 + length (payload m) < 2 ^ 32
      → parse_initial c (frame none (payload m)) ≡ ok m
  unfolding parse_initial
  parse_initial-frame m h l =
      let n = 4 + length (payload m) in
      Takes-run c (initial_parser c) (be32 n ++ payload m) m (
        subst (λ w. Takes (c.go (initial_parser c)) (be32 n ++ w) m) (sym (payload-parts m h))
          (Takes-opening m n h l))
