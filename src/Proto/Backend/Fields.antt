-- ===== src/Proto/Backend/Fields.antt =====
-- That the parsers of crates/halephant-core/src/proto/backend.rs take the wire form of their values.
use halephant.Prelude.Utf8.{as_bytes}
use halephant.Prelude.{
  ℕ, suc, ◌+◌, ◌^◌, ◌≡◌, ◌<◌, ◌==◌, ◌++◌, ◌∙◌, ap, refl, false, List, [], ◌∷◌, none, some, Text,
  length, length-append, All, All-map, arith,
}
use halephant.Proto.Backend.Encoding.{status_byte}
use halephant.Proto.Backend.Layout.{field_layout, tagged_layout, notice_layout, copy_layout}
use halephant.Proto.Backend.Parsing.{
  mechanism_or_end, mechanism, field_description, status_of, notice_after, notice_field,
  notice_fields, overall_format, copy_response,
}
use halephant.Proto.Backend.{FieldDescription, CopyResponse, NoticeFields}
use halephant.Proto.Chumsky.{ok, Chumsky}
use halephant.Proto.Frontend.RoundTrip.{Takes-formats}
use halephant.Proto.Primitives.Loop.{loop_all, Takes-loop_all}
use halephant.Proto.Primitives.Takes.{
  Takes-any, Takes-mapped, Takes-and_then, Takes-custom, Takes-int16, Takes-int32, Takes-cstring,
  Takes-format_code,
}
use halephant.Proto.Primitives.Wire.{
  be16, be32, IsCString, cstring, each, count_prefixed, code, Takes, Takes-done, Takes-bind,
  Takes-then,
}
use halephant.Proto.Primitives.{pg_int16, pg_int32, pg_cstring, pg_count_prefixed, pg_format_code}
use halephant.Proto.Types.{FormatCode, TransactionStatus}

abbrev pub IsField : FieldDescription → Type 0
IsField f =
    IsCString f.name
    × (f.table_oid < 2 ^ 32)
    × (f.column_id < 2 ^ 16)
    × (f.type_oid < 2 ^ 32)
    × (f.type_size < 2 ^ 16)
    × (f.type_modifier < 2 ^ 32)

-- The tag 0 ends the list.
abbrev pub IsTagged : ℕ × Text → Type 0
IsTagged (tag, value) = ((tag == 0) ≡ false) × IsCString value

-- The empty name ends the list.
abbrev pub IsMechanism : Text → Type 0
IsMechanism mech = (0 < length mech) × IsCString mech

module _ (c : Chumsky) where
  pub Takes-field :
      (f : FieldDescription) → IsField f → Takes (c.go (field_description c)) (field_layout f) f
  unfolding field_description
  Takes-field f h =
      let v5 = be32 f.type_modifier ++ be16 (code f.format) in
      let v4 = be16 f.type_size ++ v5 in
      let v3 = be32 f.type_oid ++ v4 in
      let v2 = be16 f.column_id ++ v3 in
      let v1 = be32 f.table_oid ++ v2 in
      Takes-custom c _ (field_layout f) f (
        Takes-bind (λ i. c.go (pg_cstring c) i) _ (cstring f.name) v1 f.name f
          (Takes-cstring c f.name h.0)
          (Takes-bind (λ i. c.go (pg_int32 c) i) _ (be32 f.table_oid) v2 f.table_oid f
            (Takes-int32 c f.table_oid h.1)
            (Takes-bind (λ i. c.go (pg_int16 c) i) _ (be16 f.column_id) v3 f.column_id f
              (Takes-int16 c f.column_id h.2)
              (Takes-bind (λ i. c.go (pg_int32 c) i) _ (be32 f.type_oid) v4 f.type_oid f
                (Takes-int32 c f.type_oid h.3)
                (Takes-bind (λ i. c.go (pg_int16 c) i) _ (be16 f.type_size) v5 f.type_size f
                  (Takes-int16 c f.type_size h.4)
                  (Takes-bind (λ i. c.go (pg_int32 c) i) _ (be32 f.type_modifier)
                    (be16 (code f.format)) f.type_modifier f (Takes-int32 c f.type_modifier h.5)
                    (Takes-then (λ i. c.go (pg_format_code c) i)
                      (λ format. record f { format = format }) (be16 (code f.format)) f.format
                      (Takes-format_code c f.format))))))))

  pub Takes-status :
      (s : TransactionStatus) → Takes (c.go (c.try_map (status_of c) c.any)) (status_byte s ∷ []) s
  unfolding status_of
  Takes-status TransactionStatus.idle at tail =
      rw
        (
          c.go-try_map (status_of c) c.any (record { at = at; left = b'I' ∷ tail }),
          Takes-any c b'I' at tail,
        )
        refl
  Takes-status TransactionStatus.in_transaction at tail =
      rw
        (
          c.go-try_map (status_of c) c.any (record { at = at; left = b'T' ∷ tail }),
          Takes-any c b'T' at tail,
        )
        refl
  Takes-status TransactionStatus.failed at tail =
      rw
        (
          c.go-try_map (status_of c) c.any (record { at = at; left = b'E' ∷ tail }),
          Takes-any c b'E' at tail,
        )
        refl

  Takes-overall :
      (f : FormatCode) → Takes (c.go (c.try_map (overall_format c) c.any)) (code f ∷ []) f
  unfolding overall_format
  Takes-overall FormatCode.text at tail =
      rw
        (
          c.go-try_map (overall_format c) c.any (record { at = at; left = 0 ∷ tail }),
          Takes-any c 0 at tail,
        )
        refl
  Takes-overall FormatCode.binary at tail =
      rw
        (
          c.go-try_map (overall_format c) c.any (record { at = at; left = 1 ∷ tail }),
          Takes-any c 1 at tail,
        )
        refl

  pub Takes-copy :
      (cr : CopyResponse)
      → length cr.column_formats < 2 ^ 15
      → Takes (c.go (copy_response c)) (copy_layout cr) cr
  unfolding copy_response
  Takes-copy cr l =
      Takes-mapped c (λ r. record { format = r.0; column_formats = r.1 })
        (c.and_then (c.try_map (overall_format c) c.any) (pg_count_prefixed c (pg_format_code c)))
        (copy_layout cr) (cr.format, cr.column_formats)
        (Takes-and_then c (c.try_map (overall_format c) c.any)
          (pg_count_prefixed c (pg_format_code c)) (code cr.format ∷ [])
          (count_prefixed (λ f. be16 (code f)) cr.column_formats) cr.format cr.column_formats
          (Takes-overall cr.format) (Takes-formats c cr.column_formats l))

  Takes-after :
      (tag : ℕ) (value : Text)
      → IsTagged (tag, value)
      → Takes (notice_after c tag) (cstring value) (some (tag, value))
  unfolding notice_after
  Takes-after tag value h = rw h.0 (
      Takes-then (λ i. c.go (pg_cstring c) i) (λ v. some (tag, v)) (cstring value) value
        (Takes-cstring c value h.1))

  Takes-tagged : (f : ℕ × Text) → IsTagged f → Takes (notice_field c) (tagged_layout f) (some f)
  unfolding notice_field
  Takes-tagged (tag, value) h =
      Takes-bind (λ i. c.go c.any i) (notice_after c) (tag ∷ []) (cstring value) tag
        (some (tag, value)) (Takes-any c tag) (Takes-after tag value h)

  Takes-no_tag : Takes (notice_field c) (0 ∷ []) none
  unfolding notice_field notice_after
  Takes-no_tag =
      Takes-bind (λ i. c.go c.any i) (notice_after c) (0 ∷ []) [] 0 none (Takes-any c 0)
        (Takes-done none)

  tagged-nonempty : (f : ℕ × Text) → 0 < length (tagged_layout f)
  tagged-nonempty (tag, value) = omega arith

  pub Takes-notice :
      (n : NoticeFields)
      → All IsTagged n.fields
      → Takes (c.go (notice_fields c)) (notice_layout n) n
  unfolding notice_fields
  Takes-notice n h = Takes-custom c _ (notice_layout n) n (
      Takes-then (loop_all (notice_field c)) (λ fs. record { fields = fs }) (notice_layout n)
        n.fields
        (Takes-loop_all (notice_field c) tagged_layout (0 ∷ []) n.fields tagged-nonempty
          (All-map Takes-tagged n.fields h) Takes-no_tag))

  some-mechanism : (mech : Text) → 0 < length mech → mechanism_or_end c mech ≡ some mech
  unfolding mechanism_or_end
  some-mechanism [] h = absurd (omega arith)
  some-mechanism (_ ∷ _) h = refl

  Takes-mechanism :
      (mech : Text) → IsMechanism mech → Takes (mechanism c) (cstring mech) (some mech)
  unfolding mechanism
  Takes-mechanism mech h at tail =
      Takes-then (λ i. c.go (pg_cstring c) i) (mechanism_or_end c) (cstring mech) mech
        (Takes-cstring c mech h.1) at tail
      ∙ ap (λ o. ok (o, record { at = at + length (cstring mech); left = tail }))
          (some-mechanism mech h.0)

  Takes-no_mechanism : Takes (mechanism c) (0 ∷ []) none
  unfolding mechanism mechanism_or_end as_bytes
  Takes-no_mechanism =
      Takes-then (λ i. c.go (pg_cstring c) i) (mechanism_or_end c) (0 ∷ []) []
        (Takes-cstring c [] (tt, tt))

  mechanism-nonempty : (mech : Text) → 0 < length (cstring mech)
  mechanism-nonempty mech = rw (length-append (as_bytes mech) (0 ∷ [])) (omega arith)

  pub Takes-mechanisms :
      (ms : List Text)
      → All IsMechanism ms
      → Takes (loop_all (mechanism c)) (each cstring ms ++ 0 ∷ []) ms
  Takes-mechanisms ms h =
      Takes-loop_all (mechanism c) cstring (0 ∷ []) ms mechanism-nonempty
        (All-map Takes-mechanism ms h) Takes-no_mechanism

  -- The rest of the input, to its end.
  pub go-rest :
      (bytes : List ℕ) (at : ℕ)
      → c.go (c.repeated c.any) (record { at = at; left = bytes })
        ≡ ok (bytes, record { at = at + length bytes; left = [] })
  go-rest [] at =
      let e : at ≡ at + 0 = omega arith in
      c.go-repeated-stop c.any (record { at = at; left = [] }) _
        (c.go-any (record { at = at; left = [] }))
      ∙ ap (λ n. ok ([], record { at = n; left = [] })) e
  go-rest (b ∷ bytes) at =
      let e : at + 1 + length bytes ≡ at + suc (length bytes) = omega arith in
      rw
        (
          c.go-repeated-more c.any (record { at = at; left = b ∷ bytes })
              (record { at = at + 1; left = bytes }) b
              (c.go-any (record { at = at; left = b ∷ bytes })) (omega arith),
          go-rest bytes (at + 1),
          e,
        )
        refl
