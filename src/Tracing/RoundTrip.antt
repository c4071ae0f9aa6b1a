-- ===== src/Tracing/RoundTrip.antt =====
-- The header that is written is read back, and what is read is valid.
use realtime_chat.Common.{
  ℕ, suc, ◌≡◌, refl, ap, ◌∙◌, Bool, true, false, some, List, [], ◌∷◌, ◌++◌, arith, Bytes, codes,
}
use realtime_chat.Tracing.{
  SpanContext, is_valid, is_hex_digit, is_lower_hex, parse_hex_byte, before_dash, after_dash,
  split_fields, with_flags, is_valid_ids, parse_fields, parse_traceparent, flags_of,
  format_traceparent,
}

before_dash-hex : (s r : Bytes) → is_lower_hex s ≡ true → before_dash (s ++ (b'-' ∷ r)) ≡ s
unfolding before_dash is_lower_hex is_hex_digit
before_dash-hex [] r h = refl
before_dash-hex (c ∷ s) r h = ground (arith, before_dash-hex s r)

after_dash-hex : (s r : Bytes) → is_lower_hex s ≡ true → after_dash (s ++ (b'-' ∷ r)) ≡ some r
unfolding after_dash is_lower_hex is_hex_digit
after_dash-hex [] r h = refl
after_dash-hex (c ∷ s) r h = ground (arith, after_dash-hex s r)

split_fields-hex :
    (n : ℕ) (s r : Bytes)
    → is_lower_hex s ≡ true
    → split_fields (suc n) (s ++ (b'-' ∷ r)) ≡ s ∷ split_fields n r
unfolding split_fields
split_fields-hex n s r h = rw (before_dash-hex s r h, after_dash-hex s r h) refl

abbrev flag_text : Bool → Bytes
flag_text true = codes "01"
flag_text false = codes "00"

-- The fields of the header of two ids.
split_fields-format :
    (trace span : Bytes) (sampled : Bool)
    → is_lower_hex trace ≡ true
    → is_lower_hex span ≡ true
    → split_fields 4 (codes "00-" ++ (trace ++ (b'-' ∷ (span ++ flags_of sampled))))
      ≡ codes "00" ∷ trace ∷ span ∷ flag_text sampled ∷ []
unfolding flags_of split_fields before_dash after_dash
split_fields-format trace span true h k =
    ap (λ fs. codes "00" ∷ fs)
      (split_fields-hex 2 trace (span ++ codes "-01") h
        ∙ ap (λ fs. trace ∷ fs) (split_fields-hex 1 span (codes "01") k))
split_fields-format trace span false h k =
    ap (λ fs. codes "00" ∷ fs)
      (split_fields-hex 2 trace (span ++ codes "-00") h
        ∙ ap (λ fs. trace ∷ fs) (split_fields-hex 1 span (codes "00") k))

parse_fields-format :
    (trace span : Bytes) (sampled : Bool)
    → is_lower_hex trace ≡ true
    → is_lower_hex span ≡ true
    → is_valid_ids trace span ≡ true
    → parse_fields (codes "00" ∷ trace ∷ span ∷ flag_text sampled ∷ [])
      ≡ some (record { trace_id = trace; span_id = span; sampled = sampled; trace_state = [] })
unfolding parse_fields parse_hex_byte is_hex_digit with_flags
parse_fields-format trace span true h k v = rw (h, k, v) refl
parse_fields-format trace span false h k v = rw (h, k, v) refl

-- A context with valid ids in lower-case hexadecimal is read back from its header, but for the
-- vendor state, which the header does not carry.
pub parse_traceparent-format :
    (c : SpanContext)
    → is_lower_hex c.trace_id ≡ true
    → is_lower_hex c.span_id ≡ true
    → is_valid c ≡ true
    → parse_traceparent (format_traceparent c) ≡ some (record c { trace_state = [] })
unfolding parse_traceparent format_traceparent is_valid_ids is_valid
parse_traceparent-format c h k v =
    ap parse_fields (split_fields-format c.trace_id c.span_id c.sampled h k)
    ∙ parse_fields-format c.trace_id c.span_id c.sampled h k v

parse_fields-valid :
    (fs : List Bytes) (c : SpanContext)
    → parse_fields fs ≡ some c
    → (is_valid c ≡ true) × (is_lower_hex c.trace_id ≡ true) × (is_lower_hex c.span_id ≡ true)
unfolding parse_fields with_flags is_valid_ids is_valid
parse_fields-valid (v ∷ t ∷ s ∷ f ∷ rest) c h = ground arith
parse_fields-valid [] c h = ground arith
parse_fields-valid (v ∷ []) c h = ground arith
parse_fields-valid (v ∷ t ∷ []) c h = ground arith
parse_fields-valid (v ∷ t ∷ s ∷ []) c h = ground arith

-- Whatever text arrives, a context that is read from it has valid ids in lower-case hexadecimal.
pub parse_traceparent-valid :
    (header : Bytes) (c : SpanContext)
    → parse_traceparent header ≡ some c
    → (is_valid c ≡ true) × (is_lower_hex c.trace_id ≡ true) × (is_lower_hex c.span_id ≡ true)
unfolding parse_traceparent
parse_traceparent-valid header c h = parse_fields-valid (split_fields 4 header) c h
