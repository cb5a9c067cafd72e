-- ===== src/Proxy/Backend/Answers.antt =====
-- What the proxy makes of a backend's first answer, and what it reads of its own errors.
use hobbyist.Base.{
  ℕ, zero, suc, ◌+◌, ◌≤◌, ◌<◌, ◌≡◌, ◌≢◌, refl, subst, ap, ◌∙◌, ◌||◌, ◌&&◌, not, Text, text_eq, [],
  ◌∷◌, ◌++◌, length, length-append, append_assoc, take, drop, ltb, if◌then◌else◌, arith, Bool-cases,
  inl, inr,
}
use hobbyist.Proxy.Bytes.{
  Bytes, read_int32, int32, HasNoZero, cut_at_zero-append, length-drop-lt, take-append, take-all,
  drop-append, read_int32-int32, length-int32,
}
use hobbyist.Proxy.Backend.{
  length_of, is_implausible, cannot_connect_now, Fields, field, set_field, field_bytes,
  error_response_body, error_response, read_fields, error_response_fields, incomplete, answered,
  not_ready, classify_fields, classify_error, classify_loop, classify_backend_answer,
}
use hobbyist.Proxy.Backend.Resume.{length_of-append, type_of-append}

module _ (decode : Bytes → Text) where
  classify_loop-append :
      (f F : ℕ) (buf more : Bytes)
      → length buf < f
      → length buf < F
      → classify_loop decode f buf ≢ incomplete
      → classify_loop decode F (buf ++ more) ≡ classify_loop decode f buf
  unfolding classify_loop
  classify_loop-append zero F buf more p q r = absurd (omega arith)
  classify_loop-append (suc f) zero buf more p q r = absurd (omega arith)
  classify_loop-append (suc f) (suc F) buf more p q r =
      elim (Bool-cases (
        ltb (length buf) 5
        || (not (is_implausible (length_of buf)) && ltb (length buf) (suc (length_of buf))))) [
          | inl waits ↦ absurd (r (ground (arith, waits)))
          | inr there ↦
              let five : 5 ≤ length buf = ground (arith, there) in
              elim (Bool-cases (is_implausible (length_of buf))) [
                | inl bad ↦
                    ground
                      (arith, bad, length_of-append buf more five, length-append buf more, five)
                | inr plausible ↦
                    let within : length_of buf < length buf = ground (arith, there, plausible) in
                    ground (
                      arith,
                      r,
                      plausible,
                      five,
                      within,
                      length_of-append buf more five,
                      type_of-append buf more five,
                      length-append buf more,
                      take-append (suc (length_of buf)) buf more within,
                      drop-append (suc (length_of buf)) buf more within,
                      classify_loop-append f F (drop (suc (length_of buf)) buf) more
                          (omega (arith, length-drop-lt (length_of buf) buf within, p))
                          (omega (arith, length-drop-lt (length_of buf) buf within, q)),
                    )
              ]
        ]

  -- A verdict on the backend's answer stands, whatever bytes arrive after it.
  pub classify_backend_answer-append :
      (buf more : Bytes)
      → classify_backend_answer decode buf ≢ incomplete
      → classify_backend_answer decode (buf ++ more) ≡ classify_backend_answer decode buf
  unfolding classify_backend_answer
  classify_backend_answer-append buf more r =
      classify_loop-append (suc (length buf)) (suc (length (buf ++ more))) buf more (omega arith)
        (omega (arith, length-append buf more)) r

module _ (decode : Bytes → Text) (encode : Text → Bytes) where
  -- A text that Node encodes and decodes without loss, with no zero byte.
  pub record IsPlain (t : Text) : Type 0 where
    pub kept : decode (encode t) ≡ t
    pub clean : HasNoZero (encode t)

  read_fields-field_bytes :
      (fuel code : ℕ) (value : Text) (rest : Bytes) (fields : Fields)
      → 0 < code
      → IsPlain value
      → read_fields decode (suc fuel) (field_bytes encode code value ++ rest) fields
        ≡ read_fields decode fuel rest (set_field code value fields)
  unfolding read_fields
  read_fields-field_bytes fuel code value rest fields p v =
      ground (arith, together, cut_at_zero-append (encode value) rest v.clean, v.kept)
    where
      together : (encode value ++ 0 ∷ []) ++ rest ≡ encode value ++ 0 ∷ rest
      together = append_assoc (encode value) (0 ∷ []) rest

  -- The four fields of an error, read back.
  abbrev four_fields : Text → Text → Text → Fields
  four_fields severity code message =
      (b'S', severity) ∷ (b'V', severity) ∷ (b'C', code) ∷ (b'M', message) ∷ []

  read_fields-error_response_body :
      (fuel : ℕ) (severity code message : Text)
      → 5 ≤ fuel
      → IsPlain severity
      → IsPlain code
      → IsPlain message
      → read_fields decode fuel (error_response_body encode severity code message) []
        ≡ four_fields severity code message
  unfolding error_response_body set_field
  read_fields-error_response_body (suc (suc (suc (suc (suc fuel))))) severity code message h s c m =
      read_fields-field_bytes (suc (suc (suc (suc fuel)))) b'S' severity _ [] (omega arith) s
      ∙ read_fields-field_bytes (suc (suc (suc fuel))) b'V' severity _ _ (omega arith) s
      ∙ read_fields-field_bytes (suc (suc fuel)) b'C' code _ _ (omega arith) c
      ∙ read_fields-field_bytes (suc fuel) b'M' message (0 ∷ []) _ (omega arith) m
      ∙ unfold read_fields in refl
  read_fields-error_response_body zero severity code message h s c m = absurd (omega arith)
  read_fields-error_response_body (suc zero) severity code message h s c m = absurd (omega arith)
  read_fields-error_response_body (suc (suc zero)) severity code message h s c m =
      absurd (omega arith)
  read_fields-error_response_body (suc (suc (suc zero))) severity code message h s c m =
      absurd (omega arith)
  read_fields-error_response_body (suc (suc (suc (suc zero)))) severity code message h s c m =
      absurd (omega arith)

  length-error_response_body :
      (severity code message : Text) → 5 ≤ length (error_response_body encode severity code message)
  unfolding error_response_body
  length-error_response_body severity code message = omega (
    arith,
    length-append (encode severity) (0 ∷ []),
    length-append (encode code) (0 ∷ []),
    length-append (encode message) (0 ∷ []),
    length-append (field_bytes encode b'S' severity) (
        field_bytes encode b'V' severity
        ++ (field_bytes encode b'C' code ++ (field_bytes encode b'M' message ++ 0 ∷ []))),
    length-append (field_bytes encode b'V' severity)
        (field_bytes encode b'C' code ++ (field_bytes encode b'M' message ++ 0 ∷ [])),
    length-append (field_bytes encode b'C' code) (field_bytes encode b'M' message ++ 0 ∷ []),
    length-append (field_bytes encode b'M' message) (0 ∷ []),
  )

  error_response_fields-error_response_body :
      (severity code message : Text)
      → IsPlain severity
      → IsPlain code
      → IsPlain message
      → error_response_fields decode (error_response_body encode severity code message)
        ≡ four_fields severity code message
  unfolding error_response_fields
  error_response_fields-error_response_body severity code message s c m =
      read_fields-error_response_body (length (error_response_body encode severity code message))
        severity code message (length-error_response_body severity code message) s c m

  classify_error-error_response_body :
      (severity code message : Text)
      → IsPlain severity
      → IsPlain code
      → IsPlain message
      → classify_error decode (error_response_body encode severity code message)
        ≡ (if text_eq code cannot_connect_now then not_ready message else answered)
  unfolding classify_error classify_fields field
  classify_error-error_response_body severity code message s c m =
      ap classify_fields (error_response_fields-error_response_body severity code message s c m)
      ∙ ground (arith, Bool-cases (text_eq code cannot_connect_now))

  -- The classifier reads an error that errorResponse wrote: with the state code 57P03 the backend is
  -- not ready, for the message that the error has, and with any other code that is the answer.
  pub classify_backend_answer-error_response :
      (severity code message : Text) (rest : Bytes)
      → IsPlain severity
      → IsPlain code
      → IsPlain message
      → length (error_response_body encode severity code message) ≤ 65532
      → classify_backend_answer decode (error_response encode severity code message ++ rest)
        ≡ (if text_eq code cannot_connect_now then not_ready message else answered)
  unfolding classify_backend_answer classify_loop error_response
  classify_backend_answer-error_response severity code message rest s c m short =
      ground
        (arith, read, size, body_of, classify_error-error_response_body severity code message s c m)
    where
      body : Bytes
      body = error_response_body encode severity code message

      packet : Bytes
      packet = int32 (4 + length body) ++ body

      packet_size : length packet ≡ 4 + length body
      packet_size =
          omega
            (arith, length-append (int32 (4 + length body)) body, length-int32 (4 + length body))

      read : read_int32 (packet ++ rest) ≡ 4 + length body
      read =
          rw (append_assoc (int32 (4 + length body)) body rest)
            (read_int32-int32 (4 + length body) (body ++ rest) (omega (arith, short)))

      size : length (packet ++ rest) ≡ 4 + length body + length rest
      size = omega (arith, length-append packet rest, packet_size)

      body_of : drop 4 (take (4 + length body) (packet ++ rest)) ≡ body
      body_of =
          subst (λ n. drop 4 (take n (packet ++ rest)) ≡ body) packet_size
            (rw (take-all packet rest) (unfold int32 in refl))
