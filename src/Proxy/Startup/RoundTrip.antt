-- ===== src/Proxy/Startup/RoundTrip.antt =====
-- What the two builders write, the parser reads back, whatever follows it.
use hobbyist.Base.{
  ℕ, zero, suc, ◌+◌, ◌≤◌, ◌<◌, ◌≡◌, ◌≢◌, refl, sym, ap, ◌∙◌, Text, [], ◌∷◌, ◌++◌, length,
  length-append, append_assoc, append-nil, take, drop, All, arith,
}
use hobbyist.Proxy.Bytes.{
  Bytes, read_int32, int32, HasNoZero, read_int32-int32, length-int32, cut_at_zero-append, take-all,
}
use hobbyist.Proxy.Cancel.{CancelKey}
use hobbyist.Proxy.Startup.{
  cancel_request_code, Params, assign, parsed, startup, cancel_request, read_params, parse_frame,
  parse_startup, params_bytes, build_startup_packet, build_cancel_request,
}

-- An object whose properties, set one after the other, give it back.
abbrev pub assign_all : Params → Params → Params
assign_all [] params = params
assign_all ((key, value) ∷ rest) params = assign_all rest (assign key value params)

drop-int32 : (w : ℕ) (s : Bytes) → drop 4 (int32 w ++ s) ≡ s
unfolding int32
drop-int32 w s = refl

drop-int32_twice : (v w : ℕ) (s : Bytes) → drop 8 (int32 v ++ (int32 w ++ s)) ≡ s
unfolding int32
drop-int32_twice v w s = refl

drop-int32_thrice : (u v w : ℕ) (s : Bytes) → drop 12 (int32 u ++ (int32 v ++ (int32 w ++ s))) ≡ s
unfolding int32
drop-int32_thrice u v w s = refl

-- A frame with its length in front is parsed as that frame, whatever follows it.
parse_startup-frame :
    (decode : Bytes → Text) (len : ℕ) (body rest : Bytes)
    → length body + 4 ≡ len
    → 8 ≤ len
    → len ≤ 10000
    → parse_startup decode ((int32 len ++ body) ++ rest)
      ≡ parse_frame decode len (int32 len ++ body)
unfolding parse_startup
parse_startup-frame decode len body rest e low high =
    rw (whole, first) (ground (arith, frame, enough))
  where
    whole : (int32 len ++ body) ++ rest ≡ int32 len ++ (body ++ rest)
    whole = append_assoc (int32 len) body rest

    first : read_int32 (int32 len ++ (body ++ rest)) ≡ len
    first = read_int32-int32 len (body ++ rest) (omega arith)

    size : length (int32 len ++ body) ≡ len
    size = omega (arith, length-append (int32 len) body, length-int32 len)

    enough : length (int32 len ++ (body ++ rest)) ≡ len + length rest
    enough =
        omega (
          arith,
          length-append (int32 len) (body ++ rest),
          length-append body rest,
          length-int32 len,
        )

    frame : take len (int32 len ++ (body ++ rest)) ≡ int32 len ++ body
    frame = rw (← whole) (
        ap (λ n. take n ((int32 len ++ body) ++ rest)) (sym size)
        ∙ take-all (int32 len ++ body) rest)

-- The parser reads back the cancel request that the proxy builds, with both numbers of its key,
-- which are Int32s.
pub parse_startup-build_cancel_request :
    (decode : Bytes → Text) (key : CancelKey) (rest : Bytes)
    → key.process_id < 4294967296
    → key.secret_key < 4294967296
    → parse_startup decode (build_cancel_request key ++ rest) ≡ parsed (cancel_request key) 16
unfolding build_cancel_request parse_frame
parse_startup-build_cancel_request decode key rest p q =
    parse_startup-frame decode 16 body rest (omega (arith, size)) (omega arith) (omega arith)
    ∙ rw
        (
          drop-int32 16 body,
          read_int32-int32 cancel_request_code (int32 key.process_id ++ int32 key.secret_key)
              (omega arith),
          drop-int32_twice 16 cancel_request_code (int32 key.process_id ++ int32 key.secret_key),
          drop-int32_thrice 16 cancel_request_code key.process_id (int32 key.secret_key),
          read_int32-int32 key.process_id (int32 key.secret_key) p,
          secret,
        )
        refl
  where
    body : Bytes
    body = int32 cancel_request_code ++ (int32 key.process_id ++ int32 key.secret_key)

    size : length body ≡ 12
    size = omega (
      arith,
      length-append (int32 cancel_request_code) (int32 key.process_id ++ int32 key.secret_key),
      length-append (int32 key.process_id) (int32 key.secret_key),
      length-int32 cancel_request_code,
      length-int32 key.process_id,
      length-int32 key.secret_key,
    )

    secret : read_int32 (int32 key.secret_key) ≡ key.secret_key
    secret = rw (← append-nil (int32 key.secret_key)) (read_int32-int32 key.secret_key [] q)

module _ (decode : Bytes → Text) (encode : Text → Bytes) where
  -- A parameter that can stand in a packet: Node encodes and decodes it without loss, no zero byte
  -- is in it, and its key is not empty.
  pub record IsWire (p : Text × Text) : Type 0 where
    pub key_kept : decode (encode p.0) ≡ p.0
    pub value_kept : decode (encode p.1) ≡ p.1
    pub key_clean : HasNoZero (encode p.0)
    pub value_clean : HasNoZero (encode p.1)
    pub key_there : length (encode p.0) ≢ 0

  read_params_step :
      (fuel len version : ℕ) (s t rest : Bytes) (params : Params)
      → HasNoZero s
      → HasNoZero t
      → length s ≢ 0
      → read_params decode (suc fuel) len version (s ++ 0 ∷ (t ++ 0 ∷ rest)) params
        ≡ read_params decode fuel len version rest (assign (decode s) (decode t) params)
  unfolding read_params
  read_params_step fuel len version [] t rest params p q r = absurd (r refl)
  read_params_step fuel len version (b ∷ s) t rest params p q r = ground (
    arith,
    cut_at_zero-append (b ∷ s) (t ++ 0 ∷ rest) p,
    cut_at_zero-append t rest q,
    length-append t (0 ∷ rest),
  )

  read_params-params_bytes :
      (params : Params) (fuel len version : ℕ) (out : Params)
      → length params < fuel
      → All IsWire params
      → read_params decode fuel len version (params_bytes encode params ++ 0 ∷ []) out
        ≡ parsed (startup version (assign_all params out)) len
  unfolding params_bytes read_params
  read_params-params_bytes [] zero len version out h w = absurd (omega arith)
  read_params-params_bytes [] (suc fuel) len version out h w = refl
  read_params-params_bytes ((key, value) ∷ params) zero len version out h w = absurd (omega arith)
  read_params-params_bytes ((key, value) ∷ params) (suc fuel) len version out h (w, ws) =
      rw
        (
          together,
          read_params_step fuel len version (encode key) (encode value)
              (params_bytes encode params ++ 0 ∷ []) out w.key_clean w.value_clean w.key_there,
          w.key_kept,
          w.value_kept,
        )
        (read_params-params_bytes params fuel len version (assign key value out) (omega arith) ws)
    where
      together :
          (encode key ++ 0 ∷ (encode value ++ 0 ∷ params_bytes encode params)) ++ 0 ∷ []
          ≡ encode key ++ 0 ∷ (encode value ++ 0 ∷ (params_bytes encode params ++ 0 ∷ []))
      together = simp (append_assoc) refl

  length-params_bytes : (params : Params) → length params ≤ length (params_bytes encode params)
  unfolding params_bytes
  length-params_bytes [] = omega arith
  length-params_bytes ((key, value) ∷ params) = omega (
    arith,
    length-params_bytes params,
    length-append (encode key) (0 ∷ (encode value ++ 0 ∷ params_bytes encode params)),
    length-append (encode value) (0 ∷ params_bytes encode params),
  )

  -- The parser reads back the startup packet that the proxy builds, with the version and with every
  -- parameter in its place: for parameters that can stand in a packet and are a JavaScript object's,
  -- a packet within the plausible length, and a version that is not the code of a cancel request.
  pub parse_startup-build_startup_packet :
      (params : Params) (version : ℕ) (rest : Bytes)
      → All IsWire params
      → assign_all params [] ≡ params
      → version < 4294967296
      → version ≢ cancel_request_code
      → length (params_bytes encode params) + 9 ≤ 10000
      → parse_startup decode (build_startup_packet encode params version ++ rest)
        ≡ parsed (startup version params) (length (build_startup_packet encode params version))
  unfolding build_startup_packet parse_frame
  parse_startup-build_startup_packet params version rest w object fits other short =
      parse_startup-frame decode len body rest (omega (arith, size)) (omega arith) (omega arith)
      ∙ rw
          (
            drop-int32 len body,
            drop-int32_twice len version (params_bytes encode params ++ 0 ∷ []),
            code,
          )
          (ground (arith, all_read))
    where
      body : Bytes
      body = int32 version ++ (params_bytes encode params ++ 0 ∷ [])

      len : ℕ
      len = 4 + 4 + length (params_bytes encode params) + 1

      size : length body ≡ length (params_bytes encode params) + 5
      size = omega (
        arith,
        length-append (int32 version) (params_bytes encode params ++ 0 ∷ []),
        length-append (params_bytes encode params) (0 ∷ []),
        length-int32 version,
      )

      code : read_int32 body ≡ version
      code = read_int32-int32 version (params_bytes encode params ++ 0 ∷ []) fits

      whole : length (int32 len ++ body) ≡ len
      whole = omega (arith, length-append (int32 len) body, length-int32 len, size)

      all_read :
          read_params decode
            (length (int32 len ++ body))
            len
            version
            (params_bytes encode params ++ 0 ∷ [])
            []
          ≡ parsed (startup version params) (length (int32 len ++ body))
      all_read =
          read_params-params_bytes params (length (int32 len ++ body)) len version []
            (omega (arith, whole, length-params_bytes params)) w
          ∙ rw (object, whole) refl
