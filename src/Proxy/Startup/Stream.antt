-- ===== src/Proxy/Startup/Stream.antt =====
-- The parser on a buffer that grows: it always answers, and what it has answered it answers again.
use hobbyist.Base.{
  ℕ, zero, suc, ◌≤◌, ◌<◌, ◌≡◌, ◌≢◌, refl, Bool, true, false, ◌||◌, ◌==◌, Text, [], ◌∷◌, ◌++◌,
  Option, none, some, length, length-append, take, drop, ltb, arith, branch, Bool-cases, inl, inr,
}
use hobbyist.Proxy.Bytes.{
  Bytes, read_int32, cut_at_zero, cut_at_zero_shorter, length-take-eq, length-drop-lt, take-append,
  read_int32-append, is_below, is_above,
}
use hobbyist.Proxy.Startup.{
  Params, assign, Parsed, parsed, incomplete, refused, stuck, read_params, parse_frame,
  parse_startup,
}

-- An answer on a whole frame: an error, or a message of the frame's length.
abbrev is_framed : ℕ → Parsed → Bool
is_framed len (refused e) = true
is_framed len (parsed m n) = n == len
is_framed len incomplete = false
is_framed len stuck = false

-- An answer on a buffer: wait for more, an error, or a message out of what has arrived.
abbrev pub IsAnswer : ℕ → Parsed → Type 0
IsAnswer size incomplete = Unit {0}
IsAnswer size (refused e) = Unit {0}
IsAnswer size (parsed m n) = (8 ≤ n) × (n ≤ size)
IsAnswer size stuck = ⊥

length-drop-le : (n : ℕ) (s : Bytes) → length (drop n s) ≤ length s
length-drop-le zero s = omega arith
length-drop-le (suc n) [] = omega arith
length-drop-le (suc n) (b ∷ s) = omega (arith, length-drop-le n s)

framed-IsAnswer :
    (len size : ℕ) (p : Parsed) → is_framed len p ≡ true → 8 ≤ len → len ≤ size → IsAnswer size p
framed-IsAnswer len size incomplete e low high = tt
framed-IsAnswer len size (refused r) e low high = tt
framed-IsAnswer len size (parsed m n) e low high = ground (arith, e)
framed-IsAnswer len size stuck e low high = ground (arith, e)

module _ (decode : Bytes → Text) where
  read_params-is_framed :
      (fuel len version : ℕ) (rest : Bytes) (params : Params)
      → length rest < fuel
      → is_framed len (read_params decode fuel len version rest params) ≡ true
  unfolding read_params
  read_params-is_framed zero len version rest params h = absurd (omega arith)
  read_params-is_framed (suc fuel) len version [] params h = refl
  read_params-is_framed (suc fuel) len version (b ∷ rest) params h =
      key_cut (cut_at_zero (b ∷ rest)) refl (λ r p. read_params-is_framed fuel len version r p)
    where
      value_cut :
          (key after_key : Bytes)
          → cut_at_zero (b ∷ rest) ≡ some (key, after_key)
          → (o : Option (Bytes × Bytes)) → cut_at_zero after_key ≡ o
          → ((r : Bytes) (p : Params)
              → length r < fuel
              → is_framed len (read_params decode fuel len version r p) ≡ true)
          → is_framed len (read_params decode (suc fuel) len version (b ∷ rest) params) ≡ true
      value_cut key after_key e none f ih = ground (arith, e, f)
      value_cut key after_key e (some (value, after_value)) f ih = ground (
        arith,
        e,
        f,
        ih after_value (assign (decode key) (decode value) params),
        cut_at_zero_shorter (b ∷ rest) key after_key e,
        cut_at_zero_shorter after_key value after_value f,
      )

      key_cut :
          (o : Option (Bytes × Bytes))
          → cut_at_zero (b ∷ rest) ≡ o
          → ((r : Bytes) (p : Params)
              → length r < fuel
              → is_framed len (read_params decode fuel len version r p) ≡ true)
          → is_framed len (read_params decode (suc fuel) len version (b ∷ rest) params) ≡ true
      key_cut none e ih = ground (arith, e)
      key_cut (some (key, after_key)) e ih =
          value_cut key after_key e (cut_at_zero after_key) refl ih

  parse_frame-is_framed :
      (len : ℕ) (frame : Bytes)
      → length frame ≡ len
      → 8 ≤ len
      → is_framed len (parse_frame decode len frame) ≡ true
  unfolding parse_frame
  parse_frame-is_framed len frame e h = ground (
    arith,
    read_params-is_framed (length frame) len (read_int32 (drop 4 frame)) (drop 8 frame) [] shorter,
  )
    where
      shorter : length (drop 8 frame) < length frame
      shorter = omega (arith, length-drop-lt 7 frame (omega arith))

  -- The parser always comes to an answer: to wait, an error, or a message of at least eight bytes,
  -- all of which have arrived.
  pub parse_startup-IsAnswer : (buf : Bytes) → IsAnswer (length buf) (parse_startup decode buf)
  unfolding parse_startup
  parse_startup-IsAnswer buf =
      branch (IsAnswer (length buf)) (ltb (length buf) 4) (λ e. tt)
        λ four.
          branch (IsAnswer (length buf)) (is_below (read_int32 buf) 8) (λ e. tt)
            λ low.
              branch (IsAnswer (length buf)) (is_above (read_int32 buf) 10000) (λ e. tt)
                λ high.
                  branch (IsAnswer (length buf)) (ltb (length buf) (read_int32 buf)) (λ e. tt)
                    λ there.
                      framed-IsAnswer (read_int32 buf) (length buf) _
                        (parse_frame-is_framed (read_int32 buf) (take (read_int32 buf) buf)
                          (length-take-eq (read_int32 buf) buf (ground (arith, there)))
                          (ground (arith, low)))
                        (ground (arith, low)) (ground (arith, there))

  -- An answer other than to wait stands, whatever bytes arrive after it: the caller may parse the
  -- buffer again each time it has grown.
  pub parse_startup-append :
      (buf more : Bytes)
      → parse_startup decode buf ≢ incomplete
      → parse_startup decode (buf ++ more) ≡ parse_startup decode buf
  unfolding parse_startup
  parse_startup-append buf more answered = elim (Bool-cases (ltb (length buf) 4)) [
    | inl short ↦ absurd (answered (rw short refl))
    | inr four ↦
        let same : read_int32 (buf ++ more) ≡ read_int32 buf =
          read_int32-append buf more (ground (arith, four)) in
        elim (Bool-cases (is_below (read_int32 buf) 8 || is_above (read_int32 buf) 10000)) [
          | inl bad ↦ ground (arith, four, bad, same, length-append buf more)
          | inr fine ↦ elim (Bool-cases (ltb (length buf) (read_int32 buf))) [
            | inl waits ↦ absurd (answered (ground (arith, four, fine, waits)))
            | inr there ↦ ground (
              arith,
              four,
              fine,
              same,
              there,
              length-append buf more,
              take-append (read_int32 buf) buf more (ground (arith, there)),
            )
          ]
        ]
  ]
