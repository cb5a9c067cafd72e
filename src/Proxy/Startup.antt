-- ===== src/Proxy/Startup.antt =====
-- packages/proxy/src/startup.ts, the client's half: parseStartup, buildStartupPacket and
-- buildCancelRequest. `decode` and `encode` are Node's `buf.toString('utf8')` and
-- `Buffer.from(text, 'utf8')`.
pub mod RoundTrip
pub mod Stream
use hobbyist.Base.{
  ℕ, zero, suc, ◌+◌, ◌-◌, ◌*◌, Bool, true, false, ◌&&◌, ◌||◌, ◌==◌, Text, text_eq, codes, List, [],
  ◌∷◌, ◌++◌, Option, none, some, length, take, drop, any, ltb, leb, if◌then◌else◌,
}
use hobbyist.Proxy.Bytes.{Bytes, read_int32, int32, is_below, is_above, cut_at_zero}
use hobbyist.Proxy.Cancel.{CancelKey}

abbrev pub ssl_request_code : ℕ
ssl_request_code = 80877103

abbrev pub gss_enc_request_code : ℕ
gss_enc_request_code = 80877104

abbrev pub cancel_request_code : ℕ
cancel_request_code = 80877102

abbrev pub max_plausible_length : ℕ
max_plausible_length = 10000

abbrev pub min_plausible_length : ℕ
min_plausible_length = 8

-- A JavaScript object with string values, as its properties in the order of `Object.entries`: first
-- the keys that are array indices, ascending, and then the others as they were set.
abbrev pub Params : Type 0
Params = List (Text × Text)

abbrev numeral : Text → ℕ → Option ℕ
numeral [] n = some n
numeral (c ∷ t) n =
    let rest = numeral t (n * 10 + (c - b'0')) in if leb b'0' c && leb c b'9' then rest else none

-- The array index that a key spells, if it does.
unfoldable pub index_of : Text → Option ℕ
index_of [] = none
index_of (c ∷ t) =
    if c == b'0' then (if length t == 0 then some 0 else none) else elim (numeral (c ∷ t) 0) [
      | none ↦ none
      | some n ↦ if ltb n 4294967295 then some n else none
    ]

abbrev goes_before : Option ℕ → Option ℕ → Bool
goes_before none j = false
goes_before (some i) none = true
goes_before (some i) (some j) = ltb i j

unfoldable pub place : Text → Text → Params → Params
place key value [] = (key, value) ∷ []
place key value ((k, v) ∷ params) =
    if goes_before (index_of key) (index_of k)
    then (key, value) ∷ (k, v) ∷ params
    else (k, v) ∷ place key value params

unfoldable pub replace : Text → Text → Params → Params
replace key value [] = []
replace key value ((k, v) ∷ params) =
    (k, if text_eq k key then value else v) ∷ replace key value params

-- `params[key] = value`; a string given to `__proto__` is dropped.
unfoldable pub assign : Text → Text → Params → Params
assign key value params =
    if text_eq key (codes "__proto__")
    then params
    else if any (λ p. text_eq p.0 key) params
    then replace key value params
    else place key value params

pub data StartupMessage : Type 0 where
  ssl_request gss_enc_request : StartupMessage
  cancel_request : CancelKey → StartupMessage
  startup : ℕ → Params → StartupMessage

-- The errors, by what they say.
pub data Refusal : Type 0 where
  implausible_length unrecognized_code no_terminator unterminated_key unterminated_value
        trailing_bytes :
      Refusal

-- `null`, an error, a message with the bytes consumed, or the end of the model's fuel.
pub data Parsed : Type 0 where
  incomplete : Parsed
  refused : Refusal → Parsed
  parsed : StartupMessage → ℕ → Parsed
  stuck : Parsed

module _ (decode : Bytes → Text) where
  -- The loop over the parameters, on the bytes of the frame that are left.
  unfoldable pub read_params : ℕ → ℕ → ℕ → Bytes → Params → Parsed
  read_params zero len version rest params = stuck
  read_params (suc fuel) len version [] params = refused no_terminator
  read_params (suc fuel) len version (b ∷ rest) params =
      if b == 0
      then (if length rest == 0
          then parsed (startup version params) len
          else refused trailing_bytes)
      else elim (cut_at_zero (b ∷ rest)) [
        | none ↦ refused unterminated_key
        | some (key, after_key) ↦
            if length after_key == 0
            then refused unterminated_value
            else elim (cut_at_zero after_key) [
              | none ↦ refused unterminated_value
              | some (value, after_value) ↦
                  read_params fuel len version after_value
                    (assign (decode key) (decode value) params)
            ]
      ]

  -- What follows the checks of the length, on the whole frame.
  unfoldable pub parse_frame : ℕ → Bytes → Parsed
  parse_frame len frame =
      let code = read_int32 (drop 4 frame) in
      if len == 8
      then (if code == ssl_request_code
          then parsed ssl_request 8
          else if code == gss_enc_request_code
          then parsed gss_enc_request 8
          else refused unrecognized_code)
      else if (len == 16) && (code == cancel_request_code)
      then parsed
          (cancel_request (record {
            process_id = read_int32 (drop 8 frame);
            secret_key = read_int32 (drop 12 frame);
          }))
          16
      else read_params (length frame) len code (drop 8 frame) []

  unfoldable pub parse_startup : Bytes → Parsed
  parse_startup buf =
      if ltb (length buf) 4
      then incomplete
      else if is_below (read_int32 buf) min_plausible_length
      then refused implausible_length
      else if is_above (read_int32 buf) max_plausible_length
      then refused implausible_length
      else if ltb (length buf) (read_int32 buf)
      then incomplete
      else parse_frame (read_int32 buf) (take (read_int32 buf) buf)

module _ (encode : Text → Bytes) where
  unfoldable pub params_bytes : Params → Bytes
  params_bytes [] = []
  params_bytes ((key, value) ∷ params) = encode key ++ 0 ∷ (encode value ++ 0 ∷ params_bytes params)

  unfoldable pub build_startup_packet : Params → ℕ → Bytes
  build_startup_packet params version =
      int32 (4 + 4 + length (params_bytes params) + 1)
      ++ (int32 version ++ (params_bytes params ++ 0 ∷ []))

unfoldable pub build_cancel_request : CancelKey → Bytes
build_cancel_request key =
    int32 16 ++ (int32 cancel_request_code ++ (int32 key.process_id ++ int32 key.secret_key))
