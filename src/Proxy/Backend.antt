-- ===== src/Proxy/Backend.antt =====
-- packages/proxy/src/startup.ts, the backend's half: scanBackendStartup, errorResponse,
-- classifyBackendAnswer and errorResponseFields. A loop over offsets is a recursion on the bytes
-- from the offset on; each round takes at least five bytes, so the size of the buffer is fuel enough.
pub mod Resume
pub mod Answers
use hobbyist.Base.{
  ℕ, zero, suc, ◌+◌, ◌-◌, Bool, true, false, ◌||◌, ◌&&◌, not, ◌==◌, Text, text_eq, codes, List, [],
  ◌∷◌, ◌++◌, Option, none, some, length, take, drop, ltb, if◌then◌else◌, get_or_else,
}
use hobbyist.Proxy.Bytes.{Bytes, read_int32, int32, is_below, is_above, cut_at_zero}
use hobbyist.Proxy.Cancel.{CancelKey}

abbrev pub backend_key_data : ℕ
backend_key_data = 0x4b

abbrev pub ready_for_query : ℕ
ready_for_query = 0x5a

abbrev pub error_response_type : ℕ
error_response_type = 0x45

abbrev pub negotiate_protocol_version : ℕ
negotiate_protocol_version = 0x76

abbrev pub backend_key_data_length : ℕ
backend_key_data_length = 12

abbrev pub max_backend_startup_message : ℕ
max_backend_startup_message = 65536

-- `buf[offset]`.
abbrev pub type_of : Bytes → ℕ
type_of [] = 0
type_of (b ∷ rest) = b

-- `readInt32BE(offset + 1)`.
abbrev pub length_of : Bytes → ℕ
length_of buf = read_int32 (drop 1 buf)

-- `length < 4 || length > MAX_BACKEND_STARTUP_MESSAGE`.
abbrev pub is_implausible : ℕ → Bool
is_implausible len = is_below len 4 || is_above len max_backend_startup_message

abbrev pub is_key_data : Bytes → Bool
is_key_data buf = (type_of buf == backend_key_data) && (length_of buf == backend_key_data_length)

pub record Scan : Type 0 where
  pub forward : Bytes
  pub consumed : ℕ
  pub backend_key : Option CancelKey
  pub is_done : Bool

abbrev pub stopped : Bool → Scan
stopped is_done = record { forward = []; consumed = 0; backend_key = none; is_done = is_done }

-- A message as it is forwarded: of BackendKeyData the pair is overwritten.
abbrev pub forwarded : CancelKey → Bytes → Bytes
forwarded key message =
    if is_key_data message
    then take 5 message ++ (int32 key.process_id ++ int32 key.secret_key)
    else message

abbrev pub key_of : Bytes → Option CancelKey
key_of message =
    if is_key_data message
    then some (record {
      process_id = read_int32 (drop 5 message);
      secret_key = read_int32 (drop 9 message);
    })
    else none

-- A message in front of what the later rounds read; of two keys the later one stays.
abbrev pub before : CancelKey → Bytes → Scan → Scan
before key message later = record {
  forward = forwarded key message ++ later.forward;
  consumed = length message + later.consumed;
  backend_key = elim later.backend_key [ none ↦ key_of message | some k ↦ some k ];
  is_done = later.is_done;
}

unfoldable pub scan_loop : ℕ → CancelKey → Bytes → Scan
scan_loop zero key buf = stopped false
scan_loop (suc fuel) key buf =
    let total = suc (length_of buf) in
    let later = scan_loop fuel key (drop total buf) in
    if ltb (length buf) 5
    then stopped false
    else if is_implausible (length_of buf)
    then stopped true
    else if ltb (length buf) total
    then stopped false
    else before key (take total buf)
        (if type_of buf == ready_for_query then stopped true else later)

unfoldable pub scan_backend_startup : Bytes → CancelKey → Scan
scan_backend_startup buf replacement = scan_loop (length buf) replacement buf

-- The properties of an ErrorResponse, by their code, as they were set.
abbrev pub Fields : Type 0
Fields = List (ℕ × Text)

-- `fields[code] = value` and `fields[code]`: one entry for each code.
unfoldable pub set_field : ℕ → Text → Fields → Fields
set_field code value [] = (code, value) ∷ []
set_field code value ((c, v) ∷ fields) =
    if c == code then (c, value) ∷ fields else (c, v) ∷ set_field code value fields

unfoldable pub field : ℕ → Fields → Option Text
field code [] = none
field code ((c, v) ∷ fields) = if c == code then some v else field code fields

pub data BackendAnswer : Type 0 where
  incomplete answered : BackendAnswer
  not_ready : Text → BackendAnswer

abbrev pub cannot_connect_now : Text
cannot_connect_now = codes "57P03"

abbrev pub default_message : Text
default_message = codes "the database system cannot accept connections now"

module _ (encode : Text → Bytes) where
  abbrev pub field_bytes : ℕ → Text → Bytes
  field_bytes field_type value = field_type ∷ (encode value ++ 0 ∷ [])

  unfoldable pub error_response_body : Text → Text → Text → Bytes
  error_response_body severity code message =
      field_bytes b'S' severity
      ++ (field_bytes b'V' severity
          ++ (field_bytes b'C' code ++ (field_bytes b'M' message ++ 0 ∷ [])))

  unfoldable pub error_response : Text → Text → Text → Bytes
  error_response severity code message =
      let body = error_response_body severity code message in
      b'E' ∷ (int32 (4 + length body) ++ body)

-- An ErrorResponse that has arrived whole, by its fields.
unfoldable pub classify_fields : Fields → BackendAnswer
classify_fields fields = elim (field b'C' fields) [
  | none ↦ answered
  | some code ↦
      if not (text_eq code cannot_connect_now)
      then answered
      else not_ready (get_or_else (field b'M' fields) default_message)
]

module _ (decode : Bytes → Text) where
  unfoldable pub read_fields : ℕ → Bytes → Fields → Fields
  read_fields zero body fields = fields
  read_fields (suc fuel) [] fields = fields
  read_fields (suc fuel) (code ∷ rest) fields =
      if code == 0 then fields else elim (cut_at_zero rest) [
        | none ↦ fields
        | some (value, after_value) ↦
            read_fields fuel after_value (set_field code (decode value) fields)
      ]

  unfoldable pub error_response_fields : Bytes → Fields
  error_response_fields body = read_fields (length body) body []

  unfoldable pub classify_error : Bytes → BackendAnswer
  classify_error body = classify_fields (error_response_fields body)

  unfoldable pub classify_loop : ℕ → Bytes → BackendAnswer
  classify_loop zero buf = incomplete
  classify_loop (suc fuel) buf =
      let total = suc (length_of buf) in
      let later = classify_loop fuel (drop total buf) in
      if ltb (length buf) 5
      then incomplete
      else if is_implausible (length_of buf)
      then answered
      else if ltb (length buf) total
      then incomplete
      else if type_of buf == negotiate_protocol_version
      then later
      else if not (type_of buf == error_response_type)
      then answered
      else classify_error (drop 5 (take total buf))

  -- One round more than there are bytes, for the round that finds none left.
  unfoldable pub classify_backend_answer : Bytes → BackendAnswer
  classify_backend_answer buf = classify_loop (suc (length buf)) buf
