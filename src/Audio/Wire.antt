-- ===== src/Audio/Wire.antt =====
-- src/sona/audio/ipc.py: the wire format of the audio helper, with its incremental decoder. A UUID
-- is its 16 bytes. Numbers are not negative, which `__post_init__` and `struct` both demand. JSON
-- text is Python's `json`: `dumps` and `loads` are parameters, and an object is an association
-- list of which only null and text are looked into.
pub mod Struct
mod Round
mod Stream
mod Accepts
mod Pcm
mod RoundTrip
mod Tests
use voice_realtime.Prelude.{
  zero, suc, ◌+◌, ◌^◌, ◌<◌, Bool, true, false, not, ◌&&◌, ◌||◌, List, [], ◌∷◌, ◌++◌, Option, none,
  some, ◌==◌, ltb, leb, if◌then◌else◌, length, take, drop, ℕ,
}
use voice_realtime.Prelude.Text.{Text}
use voice_realtime.Audio.Wire.Struct.{Bytes, pack, number, fields, concat}

pub data MessageType : Type 0 where
  json pcm : MessageType

pub data WireError : Type 0 where
  invalid_magic unsupported_protocol unsupported_message_type invalid_header : WireError
  frame_too_large invalid_pcm invalid_pcm_format invalid_frame_flags invalid_control : WireError
  -- `ValueError` of `PCMMessage`, and `struct.error` of a number that does not fit
  value_error struct_error : WireError

pub data Result {ℓ} (A : Type ℓ) : Type ℓ where
  ok : A → Result A
  raise : WireError → Result A

infixl 5 ◌>>◌
abbrev pub ◌>>◌ {ℓ} : {A : Type ℓ} → Result (Unit {0}) → Result A → Result A
ok u >> r = r
raise e >> r = raise e

abbrev pub reject_if : Bool → WireError → Result (Unit {0})
reject_if true e = raise e
reject_if false e = ok tt

pub record PcmMessage : Type 0 where
  pub capture_id : Bytes
  pub source_id : Bytes
  pub device_generation : ℕ
  pub sequence : ℕ
  pub host_time_ns : ℕ
  pub sample_rate : ℕ
  pub samples_per_channel : ℕ
  pub channels : ℕ
  pub sample_width : ℕ
  pub flags : ℕ
  pub payload : Bytes

pub data Item (X : Type 0) : Type 0 where
  null : Item X
  text : Text → Item X
  other : X → Item X

pub data Json (X : Type 0) : Type 0 where
  object : List (Text × Item X) → Json X
  plain : X → Json X

pub data Message (X : Type 0) : Type 0 where
  control_message : List (Text × Item X) → Message X
  pcm_message : PcmMessage → Message X

pub record Header : Type 0 where
  pub magic : Bytes
  pub header_length : ℕ
  pub major : ℕ
  pub minor : ℕ
  pub raw_message_type : ℕ
  pub prefix_flags : ℕ
  pub reserved : ℕ
  pub body_length : ℕ

abbrev pub protocol_magic : Bytes
protocol_magic = 86 ∷ 82 ∷ 65 ∷ 67 ∷ []

abbrev pub header_widths : List ℕ
header_widths = 4 ∷ 2 ∷ 1 ∷ 1 ∷ 1 ∷ 1 ∷ 2 ∷ 4 ∷ []

abbrev pub extension_widths : List ℕ
extension_widths = 16 ∷ 16 ∷ 4 ∷ 8 ∷ 8 ∷ 4 ∷ 2 ∷ 1 ∷ 1 ∷ 4 ∷ 4 ∷ []

unfoldable pub same_bytes : Bytes → Bytes → Bool
same_bytes [] [] = true
same_bytes (x ∷ xs) (y ∷ ys) = x == y && same_bytes xs ys
same_bytes _ _ = false

unfoldable pub nth : ℕ → List Bytes → Bytes
nth n [] = []
nth zero (f ∷ fs) = f
nth (suc n) (f ∷ fs) = nth n fs

-- The fields of a header, once it is unpacked.
unfoldable pub header_of : List Bytes → Header
unfolding nth
header_of fs = record {
  magic = nth 0 fs;
  header_length = number (nth 1 fs);
  major = number (nth 2 fs);
  minor = number (nth 3 fs);
  raw_message_type = number (nth 4 fs);
  prefix_flags = number (nth 5 fs);
  reserved = number (nth 6 fs);
  body_length = number (nth 7 fs);
}

pub message_type : ℕ → Result MessageType
message_type n =
    if n == 1 then ok json else (if n == 2 then ok pcm else raise unsupported_message_type)

pub minimum_header : MessageType → ℕ
minimum_header json = 16
minimum_header pcm = 84

pub check_body : MessageType → ℕ → Result MessageType
check_body json n = if ltb 65_536 n then raise frame_too_large else ok json
check_body pcm n = if not (n == 1_024) then raise invalid_pcm else ok pcm

pub check_length : Header → MessageType → Result MessageType
check_length h t = do
  reject_if (not (h.prefix_flags == 0) || not (h.reserved == 0)) invalid_header
  reject_if (ltb h.header_length (minimum_header t) || ltb 256 h.header_length) invalid_header
  reject_if (h.minor == 0 && not (h.header_length == minimum_header t)) invalid_header
  check_body t h.body_length

pub check_type : Header → Result MessageType → Result MessageType
check_type h (raise e) = raise e
check_type h (ok t) = check_length h t

-- `_validate_common_header`
pub validate_common_header : Header → Result MessageType
validate_common_header h = do
  reject_if (not (same_bytes h.magic protocol_magic)) invalid_magic
  reject_if (not (h.major == 1)) unsupported_protocol
  check_type h (message_type h.raw_message_type)

pub is_normalized : PcmMessage → Bool
is_normalized m =
    m.sample_rate == 16_000
    && m.samples_per_channel == 512
    && m.channels == 1
    && m.sample_width == 2

-- `PCMMessage.__post_init__`: of the flags, the three lowest bits are known.
pub post_init : PcmMessage → Result PcmMessage
post_init m = do
  reject_if (not (is_normalized m)) value_error
  reject_if (not (length m.payload == 1_024)) value_error
  reject_if (leb 8 m.flags) value_error
  ok m

pub pcm_of : List Bytes → Bytes → PcmMessage
unfolding nth
pcm_of fs body = record {
  capture_id = nth 0 fs;
  source_id = nth 1 fs;
  device_generation = number (nth 2 fs);
  sequence = number (nth 3 fs);
  host_time_ns = number (nth 4 fs);
  sample_rate = number (nth 5 fs);
  samples_per_channel = number (nth 6 fs);
  channels = number (nth 7 fs);
  sample_width = number (nth 8 fs);
  flags = number (nth 9 fs);
  payload = body;
}

pub built : {X : Type 0} → Result PcmMessage → Result (Message X)
built (ok m) = ok (pcm_message m)
built (raise e) = raise invalid_pcm

-- `_decode_pcm`, from the unpacked extension on.
pub decode_extension : {X : Type 0} → List Bytes → Bytes → ℕ → Result (Message X)
decode_extension fs body body_length = do
  reject_if (not (number (nth 10 fs) == body_length)) invalid_pcm
  reject_if (not (is_normalized (pcm_of fs body))) invalid_pcm_format
  reject_if (leb 8 (number (nth 9 fs))) invalid_frame_flags
  built (post_init (pcm_of fs body))

abbrev pub body_of : Bytes → ℕ → ℕ → Bytes
body_of frame header_length body_length = take body_length (drop header_length frame)

unfoldable pub decode_pcm : {X : Type 0} → Bytes → ℕ → ℕ → Result (Message X)
decode_pcm frame header_length body_length =
    decode_extension (fields extension_widths (drop 16 frame))
      (body_of frame header_length body_length) body_length

unfoldable pub common_header : ℕ → ℕ → ℕ → List Bytes
common_header header_length raw_type body_length =
    protocol_magic
    ∷ pack 2 header_length
    ∷ pack 1 1
    ∷ pack 1 0
    ∷ pack 1 raw_type
    ∷ pack 1 0
    ∷ pack 2 0
    ∷ pack 4 body_length
    ∷ []

unfoldable pub extension : PcmMessage → List Bytes
extension m =
    m.capture_id
    ∷ m.source_id
    ∷ pack 4 m.device_generation
    ∷ pack 8 m.sequence
    ∷ pack 8 m.host_time_ns
    ∷ pack 4 m.sample_rate
    ∷ pack 2 m.samples_per_channel
    ∷ pack 1 m.channels
    ∷ pack 1 m.sample_width
    ∷ pack 4 m.flags
    ∷ pack 4 (length m.payload)
    ∷ []

-- The numbers that `struct` packs of a message fit their fields.
pub fits : PcmMessage → Bool
fits m =
    ltb m.device_generation (256 ^ 4)
    && ltb m.sequence (256 ^ 8)
    && ltb m.host_time_ns (256 ^ 8)
    && ltb m.sample_rate (256 ^ 4)
    && ltb m.samples_per_channel (256 ^ 2)
    && ltb m.channels 256
    && ltb m.sample_width 256
    && ltb m.flags (256 ^ 4)
    && ltb (length m.payload) (256 ^ 4)

pub encode_pcm_message : PcmMessage → Result Bytes
encode_pcm_message m =
    if fits m
    then ok (concat (common_header 84 2 (length m.payload)) ++ concat (extension m) ++ m.payload)
    else raise struct_error

abbrev pub type_key : Text
type_key = 116 ∷ 121 ∷ 112 ∷ 101 ∷ []

abbrev pub request_id_key : Text
request_id_key = 114 ∷ 101 ∷ 113 ∷ 117 ∷ 101 ∷ 115 ∷ 116 ∷ 95 ∷ 105 ∷ 100 ∷ []

module _ {X : Type 0} where
  unfoldable pub get : Text → List (Text × Item X) → Item X
  get k [] = null
  get k ((l, v) ∷ r) = if same_bytes k l then v else get k r

  pub is_label : Item X → Bool
  is_label (text t) = leb 1 (length t) && leb (length t) 64
  is_label null = false
  is_label (other x) = false

  pub is_optional_label : Item X → Bool
  is_optional_label null = true
  is_optional_label (text t) = is_label (text t)
  is_optional_label (other x) = false

  -- `_validate_control_payload`; the keys of a parsed object are text.
  pub validate_control_payload : Json X → Result (List (Text × Item X))
  validate_control_payload (plain x) = raise invalid_control
  validate_control_payload (object o) = do
    reject_if (not (is_label (get type_key o))) invalid_control
    reject_if (not (is_optional_label (get request_id_key o))) invalid_control
    ok o

pub data Step (X : Type 0) : Type 0 where
  wait : Step X
  stop : WireError → Step X
  got : Message X → Bytes → Step X

module _ {X : Type 0} where
  pub controlled : Result (List (Text × Item X)) → Result (Message X)
  controlled (ok o) = ok (control_message o)
  controlled (raise e) = raise e

  pub delivered : Bytes → Result (Message X) → Step X
  delivered rest (ok m) = got m rest
  delivered rest (raise e) = stop e

  pub prepend : Message X → Result (List (Message X)) × Bytes → Result (List (Message X)) × Bytes
  prepend m (ok ms, b) = (ok (m ∷ ms), b)
  prepend m (raise e, b) = (raise e, b)

pub pack_control : Option Bytes → Result Bytes
pack_control none = raise invalid_control
pack_control (some body) =
    if ltb 65_536 (length body)
    then raise frame_too_large
    else ok (concat (common_header 16 1 (length body)) ++ body)

module _ {X : Type 0} (dumps : Json X → Option Bytes) where
  pub pack_validated : Result (List (Text × Item X)) → Result Bytes
  pack_validated (raise e) = raise e
  pack_validated (ok o) = pack_control (dumps (object o))

  pub encode_control_message : Json X → Result Bytes
  encode_control_message payload = pack_validated (validate_control_payload payload)

module _ {X : Type 0} (loads : Bytes → Option (Json X)) where
  pub loaded : Option (Json X) → Result (Message X)
  loaded none = raise invalid_control
  loaded (some j) = controlled (validate_control_payload j)

  -- `_decode_control`
  pub decode_control : Bytes → ℕ → ℕ → Result (Message X)
  decode_control frame header_length body_length =
      loaded (loads (body_of frame header_length body_length))

  pub decode : MessageType → Bytes → ℕ → ℕ → Result (Message X)
  decode json frame header_length body_length = decode_control frame header_length body_length
  decode pcm frame header_length body_length = decode_pcm frame header_length body_length

  -- A whole frame of `n` bytes, once its header is accepted.
  pub frame_step : MessageType → ℕ → ℕ → ℕ → Bytes → Step X
  frame_step t header_length body_length n buf =
      if ltb 1_048_576 n
      then stop frame_too_large
      else if ltb (length buf) n
      then wait
      else delivered (drop n buf) (decode t (take n buf) header_length body_length)

  pub after_header : Bytes → Header → Result MessageType → Step X
  after_header buf h (raise e) = stop e
  after_header buf h (ok t) =
      frame_step t h.header_length h.body_length (h.header_length + h.body_length) buf

  pub on_header : Bytes → Header → Step X
  on_header buf h = after_header buf h (validate_common_header h)

  -- One round of the loop of `feed`.
  pub next : Bytes → Step X
  next buf =
      if ltb (length buf) 16 then wait else on_header buf (header_of (fields header_widths buf))

  -- The loop of `feed`: the messages, or the error, and the buffer that it leaves.
  unfoldable pub drain : ℕ → Bytes → Result (List (Message X)) × Bytes
  drain zero buf = (ok [], buf)
  drain (suc n) buf = elim (next buf) [
    | wait ↦ (ok [], buf)
    | stop e ↦ (raise e, buf)
    | got m rest ↦ prepend m (drain n rest)
  ]

  pub feed : Bytes → Bytes → Result (List (Message X)) × Bytes
  feed buffer data_ = drain (length buffer + length data_) (buffer ++ data_)
