-- ===== src/AlarmProtocol/Roundtrip.antt =====
-- Decoding what `encode_alarm_frame` built.
use cpp_tlfss.Base.{
  ℕ, ◌+◌, ◌-◌, ◌^◌, ◌≤◌, ◌<◌, ◌≡◌, refl, List, [], ◌∷◌, ◌++◌, arith, length, drop, Bytes, ap, ◌∙◌,
  true, some, le→ltb, ==_refl, ◌&&◌, bit_xor-lt, IsByte, All-append, leb,
}
use cpp_tlfss.AlarmProtocol.Types.{
  AlarmFrame, alarm_magic, type_code, type_of_code, success, AlarmFrameType, alarm, ack, ping, pong,
  unnamed, bytes, size_success, encode_success,
}
use cpp_tlfss.AlarmProtocol.Fields.{put_u16, put_u32, put_u64, get_u16, get_u32, get_u64}
use cpp_tlfss.AlarmProtocol.FieldLaws.{get_u32-put_u32, get_u64-put_u64}
use cpp_tlfss.AlarmProtocol.Checksum.{crc32_update, crc32_initial}
use cpp_tlfss.AlarmProtocol.ChecksumLaws.{crc32_update-lt}
use cpp_tlfss.AlarmProtocol.Frame.{
  encode_alarm_frame, validate_frame_description, header_frame_size, alarm_frame_size,
  decode_alarm_frame, decode_sized, read_frame, has_valid_magic, is_valid_raw_type,
}
use cpp_tlfss.AlarmProtocol.Layout.{
  layout, prefix, frame_crc, encode-layout, length-layout, length-prefix,
  calculate_frame_crc-layout, drop-header, drop-prefix, length-put_u32, message_id-layout,
  drop-timestamp,
}

-- The values that the fields of a frame can hold: a 16-byte id, 64-bit integers, and bytes.
pub record IsFrame (f : AlarmFrame) : Type 0 where
  pub id_size : length f.message_id ≡ 16
  pub id_bytes : Bytes f.message_id
  pub source_u64 : f.source_id < 2 ^ 64
  pub timestamp_u64 : f.timestamp_ms < 2 ^ 64
  pub payload_bytes : Bytes f.payload

-- What validation lets through.
pub validate-type :
    (t : AlarmFrameType) (n : ℕ)
    → validate_frame_description t n ≡ success
    → (type_of_code (type_code t) ≡ t)
      × (is_valid_raw_type (type_code t) ≡ true)
      × (n ≤ 4096)
      × (type_code t < 256)
unfolding validate_frame_description type_of_code type_code is_valid_raw_type
validate-type alarm n h = ground arith
validate-type ack n h = ground arith
validate-type ping n h = ground arith
validate-type pong n h = ground arith
validate-type (unnamed c) n h = ground arith

module _ (f : AlarmFrame) (v : IsFrame f) (crc : ℕ) where
  length_field : length f.payload ≤ 4096 → get_u32 (drop 8 (layout f crc)) ≡ length f.payload
  unfolding put_u16 put_u32 put_u64
  length_field h =
      get_u32-put_u32 (length f.payload)
        ((put_u64 f.source_id ++ f.message_id ++ put_u64 f.timestamp_ms)
          ++ (put_u32 crc ++ f.payload))
        (omega arith)

  source_field : get_u64 (drop 12 (layout f crc)) ≡ f.source_id
  unfolding put_u16 put_u32 put_u64
  source_field =
      get_u64-put_u64 f.source_id
        ((f.message_id ++ put_u64 f.timestamp_ms) ++ (put_u32 crc ++ f.payload)) v.source_u64

  timestamp_field : get_u64 (drop 36 (layout f crc)) ≡ f.timestamp_ms
  timestamp_field =
      ap get_u64 (drop-timestamp f v.id_size crc)
      ∙ get_u64-put_u64 f.timestamp_ms (put_u32 crc ++ f.payload) v.timestamp_u64

  crc_field : crc < 2 ^ 32 → get_u32 (drop 44 (layout f crc)) ≡ crc
  crc_field h =
      ap get_u32 (
        drop-prefix (prefix f) (put_u32 crc) f.payload (length-prefix f v.id_size)
          (length-put_u32 crc))
      ∙ get_u32-put_u32 crc f.payload h

  flags_field : get_u16 (drop 6 (layout f crc)) ≡ 0
  unfolding put_u16 get_u16
  flags_field = refl

  payload_field : drop 48 (layout f crc) ≡ f.payload
  payload_field =
      drop-header (prefix f) (put_u32 crc) f.payload (length-prefix f v.id_size)
        (length-put_u32 crc)

  -- Every field is read back.
  read_frame-layout : type_of_code (type_code f.type) ≡ f.type → read_frame (layout f crc) ≡ f
  unfolding read_frame
  read_frame-layout t = λ i. record {
    type = t i;
    source_id = source_field i;
    message_id = message_id-layout f v.id_size crc i;
    timestamp_ms = timestamp_field i;
    payload = payload_field i;
  }

  -- The header announces the length of the envelope.
  pub header_frame_size-layout :
      validate_frame_description f.type (length f.payload) ≡ success
      → header_frame_size (layout f crc)
        ≡ record { status = success; frame_size = some (48 + length f.payload) }
  unfolding header_frame_size has_valid_magic
  header_frame_size-layout ok = rw (
    le→ltb (length (layout f crc)) 48 (omega (arith, length-layout f v.id_size crc)),
    ts.1,
    flags_field,
    length_field ts.2,
    ts.0,
    ok,
  )
    where
      ts :
          (type_of_code (type_code f.type) ≡ f.type)
          × (is_valid_raw_type (type_code f.type) ≡ true)
          × (length f.payload ≤ 4096)
          × (type_code f.type < 256)
      ts = validate-type f.type (length f.payload) ok

pub sized : (n : ℕ) → n ≤ 4096 → leb 48 (48 + n) && leb (48 + n) 4144 ≡ true
sized n h = ground arith

put_u64-Bytes : (w : ℕ) → Bytes (put_u64 w)
unfolding put_u64
put_u64-Bytes w = omega arith

front : AlarmFrame → List ℕ
front f = alarm_magic ++ (1 ∷ type_code f.type ∷ []) ++ put_u16 0 ++ put_u32 (length f.payload)

front-Bytes : (f : AlarmFrame) → type_code f.type < 256 → Bytes (front f)
unfolding front put_u16 put_u32
front-Bytes f h = omega arith

prefix-Bytes : (f : AlarmFrame) → IsFrame f → type_code f.type < 256 → Bytes (prefix f)
unfolding front
prefix-Bytes f v h =
    All-append IsByte (front f ++ put_u64 f.source_id ++ f.message_id) (put_u64 f.timestamp_ms)
      (All-append IsByte (front f ++ put_u64 f.source_id) f.message_id
        (All-append IsByte (front f) (put_u64 f.source_id) (front-Bytes f h)
          (put_u64-Bytes f.source_id))
        v.id_bytes)
      (put_u64-Bytes f.timestamp_ms)

frame_crc-lt : (f : AlarmFrame) → IsFrame f → type_code f.type < 256 → frame_crc f < 2 ^ 32
frame_crc-lt f v h =
    bit_xor-lt 32 (crc32_update (crc32_update crc32_initial (prefix f)) f.payload) crc32_initial
      (crc32_update-lt _ f.payload
        (crc32_update-lt crc32_initial (prefix f) (omega arith) (prefix-Bytes f v h))
        v.payload_bytes)
      (omega arith)

module _ (f : AlarmFrame) (v : IsFrame f) where
  pub decode-layout :
      validate_frame_description f.type (length f.payload) ≡ success
      → decode_alarm_frame true (bytes (layout f (frame_crc f)))
        ≡ record { status = success; frame = some f }
  unfolding decode_alarm_frame decode_sized alarm_frame_size size_success
  decode-layout ok =
      rw (header_frame_size-layout f v (frame_crc f) ok, sized (length f.payload) fits)
        (rw (
          length-layout f v.id_size (frame_crc f),
          ==_refl (48 + length f.payload),
          payload_size,
          calculate_frame_crc-layout f v.id_size (frame_crc f),
          crc_field f v (frame_crc f)
              (frame_crc-lt f v (validate-type f.type (length f.payload) ok).3),
          ==_refl (frame_crc f),
          read_frame-layout f v (frame_crc f) named,
        ))
    where
      fits : length f.payload ≤ 4096
      fits = (validate-type f.type (length f.payload) ok).2

      named : type_of_code (type_code f.type) ≡ f.type
      named = (validate-type f.type (length f.payload) ok).0

      payload_size : 48 + length f.payload - 48 ≡ length f.payload
      payload_size = omega arith

encoded-size :
    (f : AlarmFrame)
    → IsFrame f
    → length f.payload ≤ 4096
    → leb 48 (length (layout f (frame_crc f))) && leb (length (layout f (frame_crc f))) 4144 ≡ true
encoded-size f v h = rw (length-layout f v.id_size (frame_crc f)) (sized (length f.payload) h)

-- Decoding an encoding gives the frame back. A frame with a 16-byte id, 64-bit source and time and a
-- payload of bytes that passes validation is encoded with success, and the bytes are decoded with
-- success to that frame, whatever the bytes of the payload are: the code does not look at them, and
-- a caller that wants a payload of Monitor Wire has to decode it. All allocations succeed.
pub decode-encode :
    (f : AlarmFrame)
    → IsFrame f
    → validate_frame_description f.type (length f.payload) ≡ success
    → (encode_success (encode_alarm_frame true f) ≡ true)
      × (decode_alarm_frame true (bytes (encode_alarm_frame true f).bytes)
          ≡ record { status = success; frame = some f })
unfolding encode_success
decode-encode f v ok = (
  ap encode_success encoded ∙ encoded-size f v (validate-type f.type (length f.payload) ok).2,
  ap (λ r. decode_alarm_frame true (bytes r.bytes)) encoded ∙ decode-layout f v ok,
)
  where
    encoded :
        encode_alarm_frame true f ≡ record { status = success; bytes = layout f (frame_crc f) }
    encoded = encode-layout f v.id_size ok
