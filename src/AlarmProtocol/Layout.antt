-- ===== src/AlarmProtocol/Layout.antt =====
-- The envelope that `encode_alarm_frame` builds, as a concatenation of its fields.
use cpp_tlfss.Base.{
  ℕ, ◌+◌, ◌≡◌, refl, List, [], ◌∷◌, ◌++◌, arith, length, take, drop, ap, ◌∙◌, sym, true, replicate,
  replicate-add, copy_into, copy_into_at, length-replicate, append-nil, append_assoc, bit_xor,
  take-append, drop-append, length-append, take-length,
}
use cpp_tlfss.AlarmProtocol.Types.{AlarmFrame, alarm_magic, type_code, success, AlarmFrameType}
use cpp_tlfss.AlarmProtocol.Fields.{put_u16, put_u32, put_u64}
use cpp_tlfss.AlarmProtocol.Checksum.{crc32_update, crc32_initial, calculate_frame_crc}
use cpp_tlfss.AlarmProtocol.Frame.{
  frame_without_crc, encode_alarm_frame, validate_frame_description,
}

-- The bytes in front of the checksum.
abbrev pub prefix : AlarmFrame → List ℕ
prefix f =
    alarm_magic
    ++ (1 ∷ type_code f.type ∷ [])
    ++ put_u16 0
    ++ put_u32 (length f.payload)
    ++ put_u64 f.source_id
    ++ f.message_id
    ++ put_u64 f.timestamp_ms

-- The whole envelope with a given checksum.
abbrev pub layout : AlarmFrame → ℕ → List ℕ
layout f crc = prefix f ++ (put_u32 crc ++ f.payload)

-- The checksum of a frame: of the bytes in front of it, then of the payload.
abbrev pub frame_crc : AlarmFrame → ℕ
frame_crc f = bit_xor (crc32_update (crc32_update crc32_initial (prefix f)) f.payload) crc32_initial

module _ (type : AlarmFrameType) (source ts : ℕ) (payload : List ℕ) where
  abbrev with_id : List ℕ → AlarmFrame
  with_id mid = record {
    type = type;
    source_id = source;
    message_id = mid;
    timestamp_ms = ts;
    payload = payload;
  }

  length-with_id : (mid : List ℕ) → length mid ≡ 16 → length (prefix (with_id mid)) ≡ 44
  unfolding put_u16 put_u32 put_u64
  length-with_id (a ∷ b ∷ c ∷ d ∷ e ∷ f ∷ g ∷ h ∷ i ∷ j ∷ k ∷ l ∷ m ∷ n ∷ o ∷ p ∷ []) e16 = refl
  length-with_id mid e16 = absurd (omega arith)

  filled-with_id :
      (mid : List ℕ)
      → length mid ≡ 16
      → frame_without_crc (with_id mid)
        ≡ prefix (with_id mid) ++ (put_u32 0 ++ replicate (length payload) 0)
  unfolding put_u16 put_u32 put_u64 frame_without_crc
  filled-with_id (a ∷ b ∷ c ∷ d ∷ e ∷ f ∷ g ∷ h ∷ i ∷ j ∷ k ∷ l ∷ m ∷ n ∷ o ∷ p ∷ []) e16 =
      rw (replicate-add {A = ℕ} 48 (length payload) 0)
  filled-with_id mid e16 = absurd (omega arith)

  id-with_id :
      (mid rest : List ℕ) → length mid ≡ 16 → take 16 (drop 20 (prefix (with_id mid) ++ rest)) ≡ mid
  unfolding put_u16 put_u32 put_u64
  id-with_id (a ∷ b ∷ c ∷ d ∷ e ∷ f ∷ g ∷ h ∷ i ∷ j ∷ k ∷ l ∷ m ∷ n ∷ o ∷ p ∷ []) rest e16 = refl
  id-with_id mid rest e16 = absurd (omega arith)

  timestamp-with_id :
      (mid rest : List ℕ)
      → length mid ≡ 16
      → drop 36 (prefix (with_id mid) ++ rest) ≡ put_u64 ts ++ rest
  unfolding put_u16 put_u32 put_u64
  timestamp-with_id (a ∷ b ∷ c ∷ d ∷ e ∷ f ∷ g ∷ h ∷ i ∷ j ∷ k ∷ l ∷ m ∷ n ∷ o ∷ p ∷ []) rest e16 =
      refl
  timestamp-with_id mid rest e16 = absurd (omega arith)

pub length-prefix : (f : AlarmFrame) → length f.message_id ≡ 16 → length (prefix f) ≡ 44
length-prefix f = length-with_id f.type f.source_id f.timestamp_ms f.payload f.message_id

-- The three parts of an envelope: 44 bytes, the 4 bytes of the checksum, and the payload.
module _ (pre crc payload : List ℕ) (l44 : length pre ≡ 44) (l4 : length crc ≡ 4) where
  pub take-prefix : take 44 (pre ++ (crc ++ payload)) ≡ pre
  take-prefix = take-append 44 pre (crc ++ payload) l44

  pub drop-prefix : drop 44 (pre ++ (crc ++ payload)) ≡ crc ++ payload
  drop-prefix = drop-append 44 pre (crc ++ payload) l44

  pub drop-header : drop 48 (pre ++ (crc ++ payload)) ≡ payload
  drop-header =
      ap (drop 48) (sym (append_assoc pre crc payload))
      ∙ drop-append 48 (pre ++ crc) payload (omega (arith, length-append pre crc))

  -- A copy of a payload over the bytes behind the header.
  pub fill-header :
      (room : List ℕ)
      → length payload ≡ length room
      → copy_into (pre ++ (crc ++ room)) 48 payload ≡ pre ++ (crc ++ payload)
  fill-header room h =
      ap (λ l. copy_into l 48 payload) regroup
      ∙ copy_into_at 48 (pre ++ crc) room [] payload (omega (arith, length-append pre crc)) h
      ∙ ap (◌++◌ (pre ++ crc)) (append-nil payload)
      ∙ append_assoc pre crc payload
    where
      regroup : pre ++ (crc ++ room) ≡ (pre ++ crc) ++ (room ++ [])
      regroup = sym (append_assoc pre crc room) ∙ ap (◌++◌ (pre ++ crc)) (sym (append-nil room))

pub length-put_u32 : (v : ℕ) → length (put_u32 v) ≡ 4
unfolding put_u32
length-put_u32 v = refl

module _ (f : AlarmFrame) (mid : length f.message_id ≡ 16) where
  pub message_id-layout : (crc : ℕ) → take 16 (drop 20 (layout f crc)) ≡ f.message_id
  message_id-layout crc =
      id-with_id f.type f.source_id f.timestamp_ms f.payload f.message_id (put_u32 crc ++ f.payload)
        mid

  pub drop-timestamp :
      (crc : ℕ) → drop 36 (layout f crc) ≡ put_u64 f.timestamp_ms ++ (put_u32 crc ++ f.payload)
  drop-timestamp crc =
      timestamp-with_id f.type f.source_id f.timestamp_ms f.payload f.message_id
        (put_u32 crc ++ f.payload) mid

  pub length-layout : (crc : ℕ) → length (layout f crc) ≡ 48 + length f.payload
  length-layout crc = omega (
    arith,
    length-prefix f mid,
    length-append (prefix f) (put_u32 crc ++ f.payload),
    length-append (put_u32 crc) f.payload,
    length-put_u32 crc,
  )

  -- The checksum field takes no part in the checksum.
  pub calculate_frame_crc-layout :
      (crc : ℕ) → calculate_frame_crc (layout f crc) (length f.payload) ≡ frame_crc f
  unfolding calculate_frame_crc
  calculate_frame_crc-layout crc = rw (
    take-prefix (prefix f) (put_u32 crc) f.payload l44 (length-put_u32 crc),
    drop-header (prefix f) (put_u32 crc) f.payload l44 (length-put_u32 crc),
    take-length (length f.payload) f.payload (omega arith),
  )
    where
      l44 : length (prefix f) ≡ 44
      l44 = length-prefix f mid

  filled_lem : copy_into (frame_without_crc f) 48 f.payload ≡ layout f 0
  filled_lem =
      ap (λ l. copy_into l 48 f.payload)
        (filled-with_id f.type f.source_id f.timestamp_ms f.payload f.message_id mid)
      ∙ fill-header (prefix f) (put_u32 0) f.payload (length-prefix f mid) (length-put_u32 0) _
          (sym (length-replicate (length f.payload) 0))

  -- A frame that passes validation is encoded as its layout, with its checksum.
  pub encode-layout :
      validate_frame_description f.type (length f.payload) ≡ success
      → encode_alarm_frame true f ≡ record { status = success; bytes = layout f (frame_crc f) }
  unfolding encode_alarm_frame
  encode-layout ok =
      rw (ok, filled_lem, calculate_frame_crc-layout 0)
        (ap (λ l. record { status = success; bytes = l })
          (copy_into_at 44 (prefix f) (put_u32 0) f.payload (put_u32 (frame_crc f))
            (length-prefix f mid) (length-put_u32 (frame_crc f) ∙ sym (length-put_u32 0))))
