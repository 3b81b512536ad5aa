-- ===== src/AlarmStream/Decoder.antt =====
-- `AlarmStreamDecoder` of src/monitor/alarm_stream_decoder.cpp: its state, and feed, finish and reset.
use cpp_tlfss.Base.{
  ℕ, zero, suc, ◌+◌, ◌-◌, ◌*◌, min, Bool, true, false, not, Option, none, some, List, [], ◌∷◌, ◌++◌,
  ltb, if◌then◌else◌, length, take, drop, is_empty,
}
use cpp_tlfss.AlarmProtocol.Types.{
  Input, null, bytes, AlarmFrame, AlarmProtocolStatus, short_header, invalid_total_length,
  AlarmFrameSizeResult, AlarmDecodeResult, alarm_header_size, alarm_max_frame_size, size_success,
  decode_success,
}
use cpp_tlfss.AlarmProtocol.Types
use cpp_tlfss.AlarmProtocol.Frame.{alarm_frame_size, decode_alarm_frame}

abbrev pub alarm_stream_buffer_limit : ℕ
alarm_stream_buffer_limit = alarm_max_frame_size

pub data AlarmStreamStatus : Type 0 where
  success need_more_data invalid_input protocol_error buffer_limit_exceeded : AlarmStreamStatus
  allocation_failed already_failed : AlarmStreamStatus

pub record AlarmStreamFeedResult : Type 0 where
  pub status : AlarmStreamStatus
  pub frames : List AlarmFrame
  pub protocol_status : Option AlarmProtocolStatus

unfoldable pub feed_success : AlarmStreamFeedResult → Bool
feed_success r = elim r.status [ success ↦ true | need_more_data ↦ true | _ ↦ false ]

pub record AlarmStreamDecoder : Type 0 where
  pub buffer : List ℕ
  pub expected_frame_size : Option ℕ
  pub failed : Bool
  pub failure_status : AlarmStreamStatus
  pub protocol_error : Option AlarmProtocolStatus

-- What the default member initialisers give, and `reset` restores.
abbrev pub fresh : AlarmStreamDecoder
fresh = record {
  buffer = [];
  expected_frame_size = none;
  failed = false;
  failure_status = success;
  protocol_error = none;
}

abbrev pub Reply : Type 0
Reply = AlarmStreamFeedResult × AlarmStreamDecoder

unfoldable pub fail_protocol : AlarmStreamDecoder → AlarmProtocolStatus → List AlarmFrame → Reply
fail_protocol d s completed = (
  record { status = protocol_error; frames = completed; protocol_status = some s },
  record d {
    failed = true;
    failure_status = protocol_error;
    protocol_error = some s;
    buffer = [];
    expected_frame_size = none;
  },
)

unfoldable pub fail_stream : AlarmStreamDecoder → AlarmStreamStatus → List AlarmFrame → Reply
fail_stream d s completed = (
  record { status = s; frames = completed; protocol_status = none },
  record d {
    failed = true;
    failure_status = s;
    protocol_error = none;
    buffer = [];
    expected_frame_size = none;
  },
)

-- How a part of a round ends: with a `return`, with a `break`, or by going on with the bytes that
-- are left, and in the second part with the frames that are complete.
pub data Step : Type 0 where
  halt : Reply → Step
  leave : AlarmStreamDecoder → Step
  go : AlarmStreamDecoder → List ℕ → List AlarmFrame → Step

-- The first part of a round: the header is completed and its frame size taken.
unfoldable pub header_step : Bool → AlarmStreamDecoder → List ℕ → List AlarmFrame → Step
unfolding fail_protocol fail_stream
header_step alloc d rest completed = elim d.expected_frame_size [
  | some n ↦ go d rest completed
  | none ↦
      if not alloc
      then halt (fail_stream d allocation_failed completed)
      else if ltb (length buffer) alarm_header_size
      then leave (record d { buffer = buffer })
      else if not (size_success size_result)
      then halt (fail_protocol d size_result.status completed)
      else elim size_result.frame_size [
        | none ↦ halt (fail_protocol d size_result.status completed)
        | some n ↦
            if ltb alarm_stream_buffer_limit n
            then halt (fail_stream d buffer_limit_exceeded completed)
            else go (record d { buffer = buffer; expected_frame_size = some n }) (drop count rest)
                completed
      ]
]
  where
    count : ℕ
    count = min (alarm_header_size - length d.buffer) (length rest)

    buffer : List ℕ
    buffer = d.buffer ++ take count rest

    size_result : AlarmFrameSizeResult
    size_result = alarm_frame_size (bytes buffer)

-- A frame that is not decoded: a failed allocation is not an error of the peer.
unfoldable pub decode_failure : AlarmStreamDecoder → AlarmProtocolStatus → List AlarmFrame → Reply
decode_failure d s completed = elim s [
  | Types.allocation_failed ↦ fail_stream d allocation_failed completed
  | s' ↦ fail_protocol d s' completed
]

-- The second part: the frame is completed, decoded and delivered.
unfoldable pub payload_step :
    Bool → Bool → Bool → ℕ → AlarmStreamDecoder → List ℕ → List AlarmFrame → Step
unfolding fail_protocol fail_stream
payload_step alloc alloc_frame alloc_push n d rest completed =
    if not alloc
    then halt (fail_stream d allocation_failed completed)
    else if ltb (length buffer) n
    then leave (record d { buffer = buffer })
    else if ltb alarm_stream_buffer_limit (length buffer)
    then halt (fail_stream d buffer_limit_exceeded completed)
    else if not (decode_success decoded)
    then halt (decode_failure d decoded.status completed)
    else elim decoded.frame [
      | none ↦ halt (fail_protocol d decoded.status completed)
      | some f ↦
          if not alloc_push
          then halt (fail_stream d allocation_failed completed)
          else go (record d { buffer = []; expected_frame_size = none }) (drop count rest)
              (completed ++ (f ∷ []))
    ]
  where
    count : ℕ
    count = min (n - length d.buffer) (length rest)

    buffer : List ℕ
    buffer = d.buffer ++ take count rest

    decoded : AlarmDecodeResult
    decoded = decode_alarm_frame alloc_frame (bytes buffer)

-- A round of the loop, the one numbered `i`.
unfoldable pub round : (ℕ → Bool) → ℕ → AlarmStreamDecoder → List ℕ → List AlarmFrame → Step
round alloc i d rest completed = elim (header_step (alloc (4 * i)) d rest completed) [
  | go d' rest' completed' ↦ elim d'.expected_frame_size [
    | none ↦ leave d'
    | some n ↦
        payload_step (alloc (4 * i + 1)) (alloc (4 * i + 2)) (alloc (4 * i + 3)) n d' rest'
          completed'
  ]
  | leave d' ↦ leave d'
  | halt r ↦ halt r
]

-- What `feed` returns behind its loop.
unfoldable pub conclude : AlarmStreamDecoder → List AlarmFrame → Reply
conclude d completed = (
  record {
    status = if is_empty d.buffer then success else need_more_data;
    frames = completed;
    protocol_status = none;
  },
  d,
)

-- `while (cursor < size)` with fuel; `none` means that the fuel ran out.
unfoldable pub feed_loop :
    ℕ → (ℕ → Bool) → ℕ → AlarmStreamDecoder → List ℕ → List AlarmFrame → Option Reply
feed_loop fuel alloc i d [] completed = some (conclude d completed)
feed_loop zero alloc i d (b ∷ rest) completed = none
feed_loop (suc fuel) alloc i d (b ∷ rest) completed = elim (round alloc i d (b ∷ rest) completed) [
  | halt r ↦ some r
  | leave d' ↦ some (conclude d' completed)
  | go d' rest' completed' ↦ feed_loop fuel alloc (i + 1) d' rest' completed'
]

abbrev pub already : AlarmStreamDecoder → Reply
already d = (record { status = already_failed; frames = []; protocol_status = d.protocol_error }, d)

unfoldable pub feed : (ℕ → Bool) → AlarmStreamDecoder → Input → Option Reply
feed alloc d input = if d.failed then some (already d) else elim input [
  | null zero ↦ feed_loop 0 alloc 0 d [] []
  | null (suc _) ↦ some (record { status = invalid_input; frames = []; protocol_status = none }, d)
  | bytes xs ↦ feed_loop (length xs) alloc 0 d xs []
]

unfoldable pub finish : AlarmStreamDecoder → Reply
unfolding fail_protocol
finish d =
    if d.failed
    then already d
    else if is_empty d.buffer
    then (record { status = success; frames = []; protocol_status = none }, d)
    else if ltb (length d.buffer) alarm_header_size
    then fail_protocol d short_header []
    else fail_protocol d invalid_total_length []

unfoldable pub reset : AlarmStreamDecoder → AlarmStreamDecoder
reset d = record d {
  buffer = [];
  expected_frame_size = none;
  failed = false;
  failure_status = success;
  protocol_error = none;
}
