-- ===== src/AlarmStream/Tests.antt =====
-- Runs of the stream decoder, and its theorems at concrete inputs.
use cpp_tlfss.Base.{
  ℕ, ◌<◌, ◌≡◌, refl, Bool, true, false, some, none, [], ◌∷◌, ◌++◌, arith, length, take,
}
use cpp_tlfss.AlarmProtocol.Types.{null, bytes}
use cpp_tlfss.AlarmProtocol.Frame.{encode_alarm_frame, validate_frame_description}
use cpp_tlfss.AlarmProtocol.Fields.{put_u16, put_u32, put_u64}
use cpp_tlfss.AlarmProtocol.Tests.{sample, sample-IsFrame, sample_valid}
use cpp_tlfss.AlarmStream.Decoder.{
  invalid_input, AlarmStreamDecoder, AlarmStreamFeedResult, Reply, fresh, feed, feed_loop,
  feed_success, finish, conclude, round, header_step, success, need_more_data,
}
use cpp_tlfss.AlarmStream.Rounds.{all_granted}
use cpp_tlfss.AlarmStream.Refine.{in_header}
use cpp_tlfss.AlarmStream.Feed.{IsWorking, joined, feed-append}
use cpp_tlfss.AlarmStream.Wire.{IsSendable, wire, feed-wire, finish-truncated}
use cpp_tlfss.AlarmStream.Invariant.{IsValid, working}
use cpp_tlfss.AlarmStream.Total.{feed-IsValid}

sample-IsSendable : IsSendable sample
sample-IsSendable = record { fits = sample-IsFrame; valid = sample_valid }

abbrev half : AlarmStreamDecoder
half = record fresh { buffer = b'S' ∷ b'M' ∷ [] }

abbrev more : AlarmStreamDecoder
more = record fresh { buffer = b'S' ∷ b'M' ∷ b'A' ∷ [] }

abbrev waits : AlarmStreamFeedResult
waits = record { status = need_more_data; frames = []; protocol_status = none }

first_call : feed all_granted fresh (bytes (b'S' ∷ b'M' ∷ [])) ≡ some (waits, half)
unfolding feed feed_loop round header_step conclude
first_call = refl

second_call : feed all_granted half (bytes (b'A' ∷ [])) ≡ some (waits, more)
unfolding feed feed_loop round header_step conclude
second_call = refl

-- A failed call leaves the state of an invalid input alone.
null_input :
    feed all_granted half (null 3)
    ≡ some (record { status = invalid_input; frames = []; protocol_status = none }, half)
unfolding feed
null_input = refl

fresh-IsWorking : IsWorking fresh
fresh-IsWorking = record { alive = refl; ready = in_header (omega arith) }

feed-append_example :
    feed all_granted fresh (bytes (b'S' ∷ b'M' ∷ b'A' ∷ [])) ≡ some (joined waits (waits, more))
unfolding feed_success
feed-append_example =
    feed-append fresh half (b'S' ∷ b'M' ∷ []) (b'A' ∷ []) waits (waits, more) fresh-IsWorking
      first_call refl second_call

feed-wire_example :
    feed all_granted fresh (bytes (wire (sample ∷ sample ∷ [])))
    ≡ some
        (record { status = success; frames = sample ∷ sample ∷ []; protocol_status = none }, fresh)
feed-wire_example = feed-wire (sample ∷ sample ∷ []) (sample-IsSendable, (sample-IsSendable, tt))

sample_size : 20 < length (encode_alarm_frame true sample).bytes
unfolding encode_alarm_frame validate_frame_description put_u16 put_u32 put_u64
sample_size = omega arith

finish-truncated_example :
    (d : AlarmStreamDecoder) × (feed all_granted fresh
        (bytes (wire (sample ∷ []) ++ take 20 (encode_alarm_frame true sample).bytes))
      ≡ some (record { status = need_more_data; frames = sample ∷ []; protocol_status = none }, d))
    × (feed_success (finish d).0 ≡ false)
finish-truncated_example =
    finish-truncated (sample ∷ []) sample 19 (sample-IsSendable, tt) sample-IsSendable sample_size

refuse_first : ℕ → Bool
refuse_first k = false

feed-IsValid_example :
    (t : Reply) × (feed refuse_first half (bytes (b'A' ∷ [])) ≡ some t)
    × IsValid t.1
    × (length t.1.buffer < 4144)
feed-IsValid_example =
    feed-IsValid refuse_first half (bytes (b'A' ∷ [])) (working refl (in_header (omega arith)))
