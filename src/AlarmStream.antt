-- ===== src/AlarmStream.antt =====
-- The decoder of a stream of alarm envelopes: inc/monitor/alarm_stream_decoder.h and
-- src/monitor/alarm_stream_decoder.cpp. A call returns its result and the decoder's new state.
-- `alloc k` tells whether the allocation numbered `k` of the call succeeds; a round of the loop has
-- four: the two insertions into the buffer, the decoding, and the addition of the frame.
pub mod Decoder
pub mod Spec
pub mod Rounds
pub mod Refine
pub mod Meaning
pub mod Feed
pub mod Wire
pub mod Invariant
pub mod Total
mod Tests
