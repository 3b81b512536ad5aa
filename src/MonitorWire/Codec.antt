-- ===== src/MonitorWire/Codec.antt =====
-- `encode` and `decode`: the version decides.
use cpp_tlfss.Base.{[], ◌∷◌, ◌==◌, if◌then◌else◌}
use cpp_tlfss.AlarmProtocol.Types.{Input, null, bytes}
use cpp_tlfss.MonitorWire.Types.{
  WireVersion, v1, v2, version_code, empty_input, wrong_version, WireRecord, EncodeResult,
  DecodeResult, make_decode_error,
}
use cpp_tlfss.MonitorWire.V1.{encode_v1, decode_v1}
use cpp_tlfss.MonitorWire.V2.{encode_v2, decode_v2}

unfoldable pub encode : WireRecord → WireVersion → EncodeResult
unfolding encode_v1 encode_v2
encode r v1 = encode_v1 r
encode r v2 = encode_v2 r

unfoldable pub decode : Input → DecodeResult
unfolding decode_v1 decode_v2
decode (null _) = make_decode_error empty_input
decode (bytes []) = make_decode_error empty_input
decode (bytes (x ∷ xs)) =
    if x == version_code v1
    then decode_v1 (bytes (x ∷ xs))
    else if x == version_code v2
    then decode_v2 (bytes (x ∷ xs))
    else make_decode_error wrong_version
