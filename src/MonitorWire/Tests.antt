-- ===== src/MonitorWire/Tests.antt =====
-- Datagrams of concrete records.
use cpp_tlfss.Base.{◌≤◌, [], ◌∷◌, length, ◌≡◌, refl, arith, some, negsuc}
use cpp_tlfss.AlarmProtocol.Types.{bytes}
use cpp_tlfss.AlarmProtocol.Fields.{put_u32}
use cpp_tlfss.MonitorStore.Data.{numeric}
use cpp_tlfss.MonitorWire.Types.{v1, v2, success, WireRecord}
use cpp_tlfss.MonitorWire.Time.{
  split_timestamp, is_valid_nanoseconds, join_timestamp, join_timestamp-split,
}
use cpp_tlfss.MonitorWire.V2Header.{IsKey}
use cpp_tlfss.MonitorWire.V2Roundtrip.{v2_record, decode-encode_v2}
use cpp_tlfss.MonitorWire.V1Roundtrip.{v1_value_of, decode-encode_v1}
use cpp_tlfss.MonitorWire.V1.{v1_record}
use cpp_tlfss.MonitorWire.Size.{max_size, encode-size}
use cpp_tlfss.MonitorWire.Codec.{encode, decode}

-- A reading half a second before the epoch.
abbrev reading : WireRecord
reading = record {
  stored = record {
    key = record { mid = 1; level = 2; fid = 3; eid = 4 };
    description = 100 ∷ [];
    content = numeric (record { value = 80; state = 2 });
  };
  changed_at = negsuc 499999999;
}

reading_key : IsKey reading.stored.key
reading_key = record {
  mid = omega arith;
  level = omega arith;
  fid = omega arith;
  eid = omega arith;
}

reading_encoded : (encode reading v2).status ≡ success
unfolding encode put_u32 is_valid_nanoseconds split_timestamp
reading_encoded = refl

reading_v1_encoded : (encode reading v1).status ≡ success
unfolding encode
reading_v1_encoded = refl

decode-encode_v2_example : decode (bytes (encode reading v2).datagram) ≡ v2_record reading
decode-encode_v2_example =
    decode-encode_v2 reading reading_key (omega arith) (omega arith, omega arith) reading_encoded

decode-encode_v1_example :
    decode (bytes (encode reading v1).datagram)
    ≡ v1_record reading.stored.key (v1_value_of reading.stored.content)
decode-encode_v1_example =
    decode-encode_v1 reading reading_key (omega arith, omega arith) reading_v1_encoded

encode-size_example : length (encode reading v2).datagram ≤ max_size v2
encode-size_example = encode-size reading v2 (omega arith) reading_encoded

join_timestamp-split_example :
    join_timestamp
      (split_timestamp (negsuc 499999999)).seconds
      (split_timestamp (negsuc 499999999)).nanoseconds
    ≡ some (negsuc 499999999)
join_timestamp-split_example = join_timestamp-split (negsuc 499999999) (omega arith)
