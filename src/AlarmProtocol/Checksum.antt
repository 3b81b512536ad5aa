-- ===== src/AlarmProtocol/Checksum.antt =====
-- The CRC32 of src/monitor/alarm_protocol.cpp.
use cpp_tlfss.Base.{
  ℕ, zero, suc, ◌/◌, ◌%◌, bit_and, bit_xor, List, [], ◌∷◌, ◌==◌, if◌then◌else◌, take, drop,
}
use cpp_tlfss.AlarmProtocol.Offset
use cpp_tlfss.AlarmProtocol.Types.{Input, null, bytes, alarm_header_size}

abbrev pub crc32_initial : ℕ
crc32_initial = 0xffff_ffff

abbrev pub crc32_polynomial : ℕ
crc32_polynomial = 0xedb8_8320

-- One round of the inner loop: the mask is all ones if the low bit is set, and 0 otherwise.
unfoldable pub crc32_bit : ℕ → ℕ
crc32_bit crc =
    let mask = if crc % 2 == 1 then 0xffff_ffff else 0 in
    bit_xor (crc / 2) (bit_and crc32_polynomial mask)

unfoldable pub crc32_bits : ℕ → ℕ → ℕ
crc32_bits zero crc = crc
crc32_bits (suc n) crc = crc32_bits n (crc32_bit crc)

unfoldable pub crc32_update : ℕ → List ℕ → ℕ
crc32_update crc [] = crc
crc32_update crc (b ∷ bs) = crc32_update (crc32_bits 8 (bit_xor crc b)) bs

unfoldable pub calculate_frame_crc : List ℕ → ℕ → ℕ
calculate_frame_crc xs payload_size =
    let crc = crc32_update crc32_initial (take Offset.crc32 xs) in
    bit_xor (crc32_update crc (take payload_size (drop alarm_header_size xs))) crc32_initial

unfoldable pub alarm_crc32 : Input → ℕ
alarm_crc32 (null zero) = bit_xor crc32_initial crc32_initial
alarm_crc32 (null (suc _)) = 0
alarm_crc32 (bytes xs) = bit_xor (crc32_update crc32_initial xs) crc32_initial
