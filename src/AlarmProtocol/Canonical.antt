-- ===== src/AlarmProtocol/Canonical.antt =====
-- What `decode_alarm_frame` accepts, against what `encode_alarm_frame` builds.
use cpp_tlfss.Base.{
  ℕ, ◌+◌, ◌-◌, ◌≤◌, ◌≡◌, List, [], ◌∷◌, arith, length, get_or, drop, sym, true, Bool, some, ◌≢◌,
  inl, inr, Option-cases, subst,
}
use cpp_tlfss.AlarmProtocol.Types.{
  AlarmFrame, type_of_code, success, AlarmFrameType, is_success, allocation_failed,
  AlarmProtocolStatus, bytes, size_success,
}
use cpp_tlfss.AlarmProtocol.Fields.{get_u16, get_u32}
use cpp_tlfss.AlarmProtocol.Checksum.{calculate_frame_crc}
use cpp_tlfss.AlarmProtocol.Frame.{
  validate_frame_description, header_frame_size, alarm_frame_size, decode_alarm_frame, decode_sized,
  read_frame, has_valid_magic, is_valid_raw_type,
}

is_success→eq : (s : AlarmProtocolStatus) → is_success s ≡ true → s ≡ success
is_success→eq s h = ground arith

-- What the header of an accepted buffer says.
pub record Header (xs : List ℕ) (n : ℕ) : Type 0 where
  pub whole : 48 ≤ length xs
  pub magic : has_valid_magic xs ≡ true
  pub version : get_or xs 4 0 ≡ 1
  pub type : is_valid_raw_type (get_or xs 5 0) ≡ true
  pub flags : get_u16 (drop 6 xs) ≡ 0
  pub valid :
      validate_frame_description (type_of_code (get_or xs 5 0)) (get_u32 (drop 8 xs)) ≡ success
  pub size : n ≡ 48 + get_u32 (drop 8 xs)

pub header-Header :
    (xs : List ℕ) (n : ℕ)
    → (header_frame_size xs).status ≡ success
    → (header_frame_size xs).frame_size ≡ some n
    → Header xs n
unfolding header_frame_size
header-Header xs n h e = ground (
  arith,
  is_success→eq (validate_frame_description (type_of_code (get_or xs 5 0)) (get_u32 (drop 8 xs))),
)

validate-granted : (t : AlarmFrameType) (n : ℕ) → validate_frame_description t n ≢ allocation_failed
unfolding validate_frame_description
validate-granted t n h = ground arith

header-granted : (xs : List ℕ) → (header_frame_size xs).status ≢ allocation_failed
unfolding header_frame_size
header-granted xs h =
    ground (arith, validate-granted (type_of_code (get_or xs 5 0)) (get_u32 (drop 8 xs)))

sized-granted : (xs : List ℕ) (n : ℕ) → (decode_sized true xs n).status ≢ allocation_failed
unfolding decode_sized
sized-granted xs n h = ground arith

-- Decoding reports a failed allocation only if one has failed.
pub decode-granted : (xs : List ℕ) → (decode_alarm_frame true (bytes xs)).status ≢ allocation_failed
unfolding decode_alarm_frame alarm_frame_size
decode-granted [] h = ground arith
decode-granted (b ∷ bs) h = elim (Option-cases (header_frame_size (b ∷ bs)).frame_size) [
  | inl p ↦ ground (arith, header-granted (b ∷ bs))
  | inr (n, p) ↦ ground (arith, header-granted (b ∷ bs), sized-granted (b ∷ bs) n)
]

pub record Accepted (xs : List ℕ) : Type 0 where
  pub header : Header xs (length xs)
  pub crc : get_u32 (drop 44 xs) ≡ calculate_frame_crc xs (length xs - 48)

sized_lem :
    (alloc : Bool) (xs : List ℕ) (n : ℕ) (f : AlarmFrame)
    → Header xs n
    → (decode_sized alloc xs n).frame ≡ some f
    → (length xs ≡ n)
      × (get_u32 (drop 44 xs) ≡ calculate_frame_crc xs (length xs - 48))
      × (f ≡ read_frame xs)
unfolding decode_sized
sized_lem alloc xs n f h e = ground arith

-- A frame comes out only behind a successful frame size.
decode-sized :
    (alloc : Bool) (b : ℕ) (bs : List ℕ) (f : AlarmFrame)
    → (decode_alarm_frame alloc (bytes (b ∷ bs))).frame ≡ some f
    → (n : ℕ) × ((header_frame_size (b ∷ bs)).status ≡ success)
      × ((header_frame_size (b ∷ bs)).frame_size ≡ some n)
      × ((decode_sized alloc (b ∷ bs) n).frame ≡ some f)
unfolding decode_alarm_frame alarm_frame_size size_success
decode-sized alloc b bs f e = elim (Option-cases (header_frame_size (b ∷ bs)).frame_size) [
  | inl p ↦ absurd (ground arith)
  | inr (n, p) ↦
      (n, is_success→eq (header_frame_size (b ∷ bs)).status (ground arith), p, ground arith)
]

-- Whatever is decoded has a sound header, the announced length and the announced checksum, and the
-- frame is the one that its fields spell.
pub decode-Accepted :
    (alloc : Bool) (xs : List ℕ) (f : AlarmFrame)
    → (decode_alarm_frame alloc (bytes xs)).frame ≡ some f
    → Accepted xs × (f ≡ read_frame xs)
unfolding decode_alarm_frame alarm_frame_size size_success
decode-Accepted alloc [] f e = cc
decode-Accepted alloc (b ∷ bs) f e =
    let (n, s, p, q) = decode-sized alloc b bs f e in
    let h = header-Header (b ∷ bs) n s p in
    let (l, c, r) = sized_lem alloc (b ∷ bs) n f h q in
    (record { header = subst (Header (b ∷ bs)) (sym l) h; crc = c }, r)
