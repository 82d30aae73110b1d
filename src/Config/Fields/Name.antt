-- ===== src/Config/Fields/Name.antt =====
-- What `od_config_name` builds.
use greentags_lt213a_opendis.Prelude.{
  Bool-cases, List, Option, [], arith, bit_and, byte, drop, if◌then◌else◌, inl, inr, length,
  length-append, length-take, ltb, ltb→lt, none, refl, some, suc, take, zero, ℕ, ℕ_discrete, ◌!=◌,
  ◌%◌, ◌*◌, ◌++◌, ◌+◌, ◌-◌, ◌/◌, ◌<◌, ◌==◌, ◌^◌, ◌∷◌, ◌≡◌, ◌≢◌, ◌≤◌, ◌⊎◌,
}
use greentags_lt213a_opendis.Config.Packets.{config_packet}
use greentags_lt213a_opendis.Config.Fields.{
  name_max, name_prefix, strlen, trim, serial_length, hex_digit, hex_digits, name_of, config_name,
}

trim-le : (serial : List ℕ) (len : ℕ) → trim serial len ≤ len
unfolding trim
trim-le serial zero = omega arith
trim-le serial (suc len) = ground (arith, trim-le serial len)

-- The byte of a UTF-8 character that is not its first.
abbrev pub IsContinuation : ℕ → Type 0
IsContinuation x = bit_and x 0xc0 ≡ 0x80

trim-boundary :
    (serial : List ℕ) (len : ℕ)
    → trim serial len ≢ 0
    → ¬ IsContinuation (byte serial (trim serial len))
unfolding trim
trim-boundary serial zero h = absurd (h refl)
trim-boundary serial (suc len) h =
    elim (Bool-cases (bit_and (byte serial (suc len)) 0xc0 == 0x80)) [
      | inl y ↦ rw (y, trim) (trim-boundary serial len (rw (y, trim) at h))
      | inr n ↦ rw (n, trim) (ground arith)
    ]

-- How a serial may be cut to `n` bytes: not at all, or, if it is too long, between two characters.
abbrev pub IsCut : List ℕ → ℕ → Type 0
IsCut serial n =
    (n ≡ strlen serial)
    ⊎ ((name_max - 2 < strlen serial) × ((n ≡ 0) ⊎ (¬ IsContinuation (byte serial n))))

serial_length_lem :
    (serial : List ℕ)
    → (serial_length serial ≤ name_max - 2)
      × (serial_length serial ≤ strlen serial)
      × IsCut serial (serial_length serial)
unfolding serial_length
serial_length_lem serial = elim (Bool-cases (ltb (name_max - 2) (strlen serial))) [
  | inl y ↦ rw y (
    trim-le serial 27,
    omega (arith, trim-le serial 27, ltb→lt _ _ y),
    inr (ltb→lt _ _ y, boundary (ℕ_discrete (trim serial 27) 0)),
  )
  | inr n ↦ rw n (ground arith, ground arith, inl refl)
]
  where
    boundary :
        Dec (trim serial 27 ≡ 0)
        → (trim serial 27 ≡ 0) ⊎ (¬ IsContinuation (byte serial (trim serial 27)))
    boundary (yes e) = inl e
    boundary (no e) = inr (trim-boundary serial 27 e)

-- No byte is NUL.
abbrev pub AllNonzero : List ℕ → Type 0
AllNonzero [] = Unit
AllNonzero (x ∷ xs) = (x ≢ 0) × AllNonzero xs

AllNonzero-append : (xs ys : List ℕ) → AllNonzero xs → AllNonzero ys → AllNonzero (xs ++ ys)
AllNonzero-append [] ys h k = k
AllNonzero-append (x ∷ xs) ys h k = (h.0, AllNonzero-append xs ys h.1 k)

AllNonzero-take : (n : ℕ) (s : List ℕ) → n ≤ strlen s → AllNonzero (take n s)
unfolding strlen
AllNonzero-take zero s h = tt
AllNonzero-take (suc n) [] h = absurd (omega arith)
AllNonzero-take (suc n) (x ∷ s) h = elim (Bool-cases (x == 0)) [
  | inl y ↦ absurd (omega (arith, rw (y, strlen) at h))
  | inr ne ↦ (
    ground arith,
    AllNonzero-take n s (let k : suc n ≤ suc (strlen s) = rw (ne, strlen) at h in omega arith),
  )
]

hex_digits-AllNonzero : (n chip_id : ℕ) → AllNonzero (hex_digits n chip_id)
unfolding hex_digits hex_digit
hex_digits-AllNonzero zero chip_id = tt
hex_digits-AllNonzero (suc n) chip_id =
    AllNonzero-append (hex_digits n (chip_id / 16)) _ (hex_digits-AllNonzero n (chip_id / 16))
      (ground arith, tt)

length-hex_digits : (n chip_id : ℕ) → length (hex_digits n chip_id) ≡ n
unfolding hex_digits
length-hex_digits zero chip_id = refl
length-hex_digits (suc n) chip_id = omega (
  arith,
  length-append (hex_digits n (chip_id / 16)) (hex_digit (chip_id % 16) ∷ []),
  length-hex_digits n (chip_id / 16),
)

-- What a scan response can carry as a name, as a C string.
abbrev pub IsName : List ℕ → Type 0
IsName name = (length name ≤ name_max) × (take 2 name ≡ name_prefix) × AllNonzero name

prefix-IsName :
    (rest : List ℕ) → length rest ≤ name_max - 2 → AllNonzero rest → IsName (name_prefix ++ rest)
prefix-IsName rest h k = (omega arith, refl, (ground arith, (ground arith, k)))

serial-IsName : (serial : List ℕ) → IsName (name_prefix ++ take (serial_length serial) serial)
serial-IsName serial =
    let fits = serial_length_lem serial in
    prefix-IsName _ (omega (arith, fits.0, length-take (serial_length serial) serial))
      (AllNonzero-take _ serial fits.1)

fallback-IsName : (chip_id : ℕ) → IsName (name_prefix ++ hex_digits 6 chip_id)
fallback-IsName chip_id =
    prefix-IsName _ (omega (arith, length-hex_digits 6 chip_id)) (hex_digits-AllNonzero 6 chip_id)

name_of-IsName : (extended : Option (List ℕ)) (chip_id : ℕ) → IsName (name_of extended chip_id)
unfolding name_of
name_of-IsName none chip_id = fallback-IsName chip_id
name_of-IsName (some e) chip_id = elim (Bool-cases (byte (drop 64 e) 0 != 0)) [
  | inl y ↦ rw (y, name_of) (serial-IsName (drop 64 e))
  | inr n ↦ rw (n, name_of) (fallback-IsName chip_id)
]

-- The device name has at most 29 bytes, begins with "OD" and holds no NUL, whatever the
-- configuration and the chip.
pub config_name-IsName : (bytes : List ℕ) (chip_id : ℕ) → IsName (config_name bytes chip_id)
unfolding config_name
config_name-IsName bytes chip_id = name_of-IsName (config_packet bytes 44) chip_id

pub digit_value : ℕ → ℕ
digit_value d = if ltb d b'A' then d - b'0' else d - b'A' + 10

-- The number that hexadecimal digits write, after `n`.
abbrev pub hex_value : ℕ → List ℕ → ℕ
hex_value n [] = n
hex_value n (d ∷ ds) = hex_value (n * 16 + digit_value d) ds

digit_value-hex_digit : (n : ℕ) → digit_value (hex_digit (n % 16)) ≡ n % 16
unfolding digit_value hex_digit
digit_value-hex_digit n = ground arith

hex_digits_value : (chip_id : ℕ) → hex_value 0 (hex_digits 6 chip_id) ≡ chip_id % 2 ^ 24
unfolding hex_digits
hex_digits_value chip_id = omega (arith, digit_value-hex_digit)

-- An upper-case hexadecimal digit, as a character.
abbrev pub IsHexDigit : ℕ → Type 0
IsHexDigit d = ((b'0' ≤ d) × (d ≤ b'9')) ⊎ ((b'A' ≤ d) × (d ≤ b'F'))

abbrev pub AllHexDigits : List ℕ → Type 0
AllHexDigits [] = Unit
AllHexDigits (d ∷ ds) = IsHexDigit d × AllHexDigits ds

hex_digit-IsHexDigit : (n : ℕ) → IsHexDigit (hex_digit (n % 16))
unfolding hex_digit
hex_digit-IsHexDigit n = elim (Bool-cases (ltb (n % 16) 10)) [
  | inl y ↦ rw y (inl (ground arith))
  | inr big ↦ rw big (inr (ground arith))
]

AllHexDigits-append : (xs ys : List ℕ) → AllHexDigits xs → AllHexDigits ys → AllHexDigits (xs ++ ys)
AllHexDigits-append [] ys h k = k
AllHexDigits-append (x ∷ xs) ys h k = (h.0, AllHexDigits-append xs ys h.1 k)

hex_digits-AllHexDigits : (n chip_id : ℕ) → AllHexDigits (hex_digits n chip_id)
unfolding hex_digits
hex_digits-AllHexDigits zero chip_id = tt
hex_digits-AllHexDigits (suc n) chip_id =
    AllHexDigits-append (hex_digits n (chip_id / 16)) _ (hex_digits-AllHexDigits n (chip_id / 16))
      (hex_digit-IsHexDigit chip_id, tt)

-- Without a DataExtended packet in the configuration, the device name is "OD" and exactly six upper-
-- case hexadecimal digits, leading zeros included, whose value is the low 24 bits of the chip's
-- identity.
pub config_name-chip_id :
    (bytes : List ℕ) (chip_id : ℕ)
    → config_packet bytes 44 ≡ none
    → (digits : List ℕ) × (config_name bytes chip_id ≡ name_prefix ++ digits)
      × (length digits ≡ 6)
      × AllHexDigits digits
      × (hex_value 0 digits ≡ chip_id % 2 ^ 24)
unfolding config_name name_of
config_name-chip_id bytes chip_id h = rw h (
  hex_digits 6 chip_id,
  refl,
  length-hex_digits 6 chip_id,
  hex_digits-AllHexDigits 6 chip_id,
  hex_digits_value chip_id,
)

-- When the configuration has a serial that is not empty, the device name is "OD" and a beginning of
-- it of at most 27 bytes: a shorter serial whole, and a longer one cut, but not inside a UTF-8
-- character.
pub config_name-serial :
    (bytes extended : List ℕ) (chip_id : ℕ)
    → config_packet bytes 44 ≡ some extended
    → byte (drop 64 extended) 0 ≢ 0
    → (n : ℕ) × (config_name bytes chip_id ≡ name_prefix ++ take n (drop 64 extended))
      × (n ≤ name_max - 2)
      × IsCut (drop 64 extended) n
unfolding config_name name_of
config_name-serial bytes extended chip_id h present = (
  serial_length serial,
  rw h (ground arith),
  (serial_length_lem serial).0,
  (serial_length_lem serial).2,
)
  where
    serial : List ℕ
    serial = drop 64 extended
