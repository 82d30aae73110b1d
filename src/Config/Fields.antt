-- ===== src/Config/Fields.antt =====
-- The fields that config_store.c reads for the rest of the firmware: `od_config_security`,
-- `od_config_partial_frames` and `od_config_name`. Each takes the bytes that `od_config_get` returns.
pub mod Name
pub mod Frames
use greentags_lt213a_opendis.Prelude.{
  Bool, List, Option, [], bit_and, byte, drop, false, if◌then◌else◌, length, ltb, none, some, suc,
  take, true, zero, ℕ, ◌!=◌, ◌%◌, ◌&&◌, ◌*◌, ◌++◌, ◌+◌, ◌-◌, ◌/◌, ◌==◌, ◌||◌, ◌∷◌,
}
use greentags_lt213a_opendis.Config.Packets.{config_packet}

unfoldable pub config_security : List ℕ → Option (List ℕ)
config_security bytes = config_packet bytes 39

abbrev pub partial_frames_default : ℕ
partial_frames_default = 100

-- "lt213a.partial_frames="
abbrev pub partial_frames_key : List ℕ
partial_frames_key =
    108 ∷ 116 ∷ 50 ∷ 49 ∷ 51 ∷ 97 ∷ 46 ∷ 112 ∷ 97 ∷ 114 ∷ 116 ∷ 105 ∷ 97 ∷ 108 ∷ 95 ∷ 102 ∷ 114 ∷ 97
    ∷ 109 ∷ 101 ∷ 115 ∷ 61 ∷ []

-- !strncmp(value, key, sizeof(key)): the key holds no NUL, so equality is that of its bytes.
unfoldable pub has_prefix : List ℕ → List ℕ → Bool
has_prefix [] value = true
has_prefix (k ∷ key) [] = false
has_prefix (k ∷ key) (x ∷ value) = x == k && has_prefix key value

-- The loop over the digits, up to the NUL. The field is NUL-terminated: `[]` is not reached.
unfoldable pub frames_from : ℕ → List ℕ → ℕ
frames_from frames [] = partial_frames_default
frames_from frames (x ∷ value) =
    let next = frames * 10 + (x - b'0') in
    let rest = frames_from next value in
    if x == 0
    then if frames != 0 then frames else partial_frames_default
    else if ltb x b'0' || ltb b'9' x
    then partial_frames_default
    else if ltb 255 next
    then partial_frames_default
    else rest

-- `extended` is the DataExtended packet from its first byte on.
unfoldable pub frames_of : Option (List ℕ) → ℕ
frames_of none = partial_frames_default
frames_of (some extended) =
    let value = drop (8 * 32) extended in
    if has_prefix partial_frames_key value
    then frames_from 0 (drop (length partial_frames_key) value)
    else partial_frames_default

unfoldable pub partial_frames : List ℕ → ℕ
partial_frames bytes = frames_of (config_packet bytes 44)

abbrev pub name_max : ℕ
name_max = 29

unfoldable pub strlen : List ℕ → ℕ
strlen [] = 0
strlen (x ∷ s) = let rest = strlen s in if x == 0 then 0 else suc rest

-- while (len && (serial[len] & 0xc0) == 0x80) { len--; }
unfoldable pub trim : List ℕ → ℕ → ℕ
trim serial zero = zero
trim serial (suc len) =
    let shorter = trim serial len in
    if bit_and (byte serial (suc len)) 0xc0 == 0x80 then shorter else suc len

unfoldable pub serial_length : List ℕ → ℕ
serial_length serial =
    let len = strlen serial in if ltb (name_max - 2) len then trim serial (name_max - 2) else len

-- "0123456789ABCDEF"[n]
unfoldable pub hex_digit : ℕ → ℕ
hex_digit n = if ltb n 10 then b'0' + n else b'A' + (n - 10)

-- The digits of the `n` lowest hexadecimal places, most significant first.
unfoldable pub hex_digits : ℕ → ℕ → List ℕ
hex_digits zero chip_id = []
hex_digits (suc n) chip_id = hex_digits n (chip_id / 16) ++ hex_digit (chip_id % 16) ∷ []

abbrev pub name_prefix : List ℕ
name_prefix = b'O' ∷ b'D' ∷ []

unfoldable pub name_of : Option (List ℕ) → ℕ → List ℕ
name_of none chip_id = name_prefix ++ hex_digits 6 chip_id
name_of (some extended) chip_id =
    let serial = drop 64 extended in
    if byte serial 0 != 0
    then name_prefix ++ take (serial_length serial) serial
    else name_prefix ++ hex_digits 6 chip_id

-- The bytes of the name; the function returns their number, and ends the name by a NUL.
unfoldable pub config_name : List ℕ → ℕ → List ℕ
config_name bytes chip_id = name_of (config_packet bytes 44) chip_id
