-- ===== src/Config/Validate.antt =====
-- `od_config_validate` of config_store.c: the configuration container.
pub mod Container
use greentags_lt213a_opendis.Prelude.{
  Bool, List, Option, Status, [], bit_and, bit_or, byte, done, drop, einval, enotsup, fail, false,
  if◌then◌else◌, length, ltb, none, not, some, suc, take, true, zero, ℕ, ◌!=◌, ◌&&◌, ◌*◌, ◌+◌, ◌-◌,
  ◌==◌, ◌||◌, ◌∷◌,
}
use greentags_lt213a_opendis.Config.Crc.{crc}

abbrev pub config_max : ℕ
config_max = 768

-- data[i] | data[i + 1] << 8
abbrev pub word16 : List ℕ → ℕ → ℕ
word16 bytes i = bit_or (byte bytes i) (byte bytes (i + 1) * 256)

-- The `switch`: the payload size of a packet and its bit in `seen`.
unfoldable pub packet_layout : ℕ → Option (ℕ × ℕ)
packet_layout type =
    if type == 1
    then some (22, 1)
    else if type == 2
    then some (22, 2)
    else if type == 4
    then some (30, 4)
    else if type == 32
    then some (46, 8)
    else if type == 39
    then some (64, 16)
    else if type == 44
    then some (288, 32)
    else none

-- The fixed wiring that a system packet must name.
unfoldable pub bad_system : List ℕ → Bool
bad_system p =
    byte p 0 != 255 || byte p 1 != 255 || byte p 2 != 1 || byte p 3 != 0 || byte p 4 != 255

unfoldable pub bad_power : List ℕ → Bool
bad_power p =
    byte p 6 != 0
    || byte p 8 != 255
    || byte p 9 != 255
    || byte p 18 != 0
    || byte p 19 != 0
    || byte p 20 != 255
    || byte p 21 != 255

unfoldable pub bad_display : List ℕ → Bool
bad_display p =
    (byte p 0 != 0 || byte p 1 != 1 || byte p 2 != 19 || byte p 3 != 0 || byte p 4 != 104)
    || (byte p 5 != 0 || byte p 6 != 212 || byte p 7 != 0 || ltb 3 (byte p 14) || byte p 15 != 3)
    || (byte p 16 != 4 || byte p 17 != 2 || byte p 18 != 1 || byte p 19 != 30 || ltb 1 (byte p 20))
    || (byte p 21 != 0 || bit_and (byte p 22) 0xe4 != 0 || byte p 23 != 0 || byte p 24 != 255)

-- key |= p[i] over the bytes given
or_all : ℕ → List ℕ → ℕ
or_all key [] = key
or_all key (x ∷ xs) = or_all (bit_or key x) xs

unfoldable pub bad_security : List ℕ → Bool
unfolding or_all
bad_security p =
    let key = or_all 0 (take 16 (drop 1 p)) in
    ltb 1 (byte p 0) || (byte p 0 != 0 && key == 0) || byte p 19 != 0

-- memchr(s, 0, n) over the n bytes given
unfoldable pub has_zero : List ℕ → Bool
has_zero [] = false
has_zero (x ∷ xs) = x == 0 || has_zero xs

-- The loop over the `n` strings of 32 bytes that are left.
unfoldable pub strings_end : ℕ → List ℕ → Bool
unfolding has_zero
strings_end zero p = true
strings_end (suc n) p = has_zero (take 32 p) && strings_end n (drop 32 p)

-- The content checks on the payload `p` of a packet.
unfoldable pub check_packet : ℕ → List ℕ → Status
unfolding bad_system bad_power bad_display bad_security strings_end
check_packet type p =
    if type == 1 && bad_system p
    then fail enotsup
    else if type == 4 && bad_power p
    then fail enotsup
    else if type == 32 && bad_display p
    then fail enotsup
    else if type == 39 && bad_security p
    then fail enotsup
    else if type == 44 && not (strings_end 9 p)
    then fail einval
    else done

-- The packet loop. `rest` is data[pos .. len - 2), and the fuel bounds the rounds.
-- Each case is a step of the loop's body.
unfoldable pub check_packets : ℕ → ℕ → List ℕ → Status
check_packets fuel seen [] = if bit_and seen 15 == 15 then done else fail einval
check_packets zero seen (x ∷ rest) = fail einval
check_packets (suc fuel) seen (x ∷ []) = fail einval
check_packets (suc fuel) seen (x ∷ type ∷ rest) =
    if x != 0 then fail einval else elim (packet_layout type) [
      | none ↦ fail enotsup
      | some (size, bit) ↦
          if bit_and seen bit != 0 || ltb (length rest) size
          then fail einval
          else elim (check_packet type (take size rest)) [
            | fail e ↦ fail e
            | done ↦ check_packets fuel (bit_or seen bit) (drop size rest)
          ]
    ]

-- The tests on the container: size, version, length field and CRC.
unfoldable pub bad_container : List ℕ → Bool
bad_container bytes =
    let len = length bytes in
    ltb len 5
    || ltb config_max len
    || byte bytes 2 != 1
    || (word16 bytes 0 != 0 && word16 bytes 0 != len)
    || crc (take (len - 2) bytes) true != word16 bytes (len - 2)

unfoldable pub validate : List ℕ → Status
validate bytes =
    let len = length bytes in
    if bad_container bytes then fail einval else check_packets len 0 (drop 3 (take (len - 2) bytes))
