-- ===== src/Config/Packets.antt =====
-- `od_config` and `config_packet` of config_store.c.
pub mod Lookup
use greentags_lt213a_opendis.Prelude.{
  List, Option, [], byte, done, drop, if◌then◌else◌, length, ltb, none, refl, some, suc, zero, ℕ,
  ◌+◌, ◌==◌, ◌∷◌, ◌≡◌,
}
use greentags_lt213a_opendis.Config.Validate.{
  validate, bad_container, check_packets, packet_layout, check_packet,
}
use greentags_lt213a_opendis.Config.Crc.{crc}

-- The built-in configuration of config.inc.
abbrev pub default_config : List ℕ
default_config =
    133 ∷ 0 ∷ 1 ∷ 0 ∷ 1 ∷ 255 ∷ 255 ∷ 1 ∷ 0 ∷ 255 ∷ 0 ∷ 0 ∷ 0 ∷ 0 ∷ 0 ∷ 0 ∷ 0 ∷ 0 ∷ 0 ∷ 0 ∷ 0 ∷ 0
    ∷ 0 ∷ 0 ∷ 0 ∷ 255 ∷ 255 ∷ 0 ∷ 2 ∷ 0 ∷ 0 ∷ 0 ∷ 0 ∷ 0 ∷ 0 ∷ 0 ∷ 0 ∷ 0 ∷ 0 ∷ 0 ∷ 0 ∷ 0 ∷ 0 ∷ 0 ∷ 0
    ∷ 0 ∷ 0 ∷ 0 ∷ 0 ∷ 0 ∷ 0 ∷ 0 ∷ 4 ∷ 1 ∷ 0 ∷ 0 ∷ 0 ∷ 0 ∷ 0 ∷ 0 ∷ 0 ∷ 255 ∷ 255 ∷ 0 ∷ 4 ∷ 0 ∷ 0 ∷ 0
    ∷ 0 ∷ 0 ∷ 0 ∷ 0 ∷ 0 ∷ 255 ∷ 255 ∷ 0 ∷ 0 ∷ 0 ∷ 0 ∷ 0 ∷ 0 ∷ 0 ∷ 0 ∷ 0 ∷ 32 ∷ 0 ∷ 1 ∷ 19 ∷ 0 ∷ 104
    ∷ 0 ∷ 212 ∷ 0 ∷ 23 ∷ 0 ∷ 48 ∷ 0 ∷ 0 ∷ 0 ∷ 0 ∷ 3 ∷ 4 ∷ 2 ∷ 1 ∷ 30 ∷ 1 ∷ 0 ∷ 27 ∷ 0 ∷ 255 ∷ 0 ∷ 0
    ∷ 0 ∷ 0 ∷ 0 ∷ 0 ∷ 0 ∷ 0 ∷ 0 ∷ 0 ∷ 0 ∷ 0 ∷ 0 ∷ 0 ∷ 0 ∷ 0 ∷ 0 ∷ 0 ∷ 0 ∷ 0 ∷ 0 ∷ 154 ∷ 223 ∷ []

default_config_valid : validate default_config ≡ done
unfolding validate bad_container check_packets packet_layout check_packet crc
default_config_valid = refl

-- The size by which the packet loop of `config_packet` goes on.
unfoldable pub stride : ℕ → ℕ
stride kind =
    if kind == 4
    then 30
    else if kind == 32
    then 46
    else if kind == 39
    then 64
    else if kind == 44
    then 288
    else 22

-- The loop; `rest` is p[pos .. len), and the result is the pointer p + pos + 2 or NULL.
unfoldable pub find_packet : ℕ → ℕ → List ℕ → Option (List ℕ)
find_packet zero type rest = none
find_packet (suc fuel) type rest =
    let kind = byte rest 1 in
    let later = find_packet fuel type (drop (stride kind + 2) rest) in
    if ltb 2 (length rest) then if kind == type then some (drop 2 rest) else later else none

-- `bytes` is what `od_config_get` returns, so it is never shorter than the container's head.
unfoldable pub config_packet : List ℕ → ℕ → Option (List ℕ)
config_packet bytes type = find_packet (length bytes) type (drop 3 bytes)
