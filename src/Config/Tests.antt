-- ===== src/Config/Tests.antt =====
-- The configuration store at concrete inputs.
use greentags_lt213a_opendis.Prelude.{
  List, [], arith, done, drop, length, none, refl, replicate, some, sym, take, ℕ, ◌%◌, ◌++◌, ◌-◌,
  ◌^◌, ◌↔◌, ◌∷◌, ◌≡◌, ◌≤◌,
}
use greentags_lt213a_opendis.Config.Crc.{crc}
use greentags_lt213a_opendis.Config.Validate.{
  validate, bad_container, check_packets, packet_layout, check_packet,
}
use greentags_lt213a_opendis.Config.Validate.Container.{IsContainer, validate_iff}
use greentags_lt213a_opendis.Config.Packets.{default_config, config_packet, find_packet, stride}
use greentags_lt213a_opendis.Config.Packets.Lookup.{
  Points, payload_of, config_packet-Points, IsChecked, config_packet-IsChecked,
}
use greentags_lt213a_opendis.Config.Fields.{
  partial_frames, config_name, name_max, name_prefix, partial_frames_key,
}
use greentags_lt213a_opendis.Config.Fields.Frames.{
  partial_frames_range, partial_frames-decimal, requested, decimal,
}
use greentags_lt213a_opendis.Config.Fields.Name.{
  IsName, IsCut, config_name-IsName, config_name-chip_id, config_name-serial, hex_value,
  AllHexDigits,
}
use greentags_lt213a_opendis.Config.Flash.{erased_page}
use greentags_lt213a_opendis.Config.Flash.Nor.{Pages, pages, blank_pages, pages-FlashLaws}
use greentags_lt213a_opendis.Config.Store.{
  Config, fresh_store, init, init_slot, bad_slot, read_header, start, append, append_at,
  write_words, finish_append, commit, cancel, get_config,
}
use greentags_lt213a_opendis.Config.Store.Pages.{IsAccepted}
use greentags_lt213a_opendis.Config.Store.Update.{IsConsistent, IsStaged, start-done}
use greentags_lt213a_opendis.Config.Store.Commit.{append-IsStaged, append-commits, in_force}
use greentags_lt213a_opendis.Config.Store.PowerLoss.{
  Journal, journal, All, append-Recovers, Recovers,
}

default_config_valid : validate default_config ≡ done
unfolding validate bad_container check_packets packet_layout check_packet crc
default_config_valid = refl

validate_iff_example : (validate default_config ≡ done) ↔ IsContainer default_config
validate_iff_example = validate_iff default_config

abbrev default_container : IsContainer default_config
default_container = (validate_iff default_config).0 default_config_valid

config_packet-Points_example :
    Points (payload_of default_container.body.1 32) (config_packet default_config 32)
config_packet-Points_example = config_packet-Points default_config default_container 32

abbrev display_packet : List ℕ
display_packet = drop 85 default_config

display_found : config_packet default_config 32 ≡ some display_packet
unfolding config_packet find_packet stride
display_found = refl

config_packet-IsChecked_example :
    (payload : List ℕ) × (rest : List ℕ) × (display_packet ≡ payload ++ rest) × IsChecked 32 payload
config_packet-IsChecked_example =
    config_packet-IsChecked default_config 32 display_packet default_config_valid display_found

-- A DataExtended packet with the serial "Tag" and the custom string "lt213a.partial_frames=14".
abbrev extended : List ℕ
extended =
    replicate 64 0
    ++ (b'T' ∷ b'a' ∷ b'g' ∷ replicate 189 0)
    ++ (partial_frames_key ++ (b'1' ∷ b'4' ∷ []) ++ 0 ∷ [])

abbrev with_extended : List ℕ
with_extended = 0 ∷ 0 ∷ 1 ∷ 0 ∷ 44 ∷ extended

extended_found : config_packet with_extended 44 ≡ some extended
unfolding config_packet find_packet stride
extended_found = refl

extended_range : (1 ≤ partial_frames with_extended) × (partial_frames with_extended ≤ 255)
extended_range = partial_frames_range with_extended

partial_frames-decimal_example :
    partial_frames with_extended ≡ requested (decimal 0 (b'1' ∷ b'4' ∷ []))
partial_frames-decimal_example =
    partial_frames-decimal with_extended extended (b'1' ∷ b'4' ∷ []) [] extended_found refl
      (omega arith)

config_name-IsName_example : IsName (config_name with_extended 0xabcdef)
config_name-IsName_example = config_name-IsName with_extended 0xabcdef

no_extended : config_packet default_config 44 ≡ none
unfolding config_packet find_packet stride
no_extended = refl

config_name-chip_id_example :
    (digits : List ℕ) × (config_name default_config 0x12abcdef ≡ name_prefix ++ digits)
    × (length digits ≡ 6)
    × AllHexDigits digits
    × (hex_value 0 digits ≡ 0x12abcdef % 2 ^ 24)
config_name-chip_id_example = config_name-chip_id default_config 0x12abcdef no_extended

config_name-serial_example :
    (n : ℕ) × (config_name with_extended 7 ≡ name_prefix ++ take n (drop 64 extended))
    × (n ≤ name_max - 2)
    × IsCut (drop 64 extended) n
config_name-serial_example =
    config_name-serial with_extended extended 7 extended_found (omega arith)

abbrev boot_config : Config Pages
boot_config = record { store = fresh_store; flash = blank_pages }

boot_config-IsConsistent : IsConsistent pages boot_config
unfolding init init_slot bad_slot read_header erased_page
boot_config-IsConsistent = record { boots = refl; small = omega arith; installed = refl }

starts : (start pages 133 boot_config).0 ≡ done
unfolding start
starts = refl

abbrev started_config : Config Pages
started_config = (start pages 133 boot_config).1

started_facts :
    IsConsistent pages started_config
    × IsStaged pages [] started_config
    × (started_config.store.expected ≡ 133)
started_facts = start-done pages pages-FlashLaws 133 boot_config boot_config-IsConsistent starts

appends : (append pages default_config started_config).0 ≡ done
unfolding append append_at write_words finish_append commit cancel start validate bad_container
    check_packets packet_layout check_packet crc erased_page
appends = refl

append-commits_example :
    IsAccepted default_config
    × IsConsistent pages (append pages default_config started_config).1
    × (get_config pages (append pages default_config started_config).1 ≡ in_force 0 default_config)
    × ((append pages default_config started_config).1.store.staging ≡ none)
    × ((append pages default_config started_config).1.store.generation ≡ 1)
unfolding start
append-commits_example =
    append-commits pages pages-FlashLaws [] default_config started_config started_facts.0
      started_facts.1 appends (sym started_facts.2)

abbrev chunk : List ℕ
chunk = take 50 default_config

appends_chunk : (append pages chunk started_config).0 ≡ done
unfolding append append_at write_words start
appends_chunk = refl

append-IsStaged_example :
    IsConsistent pages (append pages chunk started_config).1
    × IsStaged pages chunk (append pages chunk started_config).1
    × ((append pages chunk started_config).1.store.expected ≡ started_config.store.expected)
append-IsStaged_example =
    append-IsStaged pages pages-FlashLaws [] chunk started_config started_facts.0 started_facts.1
      appends_chunk (omega (arith, started_facts.2))

abbrev boot_journal : Config (Journal Pages)
boot_journal = record { store = fresh_store; flash = (blank_pages, []) }

boot_journal-IsConsistent : IsConsistent (journal pages) boot_journal
unfolding init init_slot bad_slot read_header erased_page
boot_journal-IsConsistent = record { boots = refl; small = omega arith; installed = refl }

journal_starts : (start (journal pages) 133 boot_journal).0 ≡ done
unfolding start
journal_starts = refl

-- An update under way, and no write of it yet in the journal.
abbrev started_journal : Config (Journal Pages)
started_journal = record {
  store = record fresh_store { staging = some 0; expected = 133 };
  flash = (blank_pages, []);
}

started_journal-IsConsistent : IsConsistent (journal pages) started_journal
unfolding init init_slot bad_slot read_header erased_page
started_journal-IsConsistent = record { boots = refl; small = omega arith; installed = refl }

started_journal-IsStaged : IsStaged (journal pages) [] started_journal
unfolding erased_page
started_journal-IsStaged = record {
  staging = refl;
  page = refl;
  received = refl;
  fits = omega arith;
  most = omega arith;
}

append-Recovers_example :
    All
      (Recovers pages pages-FlashLaws started_journal)
      (append (journal pages) default_config started_journal).1.flash.1
append-Recovers_example =
    append-Recovers pages pages-FlashLaws started_journal [] default_config
      started_journal-IsConsistent started_journal-IsStaged tt
