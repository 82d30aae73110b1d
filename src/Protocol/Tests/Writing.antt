-- ===== src/Protocol/Tests/Writing.antt =====
-- A configuration of 423 bytes in three frames: commands 41 and 42 of protocol.c at a concrete input.
use greentags_lt213a_opendis.Prelude.{
  List, [], arith, drop, length, refl, replicate, take, true, ℕ, ◌++◌, ◌+◌, ◌<◌, ◌^◌, ◌∷◌, ◌≡◌,
}
use greentags_lt213a_opendis.Config.Crc.{crc}
use greentags_lt213a_opendis.Config.Validate.{
  validate, bad_container, check_packets, check_packet, packet_layout, has_zero, strings_end,
  bad_system, bad_power, bad_display, bad_security,
}
use greentags_lt213a_opendis.Config.Packets.{default_config}
use greentags_lt213a_opendis.Config.Flash.{erased_page}
use greentags_lt213a_opendis.Config.Flash.Nor.{pages, pages-FlashLaws}
use greentags_lt213a_opendis.Config.Store.{
  start, append, append_at, write_words, finish_append, commit, cancel, init, init_slot, bad_slot,
  read_header, get_config, writing,
}
use greentags_lt213a_opendis.Config.Store.Pages.{IsAccepted}
use greentags_lt213a_opendis.Config.Store.Update.{IsConsistent}
use greentags_lt213a_opendis.Protocol.Wire.{le}
use greentags_lt213a_opendis.Protocol.Base.{od_reset}
use greentags_lt213a_opendis.Protocol.Transfer.{send, reply, od_abort}
use greentags_lt213a_opendis.Protocol.ConfigCommands.{
  append_reply, start_append, cancel_config, config_write, config_continue,
}
use greentags_lt213a_opendis.Protocol.Handle.{dispatch, od_handle}
use greentags_lt213a_opendis.Protocol.Trace.Safety.{zeroed}
use greentags_lt213a_opendis.Protocol.Trace.Upload.{concat, AreChunks}
use greentags_lt213a_opendis.Protocol.Trace.ConfigFrames.{positive}
use greentags_lt213a_opendis.Protocol.Trace.ConfigUpload.{
  continue_config, write_config, write_config-Stored,
}
use greentags_lt213a_opendis.Protocol.Samples.{Run, copying, agreeable, tag_at}

-- The built-in packets, one of 288 zeros, and the CRC.
abbrev packets : List ℕ
packets =
    (0 ∷ 0 ∷ take 129 (drop 2 default_config)) ++ 0 ∷ 44 ∷ (replicate 288 0 ++ 0xa7 ∷ 0x92 ∷ [])

abbrev first : List ℕ
first = take 200 packets

abbrev behind : List (List ℕ)
behind = take 200 (drop 200 packets) ∷ drop 400 packets ∷ []

abbrev written : Run
written = (write_config copying pages [] agreeable first behind (tag_at zeroed)).1

fresh-IsConsistent : IsConsistent pages (tag_at zeroed).config
unfolding init init_slot bad_slot read_header erased_page
fresh-IsConsistent = record { boots = refl; small = omega arith; installed = refl }

behind-AreChunks : AreChunks behind
unfolding AreChunks
behind-AreChunks = ground arith

agreed : (write_config copying pages [] agreeable first behind (tag_at zeroed)).0 ≡ true
unfolding write_config continue_config positive od_handle dispatch config_write config_continue
    od_abort od_reset cancel_config cancel le start_append append_reply reply send start append
    append_at write_words finish_append commit writing validate bad_container check_packets
    packet_layout check_packet crc erased_page concat has_zero strings_end bad_system bad_power
    bad_display bad_security
agreed = refl

small : length first + length (concat behind) < 2 ^ 16
unfolding concat
small = omega arith

write_config-Stored_example :
    IsAccepted (first ++ concat behind)
    × IsConsistent pages written.config
    × ((get_config pages written.config).1 ≡ first ++ concat behind)
write_config-Stored_example =
    write_config-Stored copying pages [] agreeable pages-FlashLaws first behind (tag_at zeroed)
      fresh-IsConsistent refl behind-AreChunks small agreed
