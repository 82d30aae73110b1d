-- ===== src/Protocol/Transfer.antt =====
-- The helpers of `od_handle` in protocol.c: replies, `od_abort`, `sack`, `start_region` and
-- `finish_transfer`.
use greentags_lt213a_opendis.Prelude.{
  Act, Bool, List, Status, [], bit_and, bit_or, done, failed, if◌then◌else◌, leb, ltb, none, some,
  sub8, true, u8, ℕ, ◌!=◌, ◌*◌, ◌++◌, ◌-◌, ◌/◌, ◌==◌, ◌^◌, ◌||◌, ◌∷◌,
}
use greentags_lt213a_opendis.Protocol.Base.{
  Protocol, System, World, on_device, od_reset, epd_width, epd_height,
}

-- The 32 bits of a uint32_t, least significant byte first.
abbrev pub mask_bytes : ℕ → List ℕ
mask_bytes m = u8 m ∷ u8 (m / 2 ^ 8) ∷ u8 (m / 2 ^ 16) ∷ u8 (m / 2 ^ 24) ∷ []

-- The frames before the last one, as far as 32 bits go.
unfoldable pub sack_mask : ℕ → ℕ
sack_mask pipe_frames =
    let previous = pipe_frames - 1 in if leb 32 previous then 2 ^ 32 - 1 else 2 ^ previous - 1

unfoldable pub sack_bytes : Protocol → ℕ → List ℕ
sack_bytes p code =
    (if code != 0 then 255 ∷ 0x81 ∷ code ∷ [] else 0 ∷ 0x81 ∷ [])
    ++ (sub8 p.next_seq 1 ∷ mask_bytes (sack_mask p.pipe_frames))

-- The tests of `start_region` on the window.
unfoldable pub outside : ℕ → ℕ → ℕ → ℕ → Bool
outside x y width height =
    width == 0
    || height == 0
    || leb epd_width x
    || leb epd_height y
    || ltb (epd_width - x) width
    || ltb (epd_height - y) height

abbrev pub region_bytes : ℕ → ℕ → ℕ
region_bytes width height = width / 8 * height * 2

module _ {Z F W : Type 0} (sys : System Z F W) where
  unfoldable pub send : List ℕ → Act (World Z F W) Status
  send bytes = on_device (sys.io.send bytes)

  unfoldable pub reply : ℕ → Bool → Act (World Z F W) Status
  reply cmd success = send ((if success then 0 else 0xff) ∷ cmd ∷ [])

  unfoldable pub error_code : ℕ → ℕ → Act (World Z F W) Status
  error_code cmd code = send (255 ∷ cmd ∷ code ∷ 0 ∷ [])

  unfoldable pub od_abort : Act (World Z F W) (Unit {0})
  od_abort w =
      if w.proto.active
      then (
        tt,
        record w {
          proto = od_reset (record w.proto { displayed_etag = 0 });
          device = sys.io.abort w.device;
        },
      )
      else (tt, record w { proto = od_reset w.proto })

  unfoldable pub sack : ℕ → Act (World Z F W) Status
  sack code w = send (sack_bytes w.proto code) w

  -- The result is an error code of the protocol, or zero.
  unfoldable pub start_region : ℕ → ℕ → ℕ → ℕ → ℕ → Act (World Z F W) ℕ
  start_region old x y width height w =
      if old == 0 || old != w.proto.displayed_etag
      then (1, w)
      else if outside x y width height
      then (3, w)
      else if bit_and (bit_or x width) 7 != 0
      then (4, w)
      else elim sys.io.region [
        | none ↦ (7, w)
        | some region ↦
            let (err, w') = on_device (region x y width height) w in
            if failed err then (6, w') else (
              0,
              record w' {
                proto = record w'.proto {
                  partial = true;
                  active = true;
                  expected = region_bytes width height;
                };
              },
            )
      ]

  -- The panel's part of `finish_transfer`, and the message 73 or 74 after it.
  unfoldable pub refresh : ℕ → ℕ → Act (World Z F W) Status
  refresh mode etag w =
      let (err, w') = on_device (sys.io.finish mode) w in
      let p = record w'.proto { displayed_etag = if failed err then 0 else etag } in
      reply (if failed err then 0x74 else 0x73) true (record w' { proto = od_reset p })

  unfoldable pub finish_transfer : ℕ → ℕ → ℕ → Act (World Z F W) Status
  finish_transfer cmd mode etag w =
      let (sacked, w1) = if w.proto.pipe then sack 0 w else (done, w) in
      let (err, w2) = if failed sacked then (sacked, w1) else reply cmd true w1 in
      if failed err then (err, (od_abort w2).1) else refresh mode etag w2
