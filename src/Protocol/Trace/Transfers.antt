-- ===== src/Protocol/Trace/Transfers.antt =====
-- The steps of a transfer, against the panel: the replies, `od_abort`, `start_region` and
-- `finish_transfer` of protocol.c.
use greentags_lt213a_opendis.Prelude.{
  Bool, List, Status-cases, arith, bit_and, bit_or, failed, false, inl, inr, refl, true, ℕ, ◌/◌,
  ◌<◌, ◌^◌, ◌∷◌, ◌≡◌, ◌≤◌,
}
use native.Mathlib.Nat.{mul-le-mul}
use greentags_lt213a_opendis.Protocol.Trace.Streams.{panel-active}
use greentags_lt213a_opendis.Config.Flash.{FlashOps}
use greentags_lt213a_opendis.Protocol.Base.{
  epd_width, epd_height, Zlib, System, World, od_reset, on_device,
}
use greentags_lt213a_opendis.Protocol.Transfer.{
  send, reply, error_code, od_abort, sack, start_region, refresh, finish_transfer, outside,
  region_bytes,
}
use greentags_lt213a_opendis.Protocol.ConfigCommands.{cancel_config}
use greentags_lt213a_opendis.Protocol.DirectCommands.{set_compressed, set_active, clear_etag}
use greentags_lt213a_opendis.Protocol.Trace.{
  intact, Event, Device, recorded, panel, IsSafe, IsValid, IsActive, IsIdle, record_call,
  opened_region, rebooted,
}

module _ {Z F : Type 0} (zlib : Zlib Z) (flash : FlashOps F) (build_sha : List ℕ) (d : Device) where
  abbrev sys : System Z F (List Event)
  sys = recorded zlib flash build_sha d

  abbrev Run : Type 0
  Run = World Z F (List Event)

  -- A response changes nothing but the history, and the history not for the panel.
  pub send-IsValid :
      (bytes : List ℕ) (w : Run)
      → IsValid w
      → IsValid (send sys bytes w).1 × ((send sys bytes w).1.proto ≡ w.proto)
  unfolding send IsValid panel IsSafe intact
  send-IsValid bytes w h = (h, refl)

  pub reply-IsValid :
      (cmd : ℕ) (success : Bool) (w : Run)
      → IsValid w
      → IsValid (reply sys cmd success w).1 × ((reply sys cmd success w).1.proto ≡ w.proto)
  unfolding reply
  reply-IsValid cmd success w h = send-IsValid _ w h

  pub error_code-IsValid :
      (cmd code : ℕ) (w : Run) → IsValid w → IsValid (error_code sys cmd code w).1
  unfolding error_code
  error_code-IsValid cmd code w h = (send-IsValid _ w h).0

  pub sack-IsValid :
      (code : ℕ) (w : Run)
      → IsValid w
      → IsValid (sack sys code w).1 × ((sack sys code w).1.proto ≡ w.proto)
  unfolding sack
  sack-IsValid code w h = send-IsValid _ w h

  -- After `od_abort` the panel is closed, whatever went on before.
  pub od_abort-IsIdle : (w : Run) → IsValid w → IsIdle (od_abort sys w).1
  unfolding od_abort od_reset IsValid panel IsSafe intact
  od_abort-IsIdle w h = ground (arith)

  pub set_compressed-IsActive :
      (compressed : Bool) (w : Run) → IsActive w → IsActive (set_compressed sys compressed w)
  unfolding set_compressed IsValid
  set_compressed-IsActive compressed w h = ground (arith)

  pub clear_etag-IsValid : (w : Run) → IsValid w → IsValid (clear_etag sys w)
  unfolding clear_etag IsValid
  clear_etag-IsValid w h = ground (arith)

  pub cancel_config-IsIdle : (w : Run) → IsIdle w → IsIdle (cancel_config sys w)
  unfolding cancel_config IsValid
  cancel_config-IsIdle w h = h

  pub rebooted-IsValid : (w : Run) → IsIdle w → IsValid (record w { device = rebooted ∷ w.device })
  unfolding IsValid panel IsSafe intact
  rebooted-IsValid w h = ground (arith)

  -- A panel that opens belongs to an active transfer of a whole image.
  pub begin-IsActive :
      (w : Run)
      → IsIdle w
      → let (err, w') = on_device sys.io.begin w in
        (failed err ≡ true → IsIdle w') × (failed err ≡ false → IsActive (set_active sys w'))
  unfolding set_active IsValid panel IsSafe intact
  begin-IsActive w h = elim (Status-cases (d.answer w.device)) [
    | inl y ↦ rw y ((λ e. ground (arith)), λ _. ground (arith))
    | inr (e, y) ↦ rw y ((λ _. ground (arith)), λ e. ground (arith))
  ]

  outside-size :
      (x y width height : ℕ)
      → outside x y width height ≡ false
      → (width ≤ epd_width) × (height ≤ epd_height)
  unfolding outside
  outside-size x y width height h = ground (arith)

  region_bytes-lt :
      (x y width height : ℕ) → outside x y width height ≡ false → region_bytes width height < 2 ^ 32
  region_bytes-lt x y width height h =
      let (narrow, low) = outside-size x y width height h in
      let product =
        mul-le-mul {n₁ = width / 8} {m₁ = height} {n₂ = 13} {m₂ = 212} (omega (arith, narrow))
          low in
      omega (arith, product)

  open_region-IsActive :
      (x y width height : ℕ) (w : Run)
      → IsIdle w
      → outside x y width height ≡ false
      → bit_and (bit_or x width) 7 ≡ 0
      → let (err, w') = on_device (record_call d.answer (opened_region x y width height)) w in
        (failed err ≡ true → IsValid (clear_etag sys w'))
        × (failed err ≡ false
            → IsActive (record w' {
              proto = record w'.proto {
                partial = true;
                active = true;
                expected = region_bytes width height;
              };
            }))
  unfolding clear_etag IsValid panel IsSafe intact
  open_region-IsActive x y width height w h inside whole =
      let small = region_bytes-lt x y width height inside in
      elim (Status-cases (d.answer w.device)) [
        | inl y ↦ rw y ((λ e. ground (arith)), λ _. ground (arith))
        | inr (e, y) ↦ rw y ((λ _. ground (arith)), λ e. ground (arith))
      ]

  pub start_region-IsActive :
      (old x y width height : ℕ) (w : Run)
      → IsIdle w
      → let (code, w') = start_region sys old x y width height w in
        (¬ (code ≡ 0) → IsValid (clear_etag sys w')) × (code ≡ 0 → IsActive w')
  unfolding start_region
  start_region-IsActive old x y width height w h =
      ground (arith, clear_etag-IsValid w h.0, open_region-IsActive x y width height w h)

  pub refresh-IsValid :
      (mode etag : ℕ) (w : Run)
      → IsActive w
      → w.proto.received ≡ w.proto.expected
      → IsValid (refresh sys mode etag w).1
  unfolding refresh reply send od_reset IsValid panel IsSafe intact
  refresh-IsValid mode etag w h whole =
      let ((bounds, _, safe, known), active) = h in
      let at = panel-active zlib flash build_sha d w h in rw at (ground (arith))

  pub finish_transfer-IsValid :
      (cmd mode etag : ℕ) (w : Run)
      → IsActive w
      → w.proto.received ≡ w.proto.expected
      → IsValid (finish_transfer sys cmd mode etag w).1
  unfolding finish_transfer
  finish_transfer-IsValid cmd mode etag w h whole =
      let (ok, active) = h in
      ground (
        arith,
        sack-IsValid 0 w ok,
        reply-IsValid cmd true w ok,
        reply-IsValid cmd true (sack sys 0 w).1,
        od_abort-IsIdle (sack sys 0 w).1,
        od_abort-IsIdle (reply sys cmd true w).1,
        od_abort-IsIdle (reply sys cmd true (sack sys 0 w).1).1,
        refresh-IsValid mode etag (reply sys cmd true w).1,
        refresh-IsValid mode etag (reply sys cmd true (sack sys 0 w).1).1,
      )
