-- ===== src/Protocol/Trace/Streams.antt =====
-- `stream` of protocol.c, against the panel.
use greentags_lt213a_opendis.Prelude.{
  Bool, List, Status, Status-cases, [], arith, failed, false, inl, inr, length, refl, suc, true,
  zero, ℕ, ◌-◌, ◌∷◌, ◌≡◌, ◌≤◌,
}
use greentags_lt213a_opendis.Config.Flash.{FlashOps}
use greentags_lt213a_opendis.Protocol.Base.{
  Zlib, ZlibStatus, needs_input, output_ready, finished, error, System, World,
}
use greentags_lt213a_opendis.Protocol.Stream.{
  write_panel, stream_raw, drain, stream_zlib, stream, room, add_received, after_poll,
}
use greentags_lt213a_opendis.Protocol.Trace.{
  intact, Event, Device, recorded, panel, IsSafe, IsValid, IsActive, opened,
}

module _ {Z F : Type 0} (zlib : Zlib Z) (flash : FlashOps F) (build_sha : List ℕ) (d : Device) where
  abbrev sys : System Z F (List Event)
  sys = recorded zlib flash build_sha d

  pub panel-active :
      (w : World Z F (List Event))
      → IsActive w
      → panel w.device ≡ opened w.proto.expected w.proto.received
  unfolding IsValid
  panel-active w h = rw (h.0.1, h.1) refl

  -- The writer puts its bytes on record, and a success moves the panel on.
  pub write_panel-IsActive :
      (bytes : List ℕ) (w : World Z F (List Event))
      → IsActive w
      → length bytes ≤ w.proto.expected - w.proto.received
      → let (err, w') = write_panel sys bytes w in
        (w'.proto ≡ w.proto)
        × (failed err ≡ true → IsActive w')
        × (failed err ≡ false
            → IsActive (record w' { proto = add_received (length bytes) w'.proto }))
  unfolding write_panel IsValid panel IsSafe intact
  write_panel-IsActive [] w h fits = (refl, (λ e. ground (arith)), λ _. ground (arith))
  write_panel-IsActive (x ∷ bytes) w h fits =
      let at = panel-active w h in
      let ((bounds, _, safe, known), active) = h in
      elim (Status-cases (d.answer w.device)) [
        | inl y ↦ rw (y, at, active) (refl, (λ e. ground (arith)), λ _. ground (arith))
        | inr (e, y) ↦ rw (y, at, active) (refl, (λ _. ground (arith)), λ e. ground (arith))
      ]

  room-active :
      (w : World Z F (List Event)) → IsActive w → room w.proto ≡ w.proto.expected - w.proto.received
  unfolding IsValid
  room-active w h = ground (arith)

  stream_raw-IsActive :
      (bytes : List ℕ) (w : World Z F (List Event))
      → IsActive w
      → IsActive (stream_raw sys bytes w).1
  unfolding stream_raw
  stream_raw-IsActive bytes w h = ground (arith, room-active w h, write_panel-IsActive bytes w h)

  after_poll-IsActive :
      (status : ZlibStatus) (final : Bool) (w : World Z F (List Event))
      (again : Status × World Z F (List Event))
      → IsActive w
      → IsActive again.1
      → IsActive (after_poll sys status final w again).1
  unfolding IsValid
  after_poll-IsActive finished final w again h ok = h
  after_poll-IsActive needs_input final w again h ok = h
  after_poll-IsActive output_ready final w again h ok = ok
  after_poll-IsActive error final w again h ok = ok

  next_inflater-IsActive :
      (z : Z) (w : World Z F (List Event)) → IsActive w → IsActive (record w { inflater = z })
  unfolding IsValid
  next_inflater-IsActive z w h = h

  drain-IsActive :
      (fuel : ℕ) (final : Bool) (w : World Z F (List Event))
      → IsActive w
      → IsActive (drain sys fuel final w).1
  unfolding drain
  drain-IsActive zero final w h = h
  drain-IsActive (suc fuel) final w h =
      let (status, out, z) = zlib.poll 32 w.inflater in
      let polled : World Z F (List Event) = record w { inflater = z } in
      let (err, w') = write_panel sys out polled in
      let next : World Z F (List Event) = record w' {
        proto = add_received (length out) w'.proto;
      } in
      let again = drain sys fuel final next in
      let ok = next_inflater-IsActive z w h in
      ground (
        arith,
        ok,
        room-active w h,
        write_panel-IsActive out polled ok,
        drain-IsActive fuel final next,
        after_poll-IsActive status final next again,
      )

  pub stream-IsActive :
      (bytes : List ℕ) (final : Bool) (w : World Z F (List Event))
      → IsActive w
      → IsActive (stream sys bytes final w).1
  unfolding stream stream_zlib
  stream-IsActive bytes final w h =
      let (status, z) = zlib.push bytes final w.inflater in
      let pushed : World Z F (List Event) = record w { inflater = z } in
      let ok = next_inflater-IsActive z w h in
      ground (
        arith,
        ok,
        stream_raw-IsActive bytes w h,
        drain-IsActive (suc (room w.proto)) final pushed ok,
      )
