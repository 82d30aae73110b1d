-- ===== src/Protocol/Stream.antt =====
-- `stream` of protocol.c: image bytes on their way to the panel, raw or through the decompressor.
pub mod Fuel
use greentags_lt213a_opendis.Prelude.{
  Act, Bool, List, Status, [], done, ebadmsg, efbig, fail, failed, false, if◌then◌else◌, length,
  ltb, out_of_rounds, sub32, suc, true, u32, zero, ℕ, ◌+◌, ◌||◌, ◌∷◌,
}
use greentags_lt213a_opendis.Protocol.Base.{
  Protocol, System, World, ZlibStatus, needs_input, output_ready, finished, error, on_device,
}

-- p->expected - p->received
abbrev pub room : Protocol → ℕ
room p = sub32 p.expected p.received

abbrev pub add_received : ℕ → Protocol → Protocol
add_received n p = record p { received = u32 (p.received + n) }

abbrev pub is_error : ZlibStatus → Bool
is_error error = true
is_error _ = false

module _ {Z F W : Type 0} (sys : System Z F W) where
  abbrev pub Run : Type 0
  Run = Status × World Z F W

  -- count ? io->write(...) : 0
  unfoldable pub write_panel : List ℕ → Act (World Z F W) Status
  write_panel [] w = (done, w)
  write_panel (x ∷ bytes) w = on_device (sys.io.write (x ∷ bytes)) w

  unfoldable pub stream_raw : List ℕ → Act (World Z F W) Status
  stream_raw bytes w =
      let (err, w') = write_panel bytes w in
      if ltb (room w.proto) (length bytes)
      then (fail efbig, w)
      else if failed err
      then (err, w')
      else (done, record w' { proto = add_received (length bytes) w'.proto })

  -- What the loop does with a status, once the bytes are written.
  abbrev pub after_poll : ZlibStatus → Bool → World Z F W → Run → Run
  after_poll finished final w again = (done, record w { proto = record w.proto { zdone = true } })
  after_poll needs_input final w again = (if final then fail ebadmsg else done, w)
  after_poll output_ready final w again = again
  after_poll error final w again = again

  -- The loop `for (;;)`. `stream` gives it a round for each byte that is still to come, and one more.
  unfoldable pub drain : ℕ → Bool → Act (World Z F W) Status
  drain zero final w = (fail out_of_rounds, w)
  drain (suc fuel) final w =
      let (status, out, z) = sys.zlib.poll 32 w.inflater in
      let (err, w') = write_panel out (record w { inflater = z }) in
      let w'' = record w' { proto = add_received (length out) w'.proto } in
      let again = drain fuel final w'' in
      if is_error status || ltb (room w.proto) (length out)
      then (fail ebadmsg, record w { inflater = z })
      else if failed err
      then (err, w')
      else after_poll status final w'' again

  unfoldable pub stream_zlib : List ℕ → Bool → Act (World Z F W) Status
  stream_zlib bytes final w =
      let (status, z) = sys.zlib.push bytes final w.inflater in
      if is_error status
      then (fail ebadmsg, record w { inflater = z })
      else drain (suc (room w.proto)) final (record w { inflater = z })

  unfoldable pub stream : List ℕ → Bool → Act (World Z F W) Status
  stream bytes final w =
      if w.proto.compressed then stream_zlib bytes final w else stream_raw bytes w
