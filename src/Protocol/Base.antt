-- ===== src/Protocol/Base.antt =====
-- The state of protocol.c, and what it is connected to: the callbacks of `struct od_io`, the streaming
-- decompressor and the configuration store.
use greentags_lt213a_opendis.Prelude.{Act, Bool, List, Option, Status, false, ℕ, ◌*◌, ◌/◌}
use greentags_lt213a_opendis.Config.Flash.{FlashOps}
use greentags_lt213a_opendis.Config.Store.{Config}

abbrev pub epd_width : ℕ
epd_width = 104

abbrev pub epd_height : ℕ
epd_height = 212

-- EPD_FRAME_BYTES
abbrev pub frame_bytes : ℕ
frame_bytes = epd_width / 8 * epd_height

-- OD_MAX_FRAME
abbrev pub max_frame : ℕ
max_frame = 244

-- struct od_protocol
pub record Protocol : Type 0 where
  pub received : ℕ
  pub expected : ℕ
  pub displayed_etag : ℕ
  pub new_etag : ℕ
  pub pipe_frames : ℕ
  pub pipe_frame : ℕ
  pub next_seq : ℕ
  pub compressed : Bool
  pub zdone : Bool
  pub pipe : Bool
  pub pipe_failed : Bool
  pub partial : Bool
  pub active : Bool

-- struct od_io. `W` is the state behind `ctx` and the hardware; `msd` is the array that it points to.
pub record Io (W : Type 0) : Type 0 where
  pub send : List ℕ → W → Status × W
  pub begin : W → Status × W
  pub write : List ℕ → W → Status × W
  pub finish : ℕ → W → Status × W
  pub abort : W → W
  pub reboot : W → W
  pub msd : W → List ℕ
  pub sample_msd : Option (W → Status × W)
  pub region : Option (ℕ → ℕ → ℕ → ℕ → W → Status × W)

-- od_zlib_status_t
pub data ZlibStatus : Type 0 where
  needs_input output_ready finished error : ZlibStatus

-- The interface of third_party/uzlib: `poll` takes the capacity and returns the bytes produced.
pub record Zlib (Z : Type 0) : Type 0 where
  pub reset : ℕ → Z → Z
  pub push : List ℕ → Bool → Z → ZlibStatus × Z
  pub poll : ℕ → Z → ZlibStatus × List ℕ × Z

pub record System (Z F W : Type 0) : Type 0 where
  pub zlib : Zlib Z
  pub flash : FlashOps F
  pub io : Io W
  -- OD_BUILD_SHA
  pub build_sha : List ℕ

pub record World (Z F W : Type 0) : Type 0 where
  pub proto : Protocol
  pub config : Config F
  pub inflater : Z
  pub device : W

module _ {Z F W : Type 0} where
  -- A call into one of the parts.
  abbrev pub on_device : {A : Type 0} → Act W A → Act (World Z F W) A
  on_device m w = let (a, d) = m w.device in (a, record w { device = d })

  abbrev pub on_config : {A : Type 0} → Act (Config F) A → Act (World Z F W) A
  on_config m w = let (a, c) = m w.config in (a, record w { config = c })

-- od_reset
unfoldable pub od_reset : Protocol → Protocol
od_reset p = record p {
  active = false;
  received = 0;
  expected = frame_bytes;
  compressed = false;
  zdone = false;
  pipe = false;
  pipe_failed = false;
  partial = false;
  new_etag = 0;
  pipe_frames = 0;
  next_seq = 0;
}
