-- ===== src/Protocol/Samples.antt =====
-- A decompressor that copies, a device that answers every call without an error, and an upload, for the
-- tests.
use greentags_lt213a_opendis.Prelude.{
  List, [], arith, done, drop, length, refl, replicate, take, true, ℕ, ◌++◌, ◌-◌, ◌∷◌, ◌≡◌,
}
use greentags_lt213a_opendis.Config.Flash.Nor.{Pages, pages, blank_pages}
use greentags_lt213a_opendis.Config.Store.{fresh_store}
use greentags_lt213a_opendis.Protocol.Base.{
  Protocol, Zlib, System, World, ZlibStatus, needs_input, output_ready, frame_bytes,
}
use greentags_lt213a_opendis.Protocol.Trace.{Event, Device, recorded}
use greentags_lt213a_opendis.Protocol.Trace.Upload.{concat, AreChunks}

-- The decompressor's state is what it has not given out yet.
abbrev pub copy_poll : ℕ → List ℕ → ZlibStatus × List ℕ × List ℕ
copy_poll n [] = (needs_input, [], [])
copy_poll n (x ∷ left) = (output_ready, x ∷ take (n - 1) left, drop (n - 1) left)

abbrev pub copying : Zlib (List ℕ)
copying = record {
  reset = λ size left. [];
  push = λ bytes final left. (needs_input, left ++ bytes);
  poll = copy_poll;
}

abbrev pub agreeable : Device
agreeable = record {
  answer = λ h. done;
  has_sample = true;
  has_region = true;
  msd = λ h. replicate 16 0;
}

abbrev pub Run : Type 0
Run = World (List ℕ) Pages (List Event)

abbrev pub tag : System (List ℕ) Pages (List Event)
tag = recorded copying pages [] agreeable

abbrev pub tag_at : Protocol → Run
tag_at p = record {
  proto = p;
  config = record { store = fresh_store; flash = blank_pages };
  inflater = [];
  device = [];
}

-- 12 chunks, and their END.
abbrev pub chunks : List (List ℕ)
chunks = replicate 11 (replicate 230 7) ++ replicate 226 9 ∷ []

pub chunks-AreChunks : AreChunks chunks
unfolding AreChunks
chunks-AreChunks = ground (arith)

pub chunks_whole : length (concat chunks) ≡ frame_bytes
unfolding concat
chunks_whole = refl
