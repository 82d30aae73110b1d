-- ===== src/Config/Store.antt =====
-- The transaction slots of config_store.c: `od_config_init`, `od_config_get`, `od_config_writing`,
-- `od_config_cancel`, `od_config_start`, `od_config_append` and `od_config_clear`.
pub mod Words
pub mod Pages
pub mod Recovery
pub mod Update
pub mod Commit
pub mod PowerLoss
use greentags_lt213a_opendis.Prelude.{
  Bool, List, Option, Status, [], byte, done, drop, einval, fail, failed, false, if◌then◌else◌,
  length, ltb, none, not, some, splice, sub32, suc, take, true, u32, zero, ℕ, ◌!=◌, ◌%◌, ◌&&◌, ◌*◌,
  ◌++◌, ◌+◌, ◌-◌, ◌/◌, ◌==◌, ◌^◌, ◌||◌, ◌∷◌,
}
use greentags_lt213a_opendis.Config.Crc.{crc}
use greentags_lt213a_opendis.Config.Validate.{config_max, validate}
use greentags_lt213a_opendis.Config.Packets.{default_config}
use greentags_lt213a_opendis.Config.Flash.{FlashOps}

-- The static variables; `none` is slot -1. `installed` says that `flash` is not NULL.
pub record Store : Type 0 where
  pub installed : Bool
  pub active_slot : Option ℕ
  pub staging : Option ℕ
  pub expected : ℕ
  pub received : ℕ
  pub generation : ℕ

-- The state of config_store.c and of the flash that it writes.
pub record Config (F : Type 0) : Type 0 where
  pub store : Store
  pub flash : F

abbrev pub commit_word : ℕ
commit_word = 0x434f444f

abbrev pub header_size : ℕ
header_size = 16

-- A uint32_t in memory, little-endian.
abbrev pub word32 : List ℕ → ℕ → ℕ
word32 bytes i =
    byte bytes i
    + byte bytes (i + 1) * 2 ^ 8
    + byte bytes (i + 2) * 2 ^ 16
    + byte bytes (i + 3) * 2 ^ 24

abbrev pub word32_bytes : ℕ → List ℕ
word32_bytes w = w % 256 ∷ w / 2 ^ 8 % 256 ∷ w / 2 ^ 16 % 256 ∷ w / 2 ^ 24 % 256 ∷ []

-- struct header
pub record Header : Type 0 where
  pub generation : ℕ
  pub length : ℕ
  pub checksum : ℕ
  pub commit : ℕ

unfoldable pub read_header : List ℕ → Header
read_header slot = record {
  generation = word32 slot 0;
  length = word32 slot 4;
  checksum = word32 slot 8;
  commit = word32 slot 12;
}

-- The `len` bytes behind the header.
abbrev pub blob : List ℕ → ℕ → List ℕ
blob slot len = take len (drop header_size slot)

-- The tests by which `od_config_init` passes over a slot.
unfoldable pub bad_slot : List ℕ → Bool
bad_slot slot =
    let h = read_header slot in
    h.commit != commit_word
    || ltb config_max h.length
    || crc (blob slot h.length) false != h.checksum
    || (h.length != 0 && failed (validate (blob slot h.length)))

-- (int32_t)(a - b) > 0
abbrev pub newer : ℕ → ℕ → Bool
newer a b = ltb 0 (sub32 a b) && ltb (sub32 a b) (2 ^ 31)

abbrev pub is_none : Option ℕ → Bool
is_none none = true
is_none (some i) = false

-- One round of the loop in `od_config_init`.
unfoldable pub init_slot : ℕ → List ℕ → Store → Store
init_slot i slot s =
    let h = read_header slot in
    if bad_slot slot
    then s
    else if is_none s.active_slot || newer h.generation s.generation
    then record s { active_slot = some i; generation = h.generation }
    else s

abbrev pub fresh_store : Store
fresh_store = record {
  installed = true;
  active_slot = none;
  staging = none;
  expected = 0;
  received = 0;
  generation = 0;
}

-- active_slot == 0 ? 1 : 0
abbrev pub target_of : Option ℕ → ℕ
target_of none = 0
target_of (some i) = if i == 0 then 1 else 0

-- The word that the loop writes: the flash word at `offset & ~3` with the first bytes of the data
-- over it from `offset & 3` on.
abbrev pub next_word : List ℕ → ℕ → List ℕ → List ℕ
next_word slot offset bytes =
    splice (offset % 4) (take (4 - offset % 4) bytes) (take 4 (drop (offset / 4 * 4) slot))

abbrev pub header_bytes : Header → List ℕ
header_bytes h = word32_bytes h.generation ++ (word32_bytes h.length ++ word32_bytes h.checksum)

module _ {F : Type 0} (ops : FlashOps F) where
  open ops use {erase, write, read}

  -- At boot `expected` and `received` are zero, as all static variables.
  unfoldable pub init : F → Store
  init f = init_slot 1 (read f 1) (init_slot 0 (read f 0) fresh_store)

  -- The slot that the returned pointer points into, or `none` for `od_config`, and the bytes.
  unfoldable pub get_config : Config F → Option ℕ × List ℕ
  get_config c = elim c.store.active_slot [
    | none ↦ (none, default_config)
    | some i ↦
        let len = word32 (read c.flash i) 4 in
        if len != 0 then (some i, blob (read c.flash i) len) else (none, default_config)
  ]

  unfoldable pub writing : Config F → Bool
  writing c = not (is_none c.store.staging)

  unfoldable pub cancel : Config F → Config F
  cancel c = record c { store = record c.store { staging = none; expected = 0; received = 0 } }

  unfoldable pub start : ℕ → Config F → Status × Config F
  unfolding cancel
  start total c =
      let c' = cancel c in
      let target = target_of c.store.active_slot in
      let (err, f) = erase target c.flash in
      if ltb config_max total || not c.store.installed
      then (fail einval, c')
      else if failed err
      then (err, record c' { flash = f })
      else (
        done,
        record { store = record c'.store { staging = some target; expected = total }; flash = f },
      )

  -- The loop from `offset` on over the bytes that are left. A round of fuel for each byte is enough.
  unfoldable pub write_words : ℕ → ℕ → ℕ → List ℕ → F → Status × F
  write_words zero slot offset bytes f = (done, f)
  write_words (suc fuel) slot offset [] f = (done, f)
  write_words (suc fuel) slot offset (x ∷ bytes) f =
      let step = write slot (offset / 4 * 4) (next_word (read f slot) offset (x ∷ bytes)) f in
      elim step.0 [
        | fail e ↦ (fail e, step.1)
        | done ↦
            write_words fuel slot (offset + length (take (4 - offset % 4) (x ∷ bytes)))
              (drop (4 - offset % 4) (x ∷ bytes)) step.1
      ]

  -- The two writes that commit a blob: the header, and its last word by itself.
  unfoldable pub commit : ℕ → Header → F → Status × F
  commit slot h f =
      let (err, f') = write slot 0 (header_bytes h) f in
      elim err [ fail e ↦ (fail e, f') | done ↦ write slot 12 (word32_bytes h.commit) f' ]

  -- The header of the blob that a slot holds.
  abbrev pub next_header : ℕ → Config F → Header
  next_header slot c = record {
    generation = u32 (c.store.generation + 1);
    length = c.store.expected;
    checksum = crc (blob (read c.flash slot) c.store.expected) false;
    commit = commit_word;
  }

  -- What `od_config_append` does once all bytes are there.
  unfoldable pub finish_append : ℕ → Config F → Status × Config F
  unfolding cancel
  finish_append slot c =
      let s = c.store in
      let bytes = blob (read c.flash slot) s.expected in
      let h = next_header slot c in
      let (err, f) = commit slot h c.flash in
      if s.expected != 0 && failed (validate bytes)
      then (fail einval, cancel c)
      else if failed err
      then (err, cancel (record c { flash = f }))
      else (
        done,
        cancel (record {
          store = record s { active_slot = some slot; generation = h.generation };
          flash = f;
        }),
      )

  unfoldable pub append_at : ℕ → List ℕ → Config F → Status × Config F
  unfolding cancel
  append_at slot bytes c =
      let s = c.store in
      let (err, f) = write_words (length bytes) slot (header_size + s.received) bytes c.flash in
      let c' : Config F = record {
        store = record s { received = u32 (s.received + length bytes) };
        flash = f;
      } in
      if failed err
      then (err, cancel (record c { flash = f }))
      else if c'.store.received != s.expected
      then (done, c')
      else finish_append slot c'

  unfoldable pub append : List ℕ → Config F → Status × Config F
  unfolding cancel
  append bytes c =
      let s = c.store in
      elim s.staging [
        | none ↦ (fail einval, cancel c)
        | some slot ↦
            if ltb (sub32 s.expected s.received) (length bytes)
              || (length bytes == 0 && s.expected != 0)
            then (fail einval, cancel c)
            else append_at slot bytes c
      ]

  unfoldable pub clear : Config F → Status × Config F
  clear c = let (err, c') = start 0 c in if failed err then (err, c') else append [] c'
