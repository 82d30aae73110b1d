-- ===== src/Config/Flash.antt =====
-- `struct od_flash_ops` of config_store.h: what config_store.c asks of the flash driver, and what
-- the driver promises. `storage.c` hands the calls on to Zephyr, which is not part of the sources.
-- A slot is one erase page of 1 KiB.
pub mod Nor
use greentags_lt213a_opendis.Prelude.{
  List, Status, [], done, drop, length, replicate, splice, ℕ, ◌%◌, ◌+◌, ◌∷◌, ◌≡◌, ◌≢◌, ◌≤◌, ◌⊎◌,
}

abbrev pub slot_bytes : ℕ
slot_bytes = 1024

-- Every byte of an erased page is 255.
unfoldable pub erased_page : List ℕ
erased_page = replicate slot_bytes 255

-- Each call takes the state of the flash, and returns the new state beside its result.
pub record FlashOps (F : Type 0) : Type 0 where
  pub erase : ℕ → F → Status × F
  pub write : ℕ → ℕ → List ℕ → F → Status × F
  pub read : F → ℕ → List ℕ

-- A byte can be programmed if it is erased, or if it keeps its value.
abbrev pub Programmable : List ℕ → List ℕ → Type 0
Programmable [] new = Unit
Programmable (o ∷ old) [] = Unit
Programmable (o ∷ old) (n ∷ new) = ((o ≡ 255) ⊎ (n ≡ o)) × Programmable old new

module _ {F : Type 0} (ops : FlashOps F) where
  open ops use {erase, write, read}

  pub record FlashLaws : Type 0 where
    pub read_length : (f : F) (slot : ℕ) → length (read f slot) ≡ slot_bytes
    -- A call leaves the other slot alone, whether it fails or not.
    pub erase_other :
        (slot other : ℕ) (f : F) → other ≢ slot → read (erase slot f).1 other ≡ read f other
    pub write_other :
        (slot other offset : ℕ) (bytes : List ℕ) (f : F)
        → other ≢ slot
        → read (write slot offset bytes f).1 other ≡ read f other
    pub erase_done :
        (slot : ℕ) (f : F) → (erase slot f).0 ≡ done → read (erase slot f).1 slot ≡ erased_page
    -- Whole aligned words are written as asked, where they can be programmed.
    pub write_done :
        (slot offset : ℕ) (bytes : List ℕ) (f : F)
        → offset % 4 ≡ 0
        → length bytes % 4 ≡ 0
        → offset + length bytes ≤ slot_bytes
        → Programmable (drop offset (read f slot)) bytes
        → (write slot offset bytes f).0 ≡ done
        → read (write slot offset bytes f).1 slot ≡ splice offset bytes (read f slot)
    -- A write that fails may leave anything at its place, and nothing elsewhere.
    pub write_frame :
        (slot offset : ℕ) (bytes : List ℕ) (f : F)
        → (left : List ℕ) × (length left ≡ length bytes)
          × (read (write slot offset bytes f).1 slot ≡ splice offset left (read f slot))
