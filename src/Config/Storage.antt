-- ===== src/Config/Storage.antt =====
-- storage.c: the calls of `struct od_flash_ops` on the flash device of Zephyr.
use greentags_lt213a_opendis.Prelude.{List, Status, ℕ, ◌*◌, ◌+◌}
use greentags_lt213a_opendis.Config.Flash.{FlashOps}

-- flash_erase and flash_write take an address; the flash is mapped into memory, where the last reads.
pub record FlashDevice (D : Type 0) : Type 0 where
  pub flash_erase : ℕ → ℕ → D → Status × D
  pub flash_write : ℕ → List ℕ → D → Status × D
  pub memory : ℕ → ℕ → D → List ℕ

-- `base` is BASE, the address of the storage partition.
abbrev pub slot_address : ℕ → ℕ → ℕ
slot_address base slot = base + slot * 1024

abbrev pub storage_ops : {D : Type 0} → FlashDevice D → ℕ → FlashOps D
storage_ops device base = record {
  erase = λ slot. device.flash_erase (slot_address base slot) 1024;
  write = λ slot offset bytes. device.flash_write (slot_address base slot + offset) bytes;
  read = λ f slot. device.memory (slot_address base slot) 1024 f;
}
