-- ===== src/Config/Store/Recovery.antt =====
-- What `od_config_init` finds on a flash while an update is under way.
use greentags_lt213a_opendis.Prelude.{
  Bool, List, Option, arith, byte, false, if◌then◌else◌, inl, inr, none, refl, some, true, u32, ℕ,
  ◌+◌, ◌<◌, ◌==◌, ◌^◌, ◌≡◌, ◌≢◌, ◌⊎◌,
}
use greentags_lt213a_opendis.Config.Flash.{FlashOps}
use greentags_lt213a_opendis.Config.Store.{
  Store, read_header, bad_slot, init_slot, fresh_store, target_of, init,
}

-- The state after a boot that chose a slot, or none.
abbrev pub booted : Option ℕ → ℕ → Store
booted active gen = record fresh_store { active_slot = active; generation = gen }

-- The slot that an update does not touch, for the slot that it writes.
abbrev pub other_slot : ℕ → ℕ
other_slot slot = if slot == 0 then 1 else 0

-- A slot whose commit word is not written is passed over.
pub uncommitted : (slot : List ℕ) → byte slot 12 ≡ 255 → bad_slot slot ≡ true
unfolding bad_slot read_header
uncommitted slot h = ground arith

-- The two slots as `od_config_init` sees them.
abbrev scan : List ℕ → List ℕ → Store
scan first second = init_slot 1 second (init_slot 0 first fresh_store)

-- `b` is the slot 0 or 1 by the flag.
abbrev pick : Bool → List ℕ → List ℕ → List ℕ
pick first a b = if first then a else b

-- Where the slot that an update writes is not committed, a boot finds what it found before.
scan_kept :
    (a b a' b' : List ℕ) (active : Option ℕ) (gen : ℕ)
    → scan a b ≡ booted active gen
    → bad_slot (pick (target_of active == 0) a' b') ≡ true
    → pick (target_of active == 0) b' a' ≡ pick (target_of active == 0) b a
    → scan a' b' ≡ booted active gen
unfolding init_slot
scan_kept a b a' b' none gen h bad same = ground arith
scan_kept a b a' b' (some i) gen h bad same = ground arith

-- Where it is committed with the next generation, a boot finds it.
scan_new :
    (a b a' b' : List ℕ) (active : Option ℕ) (gen : ℕ)
    → gen < 2 ^ 32
    → scan a b ≡ booted active gen
    → bad_slot (pick (target_of active == 0) a' b') ≡ false
    → (read_header (pick (target_of active == 0) a' b')).generation ≡ u32 (gen + 1)
    → pick (target_of active == 0) b' a' ≡ pick (target_of active == 0) b a
    → scan a' b' ≡ booted (some (target_of active)) (u32 (gen + 1))
unfolding init_slot
scan_new a b a' b' none gen small h good next same = ground arith
scan_new a b a' b' (some i) gen small h good next same = ground arith

target_cases : (active : Option ℕ) → (target_of active ≡ 0) ⊎ (target_of active ≡ 1)
target_cases none = inl refl
target_cases (some i) = ground arith

pick_slot : (r : ℕ → List ℕ) (s : ℕ) → (s ≡ 0) ⊎ (s ≡ 1) → pick (s == 0) (r 0) (r 1) ≡ r s
pick_slot r s (inl e) = rw e
pick_slot r s (inr e) = rw e

pick_other :
    (r r' : ℕ → List ℕ) (s : ℕ)
    → (s ≡ 0) ⊎ (s ≡ 1)
    → ((other : ℕ) → other ≢ s → r' other ≡ r other)
    → pick (s == 0) (r' 1) (r' 0) ≡ pick (s == 0) (r 1) (r 0)
pick_other r r' s (inl e) same = rw e (same 1 (omega arith))
pick_other r r' s (inr e) same = rw e (same 0 (omega arith))

module _ {F : Type 0} (ops : FlashOps F) where
  open ops use {erase, write, read}

  -- A boot from the flash chooses this slot, or none, and this generation.
  abbrev pub Boots : Option ℕ → ℕ → F → Type 0
  Boots active gen f = init ops f ≡ booted active gen

  module _ (f f' : F) (active : Option ℕ) (gen : ℕ) where
    abbrev slot : ℕ
    slot = target_of active

    module _ (h : Boots active gen f)
        (same : (other : ℕ) → other ≢ slot → read f' other ≡ read f other) where
      pub Boots-kept : bad_slot (read f' slot) ≡ true → Boots active gen f'
      unfolding init
      Boots-kept bad =
          scan_kept (read f 0) (read f 1) (read f' 0) (read f' 1) active gen h
            (rw (pick_slot (read f') slot (target_cases active)) bad)
            (pick_other (read f) (read f') slot (target_cases active) same)

      pub Boots-next :
          gen < 2 ^ 32
          → bad_slot (read f' slot) ≡ false
          → (read_header (read f' slot)).generation ≡ u32 (gen + 1)
          → Boots (some slot) (u32 (gen + 1)) f'
      unfolding init
      Boots-next small good next =
          scan_new (read f 0) (read f 1) (read f' 0) (read f' 1) active gen small h
            (rw (pick_slot (read f') slot (target_cases active)) good)
            (rw (pick_slot (read f') slot (target_cases active)) next)
            (pick_other (read f) (read f') slot (target_cases active) same)

    -- A flash with the same slots boots the same.
    pub Boots-same : Boots active gen f → ((s : ℕ) → read f' s ≡ read f s) → Boots active gen f'
    unfolding init
    Boots-same h same = rw (same 0, same 1) h
