-- ===== src/Config/Store/Update.antt =====
-- A configuration update: `od_config_start` and `od_config_append` against the flash.
use greentags_lt213a_opendis.Prelude.{
  List, Option, Status, [], ap₂, arith, byte, done, if◌then◌else◌, length, refl, some, splice,
  splice-splice, splice_empty, sym, true, u32, ℕ, ◌!=◌, ◌++◌, ◌+◌, ◌<◌, ◌^◌, ◌∙◌, ◌≡◌, ◌≢◌, ◌≤◌,
  ◌⊎◌,
}
use greentags_lt213a_opendis.Config.Validate.{config_max}
use greentags_lt213a_opendis.Config.Flash.{FlashOps, FlashLaws, erased_page}
use greentags_lt213a_opendis.Config.Store.{
  next_header, Config, target_of, header_size, start, write_words, commit, finish_append, append_at,
  append,
}
use greentags_lt213a_opendis.Config.Store.Words.{write_words-done}
use greentags_lt213a_opendis.Config.Store.Pages.{Blank-filled, filled, byte-filled}
use greentags_lt213a_opendis.Config.Store.Recovery.{Boots, uncommitted, Boots-kept}

module _ {F : Type 0} (ops : FlashOps F) where
  open ops use {erase, write, read}

  -- The state in memory is the one that a boot from the flash would find.
  pub record IsConsistent (c : Config F) : Type 0 where
    pub boots : Boots ops c.store.active_slot c.store.generation c.flash
    pub small : c.store.generation < 2 ^ 32
    pub installed : c.store.installed ≡ true

  -- An update has brought these bytes so far, into the slot that is not active.
  pub record IsStaged (bytes : List ℕ) (c : Config F) : Type 0 where
    pub staging : c.store.staging ≡ some (target_of c.store.active_slot)
    pub page : read c.flash (target_of c.store.active_slot) ≡ filled bytes
    pub received : c.store.received ≡ length bytes
    pub fits : c.store.received ≤ c.store.expected
    pub most : c.store.expected ≤ config_max

  module _ (laws : FlashLaws ops) where
    pub Boots-uncommitted :
        (active : Option ℕ) (gen : ℕ) (f f' : F)
        → Boots ops active gen f
        → ((other : ℕ) → other ≢ target_of active → read f' other ≡ read f other)
        → byte (read f' (target_of active)) 12 ≡ 255
        → Boots ops active gen f'
    Boots-uncommitted active gen f f' h same open_slot =
        Boots-kept ops f f' active gen h same (uncommitted (read f' (target_of active)) open_slot)

    -- An erase of the slot that is not active leaves the boot as it is.
    Boots-erase :
        (active : Option ℕ) (gen : ℕ) (f : F)
        → Boots ops active gen f
        → (erase (target_of active) f).0 ≡ done
        → Boots ops active gen (erase (target_of active) f).1
    Boots-erase active gen f h ok =
        Boots-uncommitted active gen f _ h
          (λ other ne. laws.erase_other (target_of active) other f ne)
          (rw (laws.erase_done (target_of active) f ok, ← splice_empty header_size erased_page)
            (byte-filled [] 12 (omega arith)))

    -- What `od_config_start` leaves, where it reports no error.
    abbrev started : ℕ → Config F → Config F
    started total c = record {
      store = record c.store {
        staging = some (target_of c.store.active_slot);
        expected = total;
        received = 0;
      };
      flash = (erase (target_of c.store.active_slot) c.flash).1;
    }

    start_lem :
        (total : ℕ) (c : Config F)
        → (start ops total c).0 ≡ done
        → ((start ops total c).1 ≡ started total c)
          × (total ≤ config_max)
          × ((erase (target_of c.store.active_slot) c.flash).0 ≡ done)
    unfolding start
    start_lem total c ok = (ground arith, ground arith, ground arith)

    -- A start that reports no error, on a consistent store, leaves the store consistent, with an
    -- empty update of the announced size under way.
    pub start-done :
        (total : ℕ) (c : Config F)
        → IsConsistent c
        → (start ops total c).0 ≡ done
        → IsConsistent (start ops total c).1
          × IsStaged [] (start ops total c).1
          × ((start ops total c).1.store.expected ≡ total)
    start-done total c v ok =
        let (e, fits, erased) = start_lem total c ok in
        rw e (
          record {
            boots = Boots-erase c.store.active_slot c.store.generation c.flash v.boots erased;
            small = v.small;
            installed = v.installed;
          },
          record {
            staging = refl;
            page = laws.erase_done _ c.flash erased ∙ sym (splice_empty header_size erased_page);
            received = refl;
            fits = omega arith;
            most = fits;
          },
          refl,
        )

    -- The flash after the word loop of an append.
    module _ (bytes more : List ℕ) (c : Config F) (s : IsStaged bytes c) where
      abbrev pub slot : ℕ
      slot = target_of c.store.active_slot

      abbrev pub written : Status × F
      written = write_words ops (length more) slot (header_size + c.store.received) more c.flash

      pub written-page :
          c.store.received + length more ≤ c.store.expected
          → written.0 ≡ done
          → read written.1 slot ≡ filled (bytes ++ more)
      written-page fits ok =
          write_words-done ops laws slot (length more) (header_size + c.store.received) more c.flash
            (omega (arith, s.most)) (omega arith)
            (rw (s.page, s.received) (Blank-filled bytes more)) ok
          ∙ ap₂ (λ (n : ℕ) (p : List ℕ). splice (header_size + n) more p) s.received s.page
          ∙ splice-splice header_size bytes more erased_page

      -- An append that reports no error has passed the tests on its length.
      pub append_taken :
          (append ops more c).0 ≡ done
          → (append ops more c ≡ append_at ops slot more c)
            × (c.store.received + length more ≤ c.store.expected)
      unfolding append
      append_taken ok =
          (ground (arith, s.staging, s.fits, s.most), ground (arith, s.staging, s.fits, s.most))

      abbrev pub filled_store : Config F
      filled_store = record {
        store = record c.store { received = c.store.received + length more };
        flash = written.1;
      }

      -- It has written its bytes; then it waits for more, or it goes on to the commit.
      pub append_at-done :
          (append_at ops slot more c).0 ≡ done
          → c.store.received + length more ≤ c.store.expected
          → (written.0 ≡ done)
            × (append_at ops slot more c ≡ (
                if c.store.received + length more != c.store.expected
                then (done, filled_store)
                else finish_append ops slot filled_store))
      unfolding append_at
      append_at-done ok fits =
          let no_wrap : u32 (c.store.received + length more) ≡ c.store.received + length more =
            omega (arith, s.most) in
          let g : written.0 ≡ done = ground arith in (g, rw (append_at, no_wrap, g))

-- The flash that an append leaves, on every branch.
module _ {F : Type 0} (ops : FlashOps F) where
  finish_append_flash :
      (target : ℕ) (c : Config F)
      → ((finish_append ops target c).1.flash ≡ c.flash)
        ⊎ ((finish_append ops target c).1.flash
            ≡ (commit ops target (next_header ops target c) c.flash).1)
  unfolding finish_append
  finish_append_flash target c = ground arith

  module _ (target : ℕ) (more : List ℕ) (c : Config F) where
    abbrev pub loop : Status × F
    loop = write_words ops (length more) target (header_size + c.store.received) more c.flash

    abbrev pub looped : Config F
    looped = record {
      store = record c.store { received = u32 (c.store.received + length more) };
      flash = loop.1;
    }

    pub append_at_flash :
        ((append_at ops target more c).1.flash ≡ loop.1)
        ⊎ ((loop.0 ≡ done)
            × (u32 (c.store.received + length more) ≡ c.store.expected)
            × ((append_at ops target more c).1.flash
                ≡ (commit ops target (next_header ops target looped) loop.1).1))
    unfolding append_at
    append_at_flash = ground (arith, finish_append_flash target looped)

  -- An append fails its tests and leaves the flash alone, or it goes on to the loop.
  pub append_flash :
      (bytes more : List ℕ) (c : Config F)
      → IsStaged ops bytes c
      → ((append ops more c).1.flash ≡ c.flash)
        ⊎ ((append ops more c ≡ append_at ops (target_of c.store.active_slot) more c)
            × (c.store.received + length more ≤ c.store.expected))
  unfolding append
  append_flash bytes more c s = ground (arith, s.staging, s.fits, s.most)
