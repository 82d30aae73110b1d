-- ===== src/Config/Store/Commit.antt =====
-- The end of an update: the commit of `od_config_append`, and what a boot finds after it.
use greentags_lt213a_opendis.Prelude.{
  List, Option, Status, [], ap, arith, done, einval, fail, failed, false, if◌then◌else◌, length,
  length-append, nil_of_length, none, refl, some, splice, suc, true, u32, ℕ, ◌!=◌, ◌&&◌, ◌++◌, ◌+◌,
  ◌<◌, ◌^◌, ◌∙◌, ◌∷◌, ◌≡◌, ◌≢◌, ◌≤◌,
}
use greentags_lt213a_opendis.Config.Validate.{config_max, validate}
use greentags_lt213a_opendis.Config.Packets.{default_config}
use greentags_lt213a_opendis.Config.Flash.{FlashOps, FlashLaws}
use greentags_lt213a_opendis.Config.Store.{
  Config, Header, header_bytes, word32_bytes, target_of, header_size, cancel, write_words, commit,
  finish_append, append_at, append, get_config, blob,
}
use greentags_lt213a_opendis.Config.Store.Words.{write_words_induction}
use greentags_lt213a_opendis.Config.Store.Pages.{
  length-committed, generation-committed, blob-committed, filled, headed, committed, header_of,
  IsAccepted, blob-filled, byte-filled, good_slot, Programmable-header, Programmable-commit,
}
use greentags_lt213a_opendis.Config.Store.Recovery.{Boots, Boots-next}
use greentags_lt213a_opendis.Config.Store.Update.{
  IsConsistent, IsStaged, Boots-uncommitted, written, written-page, append_taken, append_at-done,
  filled_store,
}

-- What is in force once bytes are committed: they, or the built-in configuration if there are none.
abbrev pub in_force : ℕ → List ℕ → Option ℕ × List ℕ
in_force slot [] = (none, default_config)
in_force slot (x ∷ bytes) = (some slot, x ∷ bytes)

module _ {F : Type 0} (ops : FlashOps F) (laws : FlashLaws ops) where
  open ops use {write, read}

  write_words-other :
      (fuel slot offset : ℕ) (bytes : List ℕ) (f : F) (other : ℕ)
      → header_size ≤ offset
      → other ≢ slot
      → read (write_words ops fuel slot offset bytes f).1 other ≡ read f other
  write_words-other fuel slot offset bytes f other h ne =
      write_words_induction ops slot (λ g. read g other ≡ read f other)
        (λ base b g _ e. laws.write_other slot other base b g ne ∙ e) fuel offset bytes f h refl

  -- The loop fills a slot that a boot passes over.
  Boots-written :
      (bytes more : List ℕ) (c : Config F)
      → IsConsistent ops c
      → (s : IsStaged ops bytes c) → c.store.received + length more ≤ c.store.expected
      → (written ops laws bytes more c s).0 ≡ done
      → Boots ops c.store.active_slot c.store.generation (written ops laws bytes more c s).1
  Boots-written bytes more c v s fits ok =
      Boots-uncommitted ops laws c.store.active_slot c.store.generation c.flash _ v.boots
        (λ other ne.
          write_words-other (length more) _ (header_size + c.store.received) more c.flash other
            (omega arith) ne)
        (rw (written-page ops laws bytes more c s fits ok)
          (byte-filled (bytes ++ more) 12 (omega arith)))

  -- An append that reports no error and does not complete the configuration, on a consistent store
  -- with an update under way, adds its bytes to the update, keeps its announced size, and leaves the
  -- store consistent.
  pub append-IsStaged :
      (bytes more : List ℕ) (c : Config F)
      → IsConsistent ops c
      → IsStaged ops bytes c
      → (append ops more c).0 ≡ done
      → length bytes + length more ≢ c.store.expected
      → IsConsistent ops (append ops more c).1
        × IsStaged ops (bytes ++ more) (append ops more c).1
        × ((append ops more c).1.store.expected ≡ c.store.expected)
  append-IsStaged bytes more c v s ok waits =
      let (taken, fits) = append_taken ops laws bytes more c s ok in
      let (good, e) = append_at-done ops laws bytes more c s (rw taken at ok) fits in
      rw (taken, e, ltb_ne waits)
        (
          record {
            boots = Boots-written bytes more c v s fits good;
            small = v.small;
            installed = v.installed;
          },
          record {
            staging = s.staging;
            page = written-page ops laws bytes more c s fits good;
            received = omega (arith, s.received, length-append bytes more);
            fits = fits;
            most = s.most;
          },
          refl,
        )
    where
      ltb_ne :
          length bytes + length more ≢ c.store.expected
          → (c.store.received + length more != c.store.expected) ≡ true
      ltb_ne h = ground (arith, s.received)

  commit-other :
      (slot : ℕ) (h : Header) (f : F) (other : ℕ)
      → other ≢ slot
      → read (commit ops slot h f).1 other ≡ read f other
  unfolding commit
  commit-other slot h f other ne = split (write slot 0 (header_bytes h) f).0
    where
      f' : F
      f' = (write slot 0 (header_bytes h) f).1

      first : read f' other ≡ read f other
      first = laws.write_other slot other 0 (header_bytes h) f ne

      split :
          (s : Status)
          → read
              (elim s as (λ _. Status × F) [
                | fail e ↦ (fail e, f')
                | done ↦ write slot 12 (word32_bytes h.commit) f'
              ]).1
              other
            ≡ read f other
      split done = laws.write_other slot other 12 (word32_bytes h.commit) f' ne ∙ first
      split (fail e) = first

  commit_steps :
      (slot : ℕ) (h : Header) (f : F)
      → (commit ops slot h f).0 ≡ done
      → ((write slot 0 (header_bytes h) f).0 ≡ done)
        × (commit ops slot h f
            ≡ write slot 12 (word32_bytes h.commit) (write slot 0 (header_bytes h) f).1)
  unfolding commit
  commit_steps slot h f ok = ground arith

  -- The two writes of the commit, where neither fails.
  commit-done :
      (slot : ℕ) (h : Header) (bytes : List ℕ) (f : F)
      → read f slot ≡ filled bytes
      → (commit ops slot h f).0 ≡ done
      → read (commit ops slot h f).1 slot ≡ committed h bytes
  commit-done slot h bytes f page ok = rw second (
      laws.write_done slot 12 (word32_bytes h.commit) f' refl refl (omega arith)
        (rw first (Programmable-commit h bytes)) (rw second at ok)
      ∙ ap (splice 12 (word32_bytes h.commit)) first)
    where
      f' : F
      f' = (write slot 0 (header_bytes h) f).1

      wrote : (write slot 0 (header_bytes h) f).0 ≡ done
      wrote = (commit_steps slot h f ok).0

      second : commit ops slot h f ≡ write slot 12 (word32_bytes h.commit) f'
      second = (commit_steps slot h f ok).1

      first : read f' slot ≡ headed h bytes
      first =
          laws.write_done slot 0 (header_bytes h) f refl refl (omega arith)
            (rw page (Programmable-header h bytes)) wrote
          ∙ ap (splice 0 (header_bytes h)) page

  module _ (slot : ℕ) (bytes : List ℕ) (c : Config F) where
    abbrev pub header : Header
    header = header_of (u32 (c.store.generation + 1)) bytes

    abbrev pub finished : Config F
    finished = record {
      store = record c.store {
        active_slot = some slot;
        generation = u32 (c.store.generation + 1);
        staging = none;
        expected = 0;
        received = 0;
      };
      flash = (commit ops slot header c.flash).1;
    }

    module _ (page : read c.flash slot ≡ filled bytes) (len : length bytes ≡ c.store.expected)
        (most : c.store.expected ≤ config_max) where
      -- The commit, with the bytes that the slot holds.
      finish_append_lem : finish_append ops slot c ≡ (
          if length bytes != 0 && failed (validate bytes)
          then (fail einval, cancel ops c)
          else if failed (commit ops slot header c.flash).0
          then (
            (commit ops slot header c.flash).0,
            cancel ops (record c { flash = (commit ops slot header c.flash).1 }),
          )
          else (done, finished))
      unfolding finish_append
      finish_append_lem =
          let whole : blob (read c.flash slot) (length bytes) ≡ bytes =
            rw page (blob-filled bytes (omega arith)) in
          rw (finish_append, ← len, whole)

      finish_append-done :
          (finish_append ops slot c).0 ≡ done
          → IsAccepted bytes
            × ((commit ops slot header c.flash).0 ≡ done)
            × ((finish_append ops slot c).1 ≡ finished)
      finish_append-done ok = (
        (omega arith, ground (arith, finish_append_lem, nil_of_length bytes)),
        ground (arith, finish_append_lem),
        ground (arith, finish_append_lem),
      )

  finished-in_force :
      (slot : ℕ) (bytes : List ℕ) (c : Config F)
      → length bytes ≤ config_max
      → c.store.generation < 2 ^ 32
      → read (finished slot bytes c).flash slot ≡ committed (header slot bytes c) bytes
      → get_config ops (finished slot bytes c) ≡ in_force slot bytes
  unfolding get_config
  finished-in_force slot [] c fits small page =
      rw (page, length-committed (u32 (c.store.generation + 1)) [] (omega arith) fits)
  finished-in_force slot (x ∷ bytes) c fits small page =
      rw
        (
          page,
          length-committed (u32 (c.store.generation + 1)) (x ∷ bytes) (omega arith) fits,
          nonzero,
        )
        (ap (λ (b : List ℕ). (some slot, b))
          (blob-committed (header slot (x ∷ bytes) c) (x ∷ bytes) fits))
    where
      nonzero : (suc (length bytes) != 0) ≡ true
      nonzero = ground arith

  -- A commit that succeeds, in the slot that is not active: the state in memory is again what a boot finds.
  finished-IsConsistent :
      (bytes : List ℕ) (c : Config F)
      → IsConsistent ops c
      → IsAccepted bytes
      → read
          (finished (target_of c.store.active_slot) bytes c).flash
          (target_of c.store.active_slot)
        ≡ committed (header (target_of c.store.active_slot) bytes c) bytes
      → IsConsistent ops (finished (target_of c.store.active_slot) bytes c)
  finished-IsConsistent bytes c v fine page = record {
    boots =
        Boots-next ops c.flash _ c.store.active_slot c.store.generation v.boots
          (commit-other (target_of c.store.active_slot)
            (header (target_of c.store.active_slot) bytes c) c.flash)
          v.small (rw page (good_slot (u32 (c.store.generation + 1)) bytes (omega arith) fine))
          (rw page
            (generation-committed (u32 (c.store.generation + 1)) bytes (omega arith) fine.0));
    small = omega arith;
    installed = v.installed;
  }

  -- An append that completes the configuration and reports no error, on a consistent store with an
  -- update under way: the bytes are a configuration that the validator accepts, or none; from now on
  -- they are in force; no update is under way, the generation is the next one, and a boot from the
  -- flash finds the same slot and generation as the memory holds.
  pub append-commits :
      (bytes more : List ℕ) (c : Config F)
      → IsConsistent ops c
      → IsStaged ops bytes c
      → (append ops more c).0 ≡ done
      → length bytes + length more ≡ c.store.expected
      → IsAccepted (bytes ++ more)
        × IsConsistent ops (append ops more c).1
        × (get_config ops (append ops more c).1
            ≡ in_force (target_of c.store.active_slot) (bytes ++ more))
        × ((append ops more c).1.store.staging ≡ none)
        × ((append ops more c).1.store.generation ≡ u32 (c.store.generation + 1))
  append-commits bytes more c v s ok whole =
      rw (taken, e, full, finish.2)
        (
          finish.0,
          finished-IsConsistent (bytes ++ more) c' v' finish.0 page',
          finished-in_force slot (bytes ++ more) c' finish.0.0 v.small page',
          refl,
          refl,
        )
    where
      slot : ℕ
      slot = target_of c.store.active_slot

      c' : Config F
      c' = filled_store ops laws bytes more c s

      taken : append ops more c ≡ append_at ops slot more c
      taken = (append_taken ops laws bytes more c s ok).0

      fits : c.store.received + length more ≤ c.store.expected
      fits = (append_taken ops laws bytes more c s ok).1

      full : (c.store.received + length more != c.store.expected) ≡ false
      full = ground (arith, s.received)

      good : (written ops laws bytes more c s).0 ≡ done
      good = (append_at-done ops laws bytes more c s (rw taken at ok) fits).0

      e : append_at ops slot more c ≡ (
          if c.store.received + length more != c.store.expected
          then (done, c')
          else finish_append ops slot c')
      e = (append_at-done ops laws bytes more c s (rw taken at ok) fits).1

      page : read c'.flash slot ≡ filled (bytes ++ more)
      page = written-page ops laws bytes more c s fits good

      v' : IsConsistent ops c'
      v' = record {
        boots = Boots-written bytes more c v s fits good;
        small = v.small;
        installed = v.installed;
      }

      finish :
          IsAccepted (bytes ++ more)
          × ((commit ops slot (header slot (bytes ++ more) c') c'.flash).0 ≡ done)
          × ((finish_append ops slot c').1 ≡ finished slot (bytes ++ more) c')
      finish =
          finish_append-done slot (bytes ++ more) c' page (length-append bytes more ∙ whole) s.most
            (rw (taken, e, full) at ok)

      page' :
          read (finished slot (bytes ++ more) c').flash slot
          ≡ committed (header slot (bytes ++ more) c') (bytes ++ more)
      page' =
          commit-done slot (header slot (bytes ++ more) c') (bytes ++ more) c'.flash page finish.1
