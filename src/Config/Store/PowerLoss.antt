-- ===== src/Config/Store/PowerLoss.antt =====
-- A reset at any time during an update. A journal keeps every state that the flash goes through; a
-- reset is a boot from one of them.
use greentags_lt213a_opendis.Prelude.{
  Bool-cases, List, Option, Status, [], ap, arith, byte, done, fail, get_or-splice_after,
  get_or-splice_before, inl, inr, length, refl, some, splice, u32, ℕ, ◌++◌, ◌+◌, ◌<◌, ◌^◌, ◌∙◌, ◌∷◌,
  ◌≡◌, ◌≢◌, ◌≤◌, ◌⊎◌,
}
use greentags_lt213a_opendis.Config.Flash.{FlashOps, FlashLaws}
use greentags_lt213a_opendis.Config.Store.{
  Config, Header, header_bytes, word32_bytes, read_header, bad_slot, target_of, header_size, init,
  next_header, write_words, commit, append_at, append,
}
use greentags_lt213a_opendis.Config.Store.Words.{write_words_induction}
use greentags_lt213a_opendis.Config.Store.Pages.{
  filled, headed, Programmable-header, byte-filled, generation-headed,
}
use greentags_lt213a_opendis.Config.Store.Recovery.{Boots, Boots-kept, Boots-next}
use greentags_lt213a_opendis.Config.Store.Update.{
  IsConsistent, IsStaged, Boots-uncommitted, written-page, append_flash, append_at_flash, loop,
  looped,
}

-- A flash with the states that it has gone through, the newest first.
abbrev pub Journal : Type 0 → Type 0
Journal F = F × List F

abbrev pub journal : {F : Type 0} → FlashOps F → FlashOps (Journal F)
journal ops = record {
  erase = λ slot j. let (err, f) = ops.erase slot j.0 in (err, (f, f ∷ j.1));
  write =
      λ slot offset bytes j. let (err, f) = ops.write slot offset bytes j.0 in (err, (f, f ∷ j.1));
  read = λ j slot. ops.read j.0 slot;
}

abbrev pub All {ℓ} : {A : Type 0} → (A → Type ℓ) → List A → Type ℓ
All P [] = Unit
All P (x ∷ xs) = P x × All P xs

module _ {F : Type 0} (ops : FlashOps F) (laws : FlashLaws ops) where
  journal-FlashLaws : FlashLaws (journal ops)
  journal-FlashLaws = record {
    read_length = λ j slot. laws.read_length j.0 slot;
    erase_other = λ slot other j ne. laws.erase_other slot other j.0 ne;
    write_other = λ slot other offset bytes j ne. laws.write_other slot other offset bytes j.0 ne;
    erase_done = λ slot j ok. laws.erase_done slot j.0 ok;
    write_done = λ slot offset bytes j a b c d ok. laws.write_done slot offset bytes j.0 a b c d ok;
    write_frame = λ slot offset bytes j. laws.write_frame slot offset bytes j.0;
  }

  module _ (active : Option ℕ) (gen : ℕ) where
    abbrev slot : ℕ
    slot = target_of active

    -- An update is under way: a boot finds the old configuration, and would have at every moment so far.
    record IsOpen (j : Journal F) : Type 0 where
      boots : Boots ops active gen j.0
      uncommitted : byte (ops.read j.0 slot) 12 ≡ 255
      past : All (Boots ops active gen) j.1

    IsOpen-write :
        (offset : ℕ) (bytes : List ℕ) (j : Journal F)
        → (offset + length bytes ≤ 12) ⊎ (13 ≤ offset)
        → IsOpen j
        → IsOpen ((journal ops).write slot offset bytes j).1
    IsOpen-write offset bytes j clear o = record {
      boots = boots';
      uncommitted = open_slot;
      past = (boots', o.past);
    }
      where
        f' : F
        f' = (ops.write slot offset bytes j.0).1

        untouched :
            (left : List ℕ)
            → length left ≡ length bytes
            → (offset + length bytes ≤ 12) ⊎ (13 ≤ offset)
            → byte (splice offset left (ops.read j.0 slot)) 12 ≡ byte (ops.read j.0 slot) 12
        untouched left len (inl h) =
            get_or-splice_after offset 12 left (ops.read j.0 slot) 0 (omega arith)
        untouched left len (inr h) =
            get_or-splice_before offset 12 left (ops.read j.0 slot) 0 (omega arith)

        open_slot : byte (ops.read f' slot) 12 ≡ 255
        open_slot =
            let (left, len, e) = laws.write_frame slot offset bytes j.0 in
            rw e (untouched left len clear ∙ o.uncommitted)

        boots' : Boots ops active gen f'
        boots' =
            Boots-uncommitted ops laws active gen j.0 f' o.boots
              (λ other ne. laws.write_other slot other offset bytes j.0 ne) open_slot

    IsOpen-write_words :
        (fuel offset : ℕ) (bytes : List ℕ) (j : Journal F)
        → header_size ≤ offset
        → IsOpen j
        → IsOpen (write_words (journal ops) fuel slot offset bytes j).1
    IsOpen-write_words fuel offset bytes j h o =
        write_words_induction (journal ops) slot IsOpen
          (λ base b i behind p. IsOpen-write base b i (inr (omega arith)) p) fuel offset bytes j h o

    -- A boot finds the old configuration, or the one that is being committed.
    abbrev pub OldOrNew : F → Type 0
    OldOrNew f = Boots ops active gen f ⊎ Boots ops (some slot) (u32 (gen + 1)) f

    All-OldOrNew : (fs : List F) → All (Boots ops active gen) fs → All OldOrNew fs
    All-OldOrNew [] h = tt
    All-OldOrNew (f ∷ fs) h = (inl h.0, All-OldOrNew fs h.1)

    -- The write of the commit word, whatever becomes of it.
    OldOrNew-commit_word :
        (h : Header) (bytes word : List ℕ) (f : F)
        → gen < 2 ^ 32
        → h.generation ≡ u32 (gen + 1)
        → Boots ops active gen f
        → ops.read f slot ≡ headed h bytes
        → OldOrNew (ops.write slot 12 word f).1
    OldOrNew-commit_word h bytes word f small next boots page =
        elim (Bool-cases (bad_slot (ops.read f' slot))) [
          | inl bad ↦ inl (Boots-kept ops f f' active gen boots same bad)
          | inr good ↦ inr (Boots-next ops f f' active gen boots same small good generation)
        ]
      where
        f' : F
        f' = (ops.write slot 12 word f).1

        same : (other : ℕ) → other ≢ slot → ops.read f' other ≡ ops.read f other
        same other ne = laws.write_other slot other 12 word f ne

        generation : (read_header (ops.read f' slot)).generation ≡ u32 (gen + 1)
        generation =
            let (left, len, e) = laws.write_frame slot 12 word f in
            rw (e, page) (generation-headed h bytes left (omega arith) ∙ next)

    All-OldOrNew-commit :
        (h : Header) (bytes : List ℕ) (j : Journal F)
        → gen < 2 ^ 32
        → h.generation ≡ u32 (gen + 1)
        → IsOpen j
        → ops.read j.0 slot ≡ filled bytes
        → All OldOrNew (commit (journal ops) slot h j).1.1
    unfolding commit
    All-OldOrNew-commit h bytes j small next o page =
        split (ops.write slot 0 (header_bytes h) j.0).0 refl
      where
        j' : Journal F
        j' = ((journal ops).write slot 0 (header_bytes h) j).1

        o' : IsOpen j'
        o' = IsOpen-write 0 (header_bytes h) j (inl (omega arith)) o

        past : All OldOrNew j'.1
        past = All-OldOrNew j'.1 o'.past

        split :
            (s : Status)
            → (ops.write slot 0 (header_bytes h) j.0).0 ≡ s
            → All OldOrNew
                (elim s as (λ _. Status × Journal F) [
                  | fail e ↦ (fail e, j')
                  | done ↦ (journal ops).write slot 12 (word32_bytes h.commit) j'
                ]).1.1
        split (fail e) w = past
        split done w = (
          OldOrNew-commit_word h bytes (word32_bytes h.commit) j'.0 small next o'.boots (
              laws.write_done slot 0 (header_bytes h) j.0 refl refl (omega arith)
                (rw page (Programmable-header h bytes)) w
              ∙ ap (splice 0 (header_bytes h)) page),
          past,
        )

  module _ (c : Config (Journal F)) where
    abbrev Old : F → Type 0
    Old = Boots ops c.store.active_slot c.store.generation

    abbrev pub Recovers : F → Type 0
    Recovers = OldOrNew c.store.active_slot c.store.generation

    unjournal : Boots (journal ops) c.store.active_slot c.store.generation c.flash → Old c.flash.0
    unfolding init
    unjournal h = h

    IsOpen-staged :
        (bytes : List ℕ)
        → IsConsistent (journal ops) c
        → IsStaged (journal ops) bytes c
        → All Old c.flash.1
        → IsOpen c.store.active_slot c.store.generation c.flash
    IsOpen-staged bytes v s past = record {
      boots = unjournal v.boots;
      uncommitted = rw s.page (byte-filled bytes 12 (omega arith));
      past = past;
    }

    -- On a consistent store with an update under way, a reset at any time during an append, also at
    -- a write that fails, leaves a flash from which a boot finds the old configuration, or the one
    -- that is being committed: never anything else.
    pub append-Recovers :
        (bytes more : List ℕ)
        → IsConsistent (journal ops) c
        → IsStaged (journal ops) bytes c
        → All Old c.flash.1
        → All Recovers (append (journal ops) more c).1.flash.1
    append-Recovers bytes more v s past = cases (append_flash (journal ops) bytes more c s)
      where
        slot_ : ℕ
        slot_ = target_of c.store.active_slot

        o : IsOpen c.store.active_slot c.store.generation c.flash
        o = IsOpen-staged bytes v s past

        o' : IsOpen c.store.active_slot c.store.generation (loop (journal ops) slot_ more c).1
        o' =
            IsOpen-write_words c.store.active_slot c.store.generation (length more)
              (header_size + c.store.received) more c.flash (omega arith) o

        at :
            c.store.received + length more ≤ c.store.expected
            → All Recovers (append_at (journal ops) slot_ more c).1.flash.1
        at fits = elim (append_at_flash (journal ops) slot_ more c) [
          | inl e ↦ rw e (All-OldOrNew c.store.active_slot c.store.generation _ o'.past)
          | inr (wrote, full, e) ↦ rw e (
              All-OldOrNew-commit c.store.active_slot c.store.generation
                (next_header (journal ops) slot_ (looped (journal ops) slot_ more c))
                (bytes ++ more) (loop (journal ops) slot_ more c).1 v.small refl o'
                (written-page (journal ops) journal-FlashLaws bytes more c s fits wrote))
        ]

        cases :
            ((append (journal ops) more c).1.flash ≡ c.flash)
              ⊎ ((append (journal ops) more c ≡ append_at (journal ops) slot_ more c)
                  × (c.store.received + length more ≤ c.store.expected))
            → All Recovers (append (journal ops) more c).1.flash.1
        cases (inl e) = rw e (All-OldOrNew c.store.active_slot c.store.generation c.flash.1 past)
        cases (inr (e, fits)) = rw e (at fits)
