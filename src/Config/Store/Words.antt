-- ===== src/Config/Store/Words.antt =====
-- The word loop of `od_config_append`: a byte stream written by aligned words.
use greentags_lt213a_opendis.Prelude.{
  Blank, Blank-append, Blank-drop, List, Status, [], ap, arith, done, drop, fail, inl, inr, length,
  length-drop, length-splice, length-take, refl, splice, splice-splice, splice_empty, splice_word,
  suc, sym, take, take-append-drop, zero, ℕ, ◌%◌, ◌*◌, ◌+◌, ◌-◌, ◌/◌, ◌<◌, ◌∙◌, ◌∷◌, ◌≡◌, ◌≢◌, ◌≤◌,
}
use greentags_lt213a_opendis.Config.Flash.{FlashOps, FlashLaws, Programmable, slot_bytes}
use greentags_lt213a_opendis.Config.Store.{header_size, next_word, write_words}

-- A word with new bytes at erased places can be programmed.
Programmable-splice :
    (i n : ℕ) (new old : List ℕ)
    → Blank 255 i new old
    → Programmable old (splice i new (take n old))
Programmable-splice zero zero [] [] h = tt
Programmable-splice zero zero [] (o ∷ old) h = tt
Programmable-splice zero (suc n) [] [] h = tt
Programmable-splice zero (suc n) [] (o ∷ old) h = (inr refl, Programmable-splice zero n [] old tt)
Programmable-splice zero zero (m ∷ new) [] h = tt
Programmable-splice zero zero (m ∷ new) (o ∷ old) h = tt
Programmable-splice zero (suc n) (m ∷ new) [] h = tt
Programmable-splice zero (suc n) (m ∷ new) (o ∷ old) h =
    (inl h.0, Programmable-splice zero n new old h.1)
Programmable-splice (suc i) zero new [] h = tt
Programmable-splice (suc i) zero new (o ∷ old) h = tt
Programmable-splice (suc i) (suc n) new [] h = tt
Programmable-splice (suc i) (suc n) new (o ∷ old) h = (inr refl, Programmable-splice i n new old h)

module _ {F : Type 0} (ops : FlashOps F) (laws : FlashLaws ops) (slot : ℕ) where
  open ops use {write, read}

  base_add : (offset : ℕ) → offset / 4 * 4 + offset % 4 ≡ offset
  base_add offset = omega arith

  -- The word has four bytes where the slot has.
  length-next_word :
      (f : F) (offset : ℕ) (bytes : List ℕ)
      → offset < slot_bytes
      → length (next_word (read f slot) offset bytes) ≡ 4
  length-next_word f offset bytes h =
      length-splice (offset % 4) (take (4 - offset % 4) bytes)
        (take 4 (drop (offset / 4 * 4) (read f slot)))
      ∙ omega (
        arith,
        length-take 4 (drop (offset / 4 * 4) (read f slot)),
        length-drop (offset / 4 * 4) (read f slot),
        laws.read_length f slot,
      )

  -- One word written is the bytes of the data that fall into it.
  write_word_lem :
      (f : F) (offset : ℕ) (bytes : List ℕ)
      → offset < slot_bytes
      → Blank 255 offset (take (4 - offset % 4) bytes) (read f slot)
      → (write slot (offset / 4 * 4) (next_word (read f slot) offset bytes) f).0 ≡ done
      → read (write slot (offset / 4 * 4) (next_word (read f slot) offset bytes) f).1 slot
        ≡ splice offset (take (4 - offset % 4) bytes) (read f slot)
  write_word_lem f offset bytes h erased ok =
      laws.write_done slot base word f (omega arith)
        (omega (arith, length-next_word f offset bytes h))
        (omega (arith, length-next_word f offset bytes h)) ready ok
      ∙ splice_word base (offset % 4) 4 new (read f slot)
          (omega (arith, length-take (4 - offset % 4) bytes))
      ∙ ap (λ i. splice i new (read f slot)) (base_add offset)
    where
      base : ℕ
      base = offset / 4 * 4

      new : List ℕ
      new = take (4 - offset % 4) bytes

      word : List ℕ
      word = next_word (read f slot) offset bytes

      ready : Programmable (drop base (read f slot)) word
      ready =
          Programmable-splice (offset % 4) 4 new (drop base (read f slot))
            (Blank-drop 255 base (offset % 4) new (read f slot) (rw (base_add offset) erased))

  module _ (fuel offset : ℕ) (bytes : List ℕ) (f : F) where
    abbrev word_step : Status × F
    word_step = write slot (offset / 4 * 4) (next_word (read f slot) offset bytes) f

    abbrev first : List ℕ
    first = take (4 - offset % 4) bytes

    abbrev later : List ℕ
    later = drop (4 - offset % 4) bytes

    write_words-step :
        bytes ≢ []
        → word_step.0 ≡ done
        → write_words ops (suc fuel) slot offset bytes f
          ≡ write_words ops fuel slot (offset + length first) later word_step.1
    unfolding write_words
    write_words-step some good = ground arith

    write_words-stop :
        bytes ≢ [] → (write_words ops (suc fuel) slot offset bytes f).0 ≡ done → word_step.0 ≡ done
    unfolding write_words
    write_words-stop some ok = ground arith

  -- The loop that reports no error has put the bytes at their place, and nothing else has changed.
  pub write_words-done :
      (fuel offset : ℕ) (bytes : List ℕ) (f : F)
      → offset + length bytes ≤ slot_bytes
      → length bytes ≤ fuel
      → Blank 255 offset bytes (read f slot)
      → (write_words ops fuel slot offset bytes f).0 ≡ done
      → read (write_words ops fuel slot offset bytes f).1 slot ≡ splice offset bytes (read f slot)
  write_words-done zero offset [] f room enough erased ok =
      unfold write_words in sym (splice_empty offset (read f slot))
  write_words-done (suc fuel) offset [] f room enough erased ok =
      unfold write_words in sym (splice_empty offset (read f slot))
  write_words-done zero offset (x ∷ bytes) f room enough erased ok = elim enough [ ]
  write_words-done (suc fuel) offset (x ∷ bytes) f room enough erased ok =
      rw (write_words-step fuel offset all f some good) (
        write_words-done fuel (offset + length head) tail g
          (omega (arith, length-take (4 - offset % 4) all, length-drop (4 - offset % 4) all))
          (omega (arith, length-drop (4 - offset % 4) all)) (rw put blanks.1)
          (rw (write_words-step fuel offset all f some good) at ok)
        ∙ ap (splice (offset + length head) tail) put
        ∙ splice-splice offset head tail (read f slot)
        ∙ ap (λ t. splice offset t (read f slot)) (take-append-drop (4 - offset % 4) all))
    where
      all : List ℕ
      all = x ∷ bytes

      head : List ℕ
      head = take (4 - offset % 4) all

      tail : List ℕ
      tail = drop (4 - offset % 4) all

      some : all ≢ []
      some = cc

      good : (word_step fuel offset all f).0 ≡ done
      good = write_words-stop fuel offset all f some ok

      g : F
      g = (word_step fuel offset all f).1

      blanks :
          Blank 255 offset head (read f slot)
          × Blank 255 (offset + length head) tail (splice offset head (read f slot))
      blanks =
          Blank-append 255 offset head tail (read f slot)
            (rw (take-append-drop (4 - offset % 4) all) erased)

      put : read g slot ≡ splice offset head (read f slot)
      put = write_word_lem f offset all (omega arith) blanks.0 good

module _ {F : Type 0} (ops : FlashOps F) (slot : ℕ) where
  open ops use {write, read}

  -- What every write behind the header keeps, the loop keeps, whether it fails or not.
  pub write_words_induction :
      (P : F → Type 0)
      → ((base : ℕ) (bytes : List ℕ) (f : F)
          → header_size ≤ base
          → P f
          → P (write slot base bytes f).1)
      → (fuel offset : ℕ) (bytes : List ℕ) (f : F) → header_size ≤ offset
      → P f
      → P (write_words ops fuel slot offset bytes f).1
  unfolding write_words
  write_words_induction P keep zero offset bytes f h p = p
  write_words_induction P keep (suc fuel) offset [] f h p = p
  write_words_induction P keep (suc fuel) offset (x ∷ bytes) f h p = split step.0 (
      write_words_induction P keep fuel (offset + length (take (4 - offset % 4) (x ∷ bytes)))
        (drop (4 - offset % 4) (x ∷ bytes)) step.1 (omega arith) after)
    where
      step : Status × F
      step = write slot (offset / 4 * 4) (next_word (read f slot) offset (x ∷ bytes)) f

      after : P step.1
      after = keep (offset / 4 * 4) (next_word (read f slot) offset (x ∷ bytes)) f (omega arith) p

      rest : Status × F
      rest =
          write_words ops fuel slot (offset + length (take (4 - offset % 4) (x ∷ bytes)))
            (drop (4 - offset % 4) (x ∷ bytes)) step.1

      split :
          (s : Status)
          → P rest.1
          → P (elim s as (λ _. Status × F) [ fail e ↦ (fail e, step.1) | done ↦ rest ]).1
      split done q = q
      split (fail e) q = after
