-- ===== src/Config/Store/Pages.antt =====
-- What a slot holds while `od_config_append` fills and commits it.
use greentags_lt213a_opendis.Prelude.{
  Blank, Blank-append, Blank-drop, Blank-replicate, Blank-splice, List, [], ap, arith, byte, done,
  drop, drop-splice, drop-splice_before, false, get_or-replicate, get_or-splice,
  get_or-splice_before, inl, length, length-drop, length-replicate, length-splice, refl, splice,
  take, take-splice, ℕ, ◌%◌, ◌++◌, ◌+◌, ◌/◌, ◌<◌, ◌^◌, ◌∙◌, ◌∷◌, ◌≡◌, ◌≤◌, ◌⊎◌,
}
use greentags_lt213a_opendis.Config.Crc.{crc, crc-lt}
use greentags_lt213a_opendis.Config.Validate.{config_max, validate}
use greentags_lt213a_opendis.Config.Flash.{Programmable, slot_bytes, erased_page}
use greentags_lt213a_opendis.Config.Store.{
  Header, header_bytes, word32, word32_bytes, read_header, header_size, commit_word, blob, bad_slot,
}

-- A slot that was erased, with the bytes of a configuration behind the place of the header.
abbrev pub filled : List ℕ → List ℕ
filled bytes = splice header_size bytes erased_page

-- The slot after the write of the header, without its last word.
abbrev pub headed : Header → List ℕ → List ℕ
headed h bytes = splice 0 (header_bytes h) (filled bytes)

-- The slot after the commit word.
abbrev pub committed : Header → List ℕ → List ℕ
committed h bytes = splice 12 (word32_bytes h.commit) (headed h bytes)

length-erased_page : length erased_page ≡ slot_bytes
unfolding erased_page
length-erased_page = length-replicate {A = ℕ} slot_bytes 255

Blank-erased_page : (i : ℕ) (new : List ℕ) → Blank 255 i new erased_page
unfolding erased_page
Blank-erased_page i new = Blank-replicate 255 i slot_bytes new

length-filled : (bytes : List ℕ) → length (filled bytes) ≡ slot_bytes
length-filled bytes = length-splice header_size bytes erased_page ∙ length-erased_page

length-headed : (h : Header) (bytes : List ℕ) → length (headed h bytes) ≡ slot_bytes
length-headed h bytes = length-splice 0 (header_bytes h) (filled bytes) ∙ length-filled bytes

pub Blank-filled :
    (bytes more : List ℕ) → Blank 255 (header_size + length bytes) more (filled bytes)
Blank-filled bytes more =
    (Blank-append 255 header_size bytes more erased_page
      (Blank-erased_page header_size (bytes ++ more))).1

-- The bytes of a slot behind its header.
pub blob-filled :
    (bytes : List ℕ) → length bytes ≤ config_max → blob (filled bytes) (length bytes) ≡ bytes
blob-filled bytes h =
    ap (take (length bytes)) (drop-splice header_size bytes erased_page)
    ∙ take-splice bytes (drop header_size erased_page)
        (omega (arith, length-drop header_size erased_page, length-erased_page))

pub blob-committed :
    (h : Header) (bytes : List ℕ)
    → length bytes ≤ config_max
    → blob (committed h bytes) (length bytes) ≡ bytes
blob-committed h bytes fits =
    ap (take (length bytes)) (
      drop-splice_before header_size 12 (word32_bytes h.commit) (headed h bytes) (omega arith)
      ∙ drop-splice_before header_size 0 (header_bytes h) (filled bytes) (omega arith))
    ∙ blob-filled bytes fits

-- Both writes of the commit fall on erased bytes.
Programmable-of_Blank : (new old : List ℕ) → Blank 255 0 new old → Programmable old new
Programmable-of_Blank [] [] h = tt
Programmable-of_Blank [] (o ∷ old) h = tt
Programmable-of_Blank (n ∷ new) [] h = tt
Programmable-of_Blank (n ∷ new) (o ∷ old) h = (inl h.0, Programmable-of_Blank new old h.1)

header_space :
    (h : Header) (bytes : List ℕ)
    → Blank 255 0 (header_bytes h ++ word32_bytes h.commit) (filled bytes)
header_space h bytes =
    Blank-splice 255 0 header_size (header_bytes h ++ word32_bytes h.commit) bytes erased_page
      (omega arith) (Blank-erased_page 0 (header_bytes h ++ word32_bytes h.commit))

pub Programmable-header :
    (h : Header) (bytes : List ℕ) → Programmable (filled bytes) (header_bytes h)
Programmable-header h bytes =
    Programmable-of_Blank _ _
      (Blank-append 255 0 (header_bytes h) (word32_bytes h.commit) (filled bytes)
        (header_space h bytes)).0

pub Programmable-commit :
    (h : Header) (bytes : List ℕ) → Programmable (drop 12 (headed h bytes)) (word32_bytes h.commit)
Programmable-commit h bytes = Programmable-of_Blank _ _ (
    Blank-drop 255 12 0 (word32_bytes h.commit) (headed h bytes)
      (Blank-append 255 0 (header_bytes h) (word32_bytes h.commit) (filled bytes)
        (header_space h bytes)).1)

byte-erased_page : (i : ℕ) → i < slot_bytes → byte erased_page i ≡ 255
unfolding erased_page
byte-erased_page i h = get_or-replicate slot_bytes i 255 0 h

pub byte-filled : (bytes : List ℕ) (i : ℕ) → i < header_size → byte (filled bytes) i ≡ 255
byte-filled bytes i h =
    get_or-splice_before header_size i bytes erased_page 0 h ∙ byte-erased_page i (omega arith)

-- A byte of the header and a byte of the commit word, where the slot is committed.
byte-header :
    (h : Header) (bytes : List ℕ) (i : ℕ)
    → i < 12
    → byte (committed h bytes) i ≡ byte (header_bytes h) i
byte-header h bytes i lt =
    get_or-splice_before 12 i (word32_bytes h.commit) (headed h bytes) 0 lt
    ∙ get_or-splice 0 i i (header_bytes h) (filled bytes) 0 (omega arith) lt
        (omega (arith, length-filled bytes))

byte-commit :
    (h : Header) (bytes : List ℕ) (i : ℕ)
    → i < 4
    → byte (committed h bytes) (12 + i) ≡ byte (word32_bytes h.commit) i
byte-commit h bytes i lt =
    get_or-splice 12 (12 + i) i (word32_bytes h.commit) (headed h bytes) 0 refl lt
      (omega (arith, length-headed h bytes))

word32_of :
    (page : List ℕ) (i w : ℕ)
    → w < 2 ^ 32
    → byte page i ≡ w % 256
    → byte page (i + 1) ≡ w / 2 ^ 8 % 256
    → byte page (i + 2) ≡ w / 2 ^ 16 % 256
    → byte page (i + 3) ≡ w / 2 ^ 24 % 256
    → word32 page i ≡ w
word32_of page i w h a b c d = omega arith

read_header_of :
    (page : List ℕ) (h : Header)
    → word32 page 0 ≡ h.generation
    → word32 page 4 ≡ h.length
    → word32 page 8 ≡ h.checksum
    → word32 page 12 ≡ h.commit
    → read_header page ≡ h
unfolding read_header
read_header_of page h a b c d =
    λ i. record { generation = a i; length = b i; checksum = c i; commit = d i }

abbrev Fits : Header → Type 0
Fits h = (h.generation < 2 ^ 32) × (h.length < 2 ^ 32) × (h.checksum < 2 ^ 32) × (h.commit < 2 ^ 32)

-- The header that a boot reads is the one that was written.
pub read_header-committed :
    (h : Header) (bytes : List ℕ) → Fits h → read_header (committed h bytes) ≡ h
read_header-committed h bytes fits =
    read_header_of (committed h bytes) h
      (word32_of (committed h bytes) 0 h.generation fits.0 (at 0 (omega arith)) (at 1 (omega arith))
        (at 2 (omega arith)) (at 3 (omega arith)))
      (word32_of (committed h bytes) 4 h.length fits.1 (at 4 (omega arith)) (at 5 (omega arith))
        (at 6 (omega arith)) (at 7 (omega arith)))
      (word32_of (committed h bytes) 8 h.checksum fits.2 (at 8 (omega arith)) (at 9 (omega arith))
        (at 10 (omega arith)) (at 11 (omega arith)))
      (word32_of (committed h bytes) 12 h.commit fits.3 (last 0 (omega arith))
        (last 1 (omega arith)) (last 2 (omega arith)) (last 3 (omega arith)))
  where
    at : (i : ℕ) → i < 12 → byte (committed h bytes) i ≡ byte (header_bytes h) i
    at = byte-header h bytes

    last : (i : ℕ) → i < 4 → byte (committed h bytes) (12 + i) ≡ byte (word32_bytes h.commit) i
    last = byte-commit h bytes

-- The bytes that may be committed: none, or a configuration that the validator accepts.
abbrev pub IsAccepted : List ℕ → Type 0
IsAccepted bytes = (length bytes ≤ config_max) × ((bytes ≡ []) ⊎ (validate bytes ≡ done))

-- The header that the code writes for them.
abbrev pub header_of : ℕ → List ℕ → Header
header_of gen bytes = record {
  generation = gen;
  length = length bytes;
  checksum = crc bytes false;
  commit = commit_word;
}

header_of-Fits :
    (gen : ℕ) (bytes : List ℕ)
    → gen < 2 ^ 32
    → length bytes ≤ config_max
    → Fits (header_of gen bytes)
header_of-Fits gen bytes h k = omega (arith, crc-lt bytes false)

length-zero : (bytes : List ℕ) → bytes ≡ [] → length bytes ≡ 0
length-zero bytes e = ap (λ (l : List ℕ). length l) e

-- `od_config_init` accepts a slot that was filled and committed.
pub good_slot :
    (gen : ℕ) (bytes : List ℕ)
    → gen < 2 ^ 32
    → IsAccepted bytes
    → bad_slot (committed (header_of gen bytes) bytes) ≡ false
unfolding bad_slot
good_slot gen bytes small fine =
    rw
      (
        read_header-committed (header_of gen bytes) bytes (header_of-Fits gen bytes small fine.0),
        blob-committed (header_of gen bytes) bytes fine.0,
      )
      (ground (arith, fine.1, length-zero bytes))

module _ (gen : ℕ) (bytes : List ℕ) (small : gen < 2 ^ 32) (fits : length bytes ≤ config_max) where
  header_read : read_header (committed (header_of gen bytes) bytes) ≡ header_of gen bytes
  header_read =
      read_header-committed (header_of gen bytes) bytes (header_of-Fits gen bytes small fits)

  pub length-committed : word32 (committed (header_of gen bytes) bytes) 4 ≡ length bytes
  unfolding read_header
  length-committed = ap (λ (h : Header). h.length) header_read

  pub generation-committed : (read_header (committed (header_of gen bytes) bytes)).generation ≡ gen
  generation-committed = ap (λ (h : Header). h.generation) header_read

-- Whatever a write of the commit word leaves there, the generation in the header stands.
pub generation-headed :
    (h : Header) (bytes left : List ℕ)
    → h.generation < 2 ^ 32
    → (read_header (splice 12 left (headed h bytes))).generation ≡ h.generation
unfolding read_header
generation-headed h bytes left small =
    word32_of (splice 12 left (headed h bytes)) 0 h.generation small (at 0 (omega arith))
      (at 1 (omega arith)) (at 2 (omega arith)) (at 3 (omega arith))
  where
    at : (i : ℕ) → i < 12 → byte (splice 12 left (headed h bytes)) i ≡ byte (header_bytes h) i
    at i lt =
        get_or-splice_before 12 i left (headed h bytes) 0 lt
        ∙ get_or-splice 0 i i (header_bytes h) (filled bytes) 0 (omega arith) lt
            (omega (arith, length-filled bytes))
