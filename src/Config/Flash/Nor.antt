-- ===== src/Config/Flash/Nor.antt =====
-- A flash that meets the laws: pages in memory, where a page erase and a write of words never fail.
use greentags_lt213a_opendis.Prelude.{
  List, ap, arith, done, if◌then◌else◌, length, length-replicate, length-splice, refl, splice,
  splice_whole, sym, ℕ, ◌==◌, ◌∙◌, ◌≡◌, ◌≢◌,
}
use greentags_lt213a_opendis.Config.Flash.{FlashOps, FlashLaws, slot_bytes, erased_page}

abbrev pub Pages : Type 0
Pages = ℕ → List ℕ

abbrev pub blank_pages : Pages
blank_pages slot = erased_page

abbrev pub set_page : ℕ → List ℕ → Pages → Pages
set_page slot page f t = if t == slot then page else f t

-- A page is 1 KiB, whatever stands in the function.
abbrev pub read_page : Pages → ℕ → List ℕ
read_page f slot = splice 0 (f slot) erased_page

abbrev pub pages : FlashOps Pages
pages = record {
  erase = λ slot f. (done, set_page slot erased_page f);
  write = λ slot offset bytes f. (done, set_page slot (splice offset bytes (read_page f slot)) f);
  read = read_page;
}

set_page_self : (slot : ℕ) (page : List ℕ) (f : Pages) → set_page slot page f slot ≡ page
set_page_self slot page f = ground arith

set_page_other :
    (slot other : ℕ) (page : List ℕ) (f : Pages)
    → other ≢ slot
    → set_page slot page f other ≡ f other
set_page_other slot other page f ne = ground arith

length-page : (f : Pages) (slot : ℕ) → length (read_page f slot) ≡ slot_bytes
unfolding erased_page
length-page f slot = length-splice 0 (f slot) erased_page ∙ length-replicate {A = ℕ} slot_bytes 255

length-erased : length erased_page ≡ slot_bytes
unfolding erased_page
length-erased = length-replicate {A = ℕ} slot_bytes 255

read_page-set_page :
    (slot : ℕ) (page : List ℕ) (f : Pages)
    → length page ≡ slot_bytes
    → read_page (set_page slot page f) slot ≡ page
read_page-set_page slot page f h =
    ap (λ p. splice 0 p erased_page) (set_page_self slot page f)
    ∙ splice_whole page erased_page (h ∙ sym length-erased)

pub pages-FlashLaws : FlashLaws pages
pages-FlashLaws = record {
  read_length = length-page;
  erase_other = λ slot other f ne.
      ap (λ p. splice 0 p erased_page) (set_page_other slot other erased_page f ne);
  write_other = λ slot other offset bytes f ne.
      ap (λ p. splice 0 p erased_page)
        (set_page_other slot other (splice offset bytes (read_page f slot)) f ne);
  erase_done = λ slot f ok. read_page-set_page slot erased_page f length-erased;
  write_done = λ slot offset bytes f a b c d ok.
      read_page-set_page slot (splice offset bytes (read_page f slot)) f
        (length-splice offset bytes (read_page f slot) ∙ length-page f slot);
  write_frame = λ slot offset bytes f. (
    bytes,
    refl,
    read_page-set_page slot (splice offset bytes (read_page f slot)) f
        (length-splice offset bytes (read_page f slot) ∙ length-page f slot),
  );
}
