-- ===== src/Panel/Bench/Region.antt =====
-- The two planes of a region: the bytes of an image of `2 * n` bytes, inverted, fill one after the other.
use greentags_lt213a_opendis.Prelude.{
  Bool-cases, List, [], ap, append-nil, append_assoc, arith, drop, drop_exact, false, inl, inr,
  length, length-append, map, refl, subst, suc, sym, take, take_exact, ℕ, ◌*◌, ◌++◌, ◌<◌, ◌==◌, ◌∙◌,
  ◌∷◌, ◌≡◌, ◌≤◌,
}
use greentags_lt213a_opendis.Panel.Waveform.{invert}
use greentags_lt213a_opendis.Panel.Bench.{Chip}
use greentags_lt213a_opendis.Panel.Bench.Planes.{storing_old, storing_new}
use greentags_lt213a_opendis.Panel.Bench.Writing.{one_byte, region_bytes_given}

pub map-append : (f : ℕ → ℕ) (xs ys : List ℕ) → map f (xs ++ ys) ≡ map f xs ++ map f ys
map-append f [] ys = refl
map-append f (x ∷ xs) ys = ap (λ t. f x ∷ t) (map-append f xs ys)

pub length-map : (f : ℕ → ℕ) (xs : List ℕ) → length (map f xs) ≡ length xs
length-map f [] = refl
length-map f (x ∷ xs) = ap suc (length-map f xs)

-- The bytes `us` of the image are in the planes.
pub data Stored (n : ℕ) (us : List ℕ) (c : Chip) : Type 0 where
  in_old :
      c.asleep ≡ false
      → c.selected ≡ 16
      → length us ≤ n
      → c.old_plane ≡ map invert us
      → Stored n us c
  in_new :
      c.asleep ≡ false
      → c.selected ≡ 19
      → n < length us
      → length c.old_plane ≡ n
      → c.old_plane ++ c.new_plane ≡ map invert us
      → Stored n us c

one_byte-Stored :
    (n v : ℕ) (us : List ℕ) (c : Chip)
    → Stored n us c
    → Stored n (us ++ v ∷ []) (one_byte n (length us) v c)
one_byte-Stored n v us c (in_old awake sel room old) =
    let count = length-append us (v ∷ []) in
    let bytes : c.old_plane ++ invert v ∷ [] ≡ map invert (us ++ v ∷ []) =
      ap (λ t. t ++ invert v ∷ []) old ∙ sym (map-append invert us (v ∷ [])) in
    let size : length c.old_plane ≡ length us = ap length old ∙ length-map invert us in
    elim (Bool-cases (length us == n)) [
      | inl y ↦
          let e : one_byte n (length us) v c ≡ storing_new (invert v ∷ []) c = rw (y, awake) refl in
          subst (Stored n (us ++ v ∷ [])) (sym e)
            (in_new refl refl (ground (arith, count, y)) (ground (arith, size, y)) bytes)
      | inr other ↦
          let e : one_byte n (length us) v c ≡ storing_old (c.old_plane ++ invert v ∷ []) c =
            rw (other, awake, sel) refl in
          subst (Stored n (us ++ v ∷ [])) (sym e)
            (in_old refl refl (ground (arith, count, other)) bytes)
    ]
one_byte-Stored n v us c (in_new awake sel past full all) =
    let count = length-append us (v ∷ []) in
    let other : (length us == n) ≡ false = ground arith in
    let e : one_byte n (length us) v c ≡ storing_new (c.new_plane ++ invert v ∷ []) c =
      rw (other, awake, sel) refl in
    let bytes : c.old_plane ++ (c.new_plane ++ invert v ∷ []) ≡ map invert (us ++ v ∷ []) =
      sym (append_assoc c.old_plane c.new_plane (invert v ∷ []))
      ∙ ap (λ t. t ++ invert v ∷ []) all
      ∙ sym (map-append invert us (v ∷ [])) in
    subst (Stored n (us ++ v ∷ [])) (sym e) (in_new refl refl (omega (arith, count)) full bytes)

pub region-Stored :
    (n : ℕ) (vs us : List ℕ) (c : Chip)
    → Stored n us c
    → Stored n (us ++ vs) (region_bytes_given n (length us) vs c)
unfolding region_bytes_given
region-Stored n [] us c h = subst (λ t. Stored n t c) (sym (append-nil us)) h
region-Stored n (v ∷ vs) us c h =
    let rest =
      region-Stored n vs (us ++ v ∷ []) (one_byte n (length us) v c) (one_byte-Stored n v us c h) in
    let count : length (us ++ v ∷ []) ≡ suc (length us) =
      omega (arith, length-append us (v ∷ [])) in
    subst (λ t. Stored n t (region_bytes_given n (suc (length us)) vs (one_byte n (length us) v c)))
      (append_assoc us (v ∷ []) vs)
      (subst
        (λ k.
          Stored n ((us ++ v ∷ []) ++ vs) (region_bytes_given n k vs (one_byte n (length us) v c)))
        count rest)

one_byte-same :
    (n k v : ℕ) (c : Chip)
    → c.asleep ≡ false
    → ((one_byte n k v c).unheard ≡ c.unheard) × ((one_byte n k v c).shown ≡ c.shown)
one_byte-same n k v c awake = elim (Bool-cases (k == n)) [
  | inl y ↦ rw (y, awake) (refl, refl)
  | inr other ↦ rw (other, awake) (refl, refl)
]

pub Stored-awake : (n : ℕ) (us : List ℕ) (c : Chip) → Stored n us c → c.asleep ≡ false
Stored-awake n us c (in_old awake sel room old) = awake
Stored-awake n us c (in_new awake sel past full all) = awake

-- Writing does not refresh, and every byte is heard.
pub region-same :
    (n : ℕ) (vs us : List ℕ) (c : Chip)
    → Stored n us c
    → ((region_bytes_given n (length us) vs c).unheard ≡ c.unheard)
      × ((region_bytes_given n (length us) vs c).shown ≡ c.shown)
unfolding region_bytes_given
region-same n [] us c h = (refl, refl)
region-same n (v ∷ vs) us c h =
    let next = one_byte-Stored n v us c h in
    let same = one_byte-same n (length us) v c (Stored-awake n us c h) in
    let count : length (us ++ v ∷ []) ≡ suc (length us) =
      omega (arith, length-append us (v ∷ [])) in
    let rest = region-same n vs (us ++ v ∷ []) (one_byte n (length us) v c) next in
    subst
      (λ k.
        ((region_bytes_given n k vs (one_byte n (length us) v c)).unheard ≡ c.unheard)
        × ((region_bytes_given n k vs (one_byte n (length us) v c)).shown ≡ c.shown))
      count (rest.0 ∙ same.0, rest.1 ∙ same.1)

-- All bytes are there: each plane has its half.
pub Stored-complete :
    (n : ℕ) (us : List ℕ) (c : Chip)
    → Stored n us c
    → 0 < n
    → length us ≡ n * 2
    → (c.asleep ≡ false)
      × (c.old_plane ≡ take n (map invert us))
      × (c.new_plane ≡ drop n (map invert us))
Stored-complete n us c (in_old awake sel room old) some_bytes size = absurd (omega arith)
Stored-complete n us c (in_new awake sel past full all) some_bytes size = (
  awake,
  sym (take_exact n c.old_plane c.new_plane full) ∙ ap (take n) all,
  sym (drop_exact n c.old_plane c.new_plane full) ∙ ap (drop n) all,
)
