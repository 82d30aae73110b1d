-- ===== src/Config/Validate/Container.antt =====
-- The containers that `od_config_validate` of config_store.c is to accept, described without its
-- loop: a sequence of packets, each of a known type, none twice, the four required ones among them.
use greentags_lt213a_opendis.Prelude.{
  List, Option-cases, [], ap, ap₂, arith, bit_and, bit_or, byte, done, drop, drop_exact, inl, inr,
  length, length-append, length-drop, length-take, refl, some, suc, sym, take, take-append-drop,
  take_exact, true, zero, ℕ, ◌++◌, ◌-◌, ◌↔◌, ◌∷◌, ◌≡◌, ◌≤◌, ◌⊎◌,
}
use greentags_lt213a_opendis.Config.Crc.{crc}
use greentags_lt213a_opendis.Config.Validate.{
  config_max, word16, packet_layout, check_packet, check_packets, bad_container, validate,
}

-- `Packets seen body out`: the body is a sequence of packets that takes `seen` to `out`.
pub data Packets : ℕ → List ℕ → ℕ → Type 0 where
  no_more : (seen out : ℕ) (body : List ℕ) → body ≡ [] → out ≡ seen → Packets seen body out
  packet :
      (seen type size bit out : ℕ) (payload rest body : List ℕ)
      → packet_layout type ≡ some (size, bit)
      → bit_and seen bit ≡ 0
      → length payload ≡ size
      → check_packet type payload ≡ done
      → Packets (bit_or seen bit) rest out
      → body ≡ 0 ∷ type ∷ (payload ++ rest)
      → Packets seen body out

abbrev pub IsBody : ℕ → List ℕ → Type 0
IsBody seen body = (out : ℕ) × Packets seen body out × (bit_and out 15 ≡ 15)

-- What one step of the loop has checked, if the loop succeeds.
module _ (fuel seen x type : ℕ) (rest : List ℕ) where
  StepFits : ℕ × ℕ → Type 0
  StepFits (size, bit) =
      (x ≡ 0)
      × (bit_and seen bit ≡ 0)
      × (size ≤ length rest)
      × (check_packet type (take size rest) ≡ done)
      × (check_packets fuel (bit_or seen bit) (drop size rest) ≡ done)

  check_packets_step :
      check_packets (suc fuel) seen (x ∷ type ∷ rest) ≡ done
      → (layout : ℕ × ℕ) × (packet_layout type ≡ some layout) × StepFits layout
  unfolding check_packets StepFits
  check_packets_step h = elim (Option-cases (packet_layout type)) [
    | inl e ↦ absurd (ground arith)
    | inr (l, e) ↦ (l, e, ground arith)
  ]

-- A packet read off the front of a body.
IsBody-cons :
    (fuel seen x type : ℕ) (rest : List ℕ) (layout : ℕ × ℕ)
    → packet_layout type ≡ some layout
    → StepFits fuel seen x type rest layout
    → IsBody (bit_or seen layout.1) (drop layout.0 rest)
    → IsBody seen (x ∷ type ∷ rest)
unfolding StepFits
IsBody-cons fuel seen x type rest (size, bit) e (z, fresh, fits, content, later) (out, ps, all) = (
  out,
  packet seen type size bit out (take size rest) (drop size rest) (x ∷ type ∷ rest) e fresh
      (omega (arith, length-take size rest)) content ps
      (ap₂ (λ a b. a ∷ type ∷ b) z (sym (take-append-drop size rest))),
  all,
)

-- What the loop accepts is a body.
sound : (fuel seen : ℕ) (body : List ℕ) → check_packets fuel seen body ≡ done → IsBody seen body
unfolding check_packets StepFits
sound fuel seen [] h = (seen, no_more _ _ _ refl refl, ground arith)
sound zero seen (x ∷ body) h = absurd (ground arith)
sound (suc fuel) seen (x ∷ []) h = absurd (ground arith)
sound (suc fuel) seen (x ∷ type ∷ rest) h =
    let (layout, e, fits) = check_packets_step fuel seen x type rest h in
    IsBody-cons fuel seen x type rest layout e fits
      (sound fuel (bit_or seen layout.1) (drop layout.0 rest) fits.4)

-- Every body is accepted, with a round of fuel for each byte.
complete :
    (fuel : ℕ) {seen out : ℕ} {body : List ℕ}
    → Packets seen body out
    → bit_and out 15 ≡ 15
    → length body ≤ fuel
    → check_packets fuel seen body ≡ done
unfolding check_packets
complete fuel (no_more seen out body e f) all room = rw (e, ← f) (ground arith)
complete zero (packet seen type size bit out payload rest body e fresh len content ps b) all room =
    absurd (omega (arith, ap (λ (l : List ℕ). length l) b))
complete (suc fuel) (packet seen type size bit out payload rest body e fresh len content ps b) all
      room =
    rw (b) (
      ground (
        arith,
        e,
        len,
        take_exact size payload rest len,
        drop_exact size payload rest len,
        length-append payload rest,
        complete fuel ps all,
      ))

-- The bytes of the packets: after the three bytes of the head, before the two of the CRC.
abbrev pub packets_of : List ℕ → List ℕ
packets_of bytes = drop 3 (take (length bytes - 2) bytes)

pub record IsContainer (bytes : List ℕ) : Type 0 where
  pub least : 5 ≤ length bytes
  pub most : length bytes ≤ config_max
  pub version : byte bytes 2 ≡ 1
  pub length_field : (word16 bytes 0 ≡ 0) ⊎ (word16 bytes 0 ≡ length bytes)
  pub checksum : crc (take (length bytes - 2) bytes) true ≡ word16 bytes (length bytes - 2)
  pub body : IsBody 0 (packets_of bytes)

length-packets_of : (bytes : List ℕ) → length (packets_of bytes) ≤ length bytes
length-packets_of bytes =
    omega
      (arith, length-drop 3 (take (length bytes - 2) bytes), length-take (length bytes - 2) bytes)

-- The validator accepts a byte string exactly if it is a container: 5 to 768 bytes, version 1, a
-- length field that is zero or exact, the right CRC, and between head and CRC a sequence of packets
-- of known types and sizes with accepted contents, none twice and the four required ones all there.
pub validate_iff : (bytes : List ℕ) → (validate bytes ≡ done) ↔ IsContainer bytes
unfolding validate bad_container
validate_iff bytes = (
  λ h. record {
    least = ground arith;
    most = ground arith;
    version = ground arith;
    length_field = ground arith;
    checksum = ground arith;
    body = sound (length bytes) 0 (packets_of bytes) (ground arith);
  },
  λ c.
      ground (
        arith,
        c.length_field,
        complete (length bytes) c.body.1 c.body.2 (length-packets_of bytes),
      ),
)
