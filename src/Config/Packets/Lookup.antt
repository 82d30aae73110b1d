-- ===== src/Config/Packets/Lookup.antt =====
-- `config_packet` on a container finds the packet that the container holds.
use greentags_lt213a_opendis.Prelude.{
  Bool-cases, List, Option, ap, append_assoc, arith, done, drop, drop-append, drop_exact,
  if◌then◌else◌, inl, inr, length, length-append, length-drop, length-take, lt→ltb, none, refl,
  some, subst, suc, sym, take, take-append-drop, zero, ℕ, ◌++◌, ◌+◌, ◌-◌, ◌<◌, ◌==◌, ◌∙◌, ◌∷◌, ◌≡◌,
  ◌≤◌,
}
use greentags_lt213a_opendis.Config.Validate.{packet_layout, check_packet, validate}
use greentags_lt213a_opendis.Config.Validate.Container.{
  Packets, no_more, packet, IsContainer, packets_of, validate_iff,
}
use greentags_lt213a_opendis.Config.Packets.{stride, find_packet, config_packet}

-- The payload that a sequence of packets has for a type.
unfoldable pub payload_of :
    {seen out : ℕ} {body : List ℕ} → Packets seen body out → ℕ → Option (List ℕ)
payload_of (no_more _ _ _ _ _) wanted = none
payload_of (packet _ type _ _ _ payload _ _ _ _ _ _ later _) wanted =
    if type == wanted then some payload else payload_of later wanted

-- A pointer into the container at a payload that lies in it with its full length.
abbrev pub Points : Option (List ℕ) → Option (List ℕ) → Type 0
Points none none = Unit
Points (some payload) (some p) = (rest : List ℕ) × (p ≡ payload ++ rest)
Points _ _ = ⊥

stride_lem : (type size bit : ℕ) → packet_layout type ≡ some (size, bit) → stride type ≡ size
unfolding packet_layout stride
stride_lem type size bit e = ground arith

skip_packet :
    (type size bit : ℕ) (payload later : List ℕ)
    → packet_layout type ≡ some (size, bit)
    → length payload ≡ size
    → drop (stride type + 2) (0 ∷ type ∷ (payload ++ later)) ≡ later
skip_packet type size bit payload later e len =
    let n : stride type + 2 ≡ suc (suc size) = omega (arith, stride_lem type size bit e) in
    rw n (drop_exact size payload later len)

-- One round of the loop, in front of a packet.
find_packet_step :
    (fuel type size bit wanted : ℕ) (payload later : List ℕ)
    → packet_layout type ≡ some (size, bit)
    → length payload ≡ size
    → 2 ≤ length later
    → find_packet (suc fuel) wanted (0 ∷ type ∷ (payload ++ later))
      ≡ (if type == wanted then some (payload ++ later) else find_packet fuel wanted later)
unfolding find_packet
find_packet_step fuel type size bit wanted payload later e len two = rw (
  skip_packet type size bit payload later e len,
  lt→ltb 2 (suc (suc (length (payload ++ later)))) (omega (arith, length-append payload later)),
)

find_packet-Points :
    (fuel : ℕ) {seen out : ℕ} {body : List ℕ} (ps : Packets seen body out) (tail : List ℕ)
    (wanted : ℕ)
    → length tail ≡ 2
    → length body < fuel
    → Points (payload_of ps wanted) (find_packet fuel wanted (body ++ tail))
unfolding payload_of
find_packet-Points zero ps tail wanted two room = elim room [ ]
find_packet-Points (suc fuel) (no_more seen out body e f) tail wanted two room =
    unfold find_packet in rw e (ground arith)
find_packet-Points (suc fuel)
      (packet seen type size bit out payload rest body e fresh len content ps b) tail wanted two
      room =
    rw
      (
        b,
        append_assoc payload rest tail,
        find_packet_step fuel type size bit wanted payload (rest ++ tail) e len
            (omega (arith, length-append rest tail)),
      )
      (elim (Bool-cases (type == wanted)) [
        | inl y ↦ rw y (rest ++ tail, refl)
        | inr n ↦ rw n (
            find_packet-Points fuel ps tail wanted two
              (omega (arith, ap (λ (l : List ℕ). length l) b, length-append payload rest)))
      ])

-- From the first packet on, a container is its packets and the two bytes of the CRC.
container_split :
    (bytes : List ℕ)
    → 5 ≤ length bytes
    → drop 3 bytes ≡ packets_of bytes ++ drop (length bytes - 2) bytes
container_split bytes h =
    ap (drop 3) (sym (take-append-drop (length bytes - 2) bytes))
    ∙ drop-append 3 (take (length bytes - 2) bytes) (drop (length bytes - 2) bytes)
        (omega (arith, length-take (length bytes - 2) bytes))

-- In a container, config_packet gives NULL exactly for a type that no packet has, and otherwise a
-- pointer into the container at the payload of the packet of that type.
pub config_packet-Points :
    (bytes : List ℕ) (c : IsContainer bytes) (wanted : ℕ)
    → Points (payload_of c.body.1 wanted) (config_packet bytes wanted)
unfolding config_packet
config_packet-Points bytes c wanted = rw (container_split bytes c.least) (
    find_packet-Points (length bytes) c.body.1 (drop (length bytes - 2) bytes) wanted
      (omega (arith, length-drop (length bytes - 2) bytes, c.least))
      (omega (
        arith,
        c.least,
        length-drop 3 (take (length bytes - 2) bytes),
        length-take (length bytes - 2) bytes,
      )))

-- A payload of the size that its type has, and with contents that the validator accepts.
pub record IsChecked (type : ℕ) (payload : List ℕ) : Type 0 where
  pub layout :
      (size : ℕ) × (bit : ℕ) × (packet_layout type ≡ some (size, bit)) × (length payload ≡ size)
  pub content : check_packet type payload ≡ done

payload_of-IsChecked :
    {seen out : ℕ} {body : List ℕ} (ps : Packets seen body out) (wanted : ℕ) (payload : List ℕ)
    → payload_of ps wanted ≡ some payload
    → IsChecked wanted payload
unfolding payload_of
payload_of-IsChecked (no_more seen out body e f) wanted payload h = absurd (ground arith)
payload_of-IsChecked (packet seen type size bit out first rest body e fresh len content ps b) wanted
      payload h =
    elim (Bool-cases (type == wanted)) [
      | inl y ↦ record { layout = (size, bit, ground arith, ground arith); content = ground arith }
      | inr n ↦ payload_of-IsChecked ps wanted payload (rw n at h)
    ]

-- What config_packet returns on an accepted configuration points at a payload that lies whole in it,
-- has the size of its type, and has contents that the validator accepted.
pub config_packet-IsChecked :
    (bytes : List ℕ) (wanted : ℕ) (p : List ℕ)
    → validate bytes ≡ done
    → config_packet bytes wanted ≡ some p
    → (payload : List ℕ) × (rest : List ℕ) × (p ≡ payload ++ rest) × IsChecked wanted payload
config_packet-IsChecked bytes wanted p accepted h =
    found (payload_of ps wanted) refl
      (subst (Points (payload_of ps wanted)) h (config_packet-Points bytes c wanted))
  where
    c : IsContainer bytes
    c = (validate_iff bytes).0 accepted

    ps : Packets 0 (packets_of bytes) c.body.0
    ps = c.body.1

    found :
        (o : Option (List ℕ))
        → payload_of ps wanted ≡ o
        → Points o (some p)
        → (payload : List ℕ) × (rest : List ℕ) × (p ≡ payload ++ rest) × IsChecked wanted payload
    found none e bad = absurd bad
    found (some payload) e (rest, split) =
        (payload, rest, split, payload_of-IsChecked ps wanted payload e)
