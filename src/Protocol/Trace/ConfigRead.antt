-- ===== src/Protocol/Trace/ConfigRead.antt =====
-- Command 40 of protocol.c, as a host reads it.
use greentags_lt213a_opendis.Prelude.{
  List, Option, Status, [], ap, append_assoc, ap₂, arith, byte, done, drop, false, if◌then◌else◌,
  length, length-drop, none, refl, some, subst, suc, sym, take, take-append-drop, true, u16, u8,
  zero, ℕ, ◌%◌, ◌&&◌, ◌*◌, ◌++◌, ◌+◌, ◌/◌, ◌<◌, ◌==◌, ◌^◌, ◌∙◌, ◌∷◌, ◌≡◌, ◌≤◌,
}
use mathlib.Core.List.{append-nil}
use greentags_lt213a_opendis.Config.Flash.{FlashOps}
use greentags_lt213a_opendis.Config.Store
use greentags_lt213a_opendis.Protocol.Base.{Zlib, System, World}
use greentags_lt213a_opendis.Protocol.Transfer.{send}
use greentags_lt213a_opendis.Protocol.ConfigCommands.{
  chunk_header, chunk_size, send_chunks, config_read,
}
use greentags_lt213a_opendis.Protocol.Trace.{Event, Device, recorded, sampled}
use greentags_lt213a_opendis.Protocol.Trace.{
  sent, began, opened_region, wrote, finished, aborted, rebooted,
}

-- A host that puts a configuration together: the number of the chunk that it waits for, the length that
-- chunk 0 announced, and the bytes so far.
pub record Reading : Type 0 where
  pub next : ℕ
  pub total : ℕ
  pub bytes : List ℕ

abbrev pub so_far : ℕ → ℕ → List ℕ → Option Reading
so_far next total bytes = some (record { next = next; total = total; bytes = bytes })

-- Chunk 0 starts anew; a chunk with another number than the next one ends the reading.
unfoldable pub take_chunk : List ℕ → Option Reading → Option Reading
take_chunk frame reading =
    let number = byte frame 2 + 256 * byte frame 3 in
    if number == 0
    then so_far 1 (byte frame 4 + 256 * byte frame 5) (drop 6 frame)
    else elim reading [
      | none ↦ none
      | some r ↦
          if number == r.next then so_far (suc number) r.total (r.bytes ++ drop 4 frame) else none
    ]

-- The host takes the responses of command 40, the oldest first.
unfoldable pub read_back : List Event → Option Reading
read_back [] = none
read_back (sent frame s ∷ h) =
    if byte frame 0 == 0 && byte frame 1 == 0x40
    then take_chunk frame (read_back h)
    else read_back h
read_back (began s ∷ h) = read_back h
read_back (opened_region x y width height s ∷ h) = read_back h
read_back (wrote bytes s ∷ h) = read_back h
read_back (finished mode s ∷ h) = read_back h
read_back (aborted ∷ h) = read_back h
read_back (rebooted ∷ h) = read_back h
read_back (sampled s ∷ h) = read_back h

wide : (chunk : ℕ) → 14 ≤ chunk_size chunk
wide chunk = ground (arith)

-- What the host has after `chunk` chunks, of which chunk 0 carried the length.
unfoldable HasRead : ℕ → ℕ → List ℕ → Option Reading → Type 0
HasRead total zero bytes reading = bytes ≡ []
HasRead total (suc n) bytes reading = reading ≡ so_far (suc n) total bytes

-- The chunk that the host waits for.
take_next :
    (total n : ℕ) (bytes frame : List ℕ)
    → byte frame 2 + 256 * byte frame 3 ≡ suc n
    → take_chunk frame (so_far (suc n) total bytes)
      ≡ so_far (suc (suc n)) total (bytes ++ drop 4 frame)
unfolding take_chunk
take_next total n bytes frame number =
    let behind : (suc n == 0) ≡ false = ground arith in
    let expected : (suc n == suc n) ≡ true = ground arith in rw (number, behind, expected) refl

read_back-chunk :
    (total chunk : ℕ) (more : List ℕ) (s : Status) (h : List Event)
    → read_back (sent (chunk_header 0x40 total chunk ++ more) s ∷ h)
      ≡ take_chunk (chunk_header 0x40 total chunk ++ more) (read_back h)
unfolding read_back chunk_header
read_back-chunk total chunk more s h = refl

-- One chunk more.
take_chunk-HasRead :
    (total chunk : ℕ) (bytes more : List ℕ) (reading : Option Reading)
    → total < 2 ^ 16
    → chunk < 2 ^ 16
    → HasRead total chunk bytes reading
    → HasRead total
        (suc chunk)
        (bytes ++ more)
        (take_chunk (chunk_header 0x40 total chunk ++ more) reading)
unfolding HasRead take_chunk chunk_header
take_chunk-HasRead total zero bytes more reading whole small none_yet =
    ap₂ (so_far 1) (omega (arith, whole)) (ap (λ b. b ++ more) (sym none_yet))
take_chunk-HasRead total (suc n) bytes more reading whole small h =
    let number : suc n % 256 + 256 * u8 (suc n / 256) ≡ suc n = omega (arith, small) in
    let behind : (suc n == 0) ≡ false = ground arith in
    let frame = chunk_header 0x40 total (suc n) ++ more in
    let body : drop 4 frame ≡ more = rw behind refl in
    ap (take_chunk frame) h
    ∙ take_next total n bytes frame number
    ∙ ap (λ b. so_far (suc (suc n)) total (bytes ++ b)) body

module _ {Z F : Type 0} (zlib : Zlib Z) (flash : FlashOps F) (build_sha : List ℕ) (d : Device) where
  abbrev sys : System Z F (List Event)
  sys = recorded zlib flash build_sha d

  abbrev Run : Type 0
  Run = World Z F (List Event)

  module _ (yes : (h : List Event) → d.answer h ≡ done) where
    send_chunks-HasRead :
        (fuel total chunk : ℕ) (bytes rest : List ℕ) (w : Run)
        → length rest ≤ fuel
        → total < 2 ^ 16
        → chunk + length rest < 2 ^ 16
        → HasRead total chunk bytes (read_back w.device)
        → let (err, w') = send_chunks sys fuel 0x40 total chunk rest w in
          (err ≡ done) × ((n : ℕ) × HasRead total n (bytes ++ rest) (read_back w'.device))
    unfolding send_chunks send read_back
    send_chunks-HasRead zero total chunk bytes [] w enough whole small h = (
      refl,
      (chunk, subst (λ b. HasRead total chunk b (read_back w.device)) (sym (append-nil bytes)) h),
    )
    send_chunks-HasRead zero total chunk bytes (x ∷ rest) w enough whole small h =
        absurd (omega (arith, enough))
    send_chunks-HasRead (suc fuel) total chunk bytes [] w enough whole small h = (
      refl,
      (chunk, subst (λ b. HasRead total chunk b (read_back w.device)) (sym (append-nil bytes)) h),
    )
    send_chunks-HasRead (suc fuel) total chunk bytes (x ∷ rest) w enough whole small h =
        let size = chunk_size chunk in
        let front = take size (x ∷ rest) in
        let left = drop size (x ∷ rest) in
        let frame = chunk_header 0x40 total chunk ++ front in
        let w' : Run = (send sys frame w).1 in
        let few = length-drop size (x ∷ rest) in
        let next : u16 (chunk + 1) ≡ suc chunk = omega (arith, small) in
        let taken : HasRead total (u16 (chunk + 1)) (bytes ++ front) (read_back w'.device) =
          subst (λ n. HasRead total n (bytes ++ front) (read_back w'.device)) (sym next)
            (subst (HasRead total (suc chunk) (bytes ++ front))
              (sym (read_back-chunk total chunk front (d.answer w.device) w.device))
              (take_chunk-HasRead total chunk bytes front (read_back w.device) whole
                (omega (arith, small)) h)) in
        let (good, (n, all_read)) =
          send_chunks-HasRead fuel total (u16 (chunk + 1)) (bytes ++ front) left w'
            (omega (arith, few, wide chunk, enough)) whole (omega (arith, few, wide chunk, small))
            taken in
        let joined : (bytes ++ front) ++ left ≡ bytes ++ (x ∷ rest) =
          append_assoc bytes front left ∙ ap (λ b. bytes ++ b) (take-append-drop size (x ∷ rest)) in
        let Read : List ℕ → Type 0 = λ b.
          HasRead total n b
            (read_back (send_chunks sys fuel 0x40 total (u16 (chunk + 1)) left w').1.device) in
        rw (send_chunks, yes w.device) (good, (n, subst Read joined all_read))

    complete :
        (total n : ℕ) (bytes : List ℕ) (reading : Option Reading)
        → 0 < length bytes
        → HasRead total n bytes reading
        → (next : ℕ) × (reading ≡ so_far next total bytes)
    unfolding HasRead
    complete total zero bytes reading some_bytes h =
        absurd (let none_left = ap length h in omega (arith, some_bytes, none_left))
    complete total (suc n) bytes reading some_bytes h = (suc n, h)

    -- On a device that answers every call without an error, with a configuration in force that is
    -- not empty and shorter than 2^16 bytes: a host that accepts the answers of command 40 only with
    -- the chunk numbers 0, 1, 2 and so on in order, and puts the chunks together, gets the announced
    -- length and exactly the bytes of the configuration; and the command reports no error.
    pub read_back-config_read :
        (w : Run)
        → let bytes = (Store.get_config flash w.config).1 in
          0 < length bytes
          → length bytes < 2 ^ 16
          → let (err, w') = config_read sys 0x40 [] w in
            (err ≡ done) × ((n : ℕ) × (read_back w'.device ≡ so_far n (length bytes) bytes))
    unfolding config_read HasRead
    read_back-config_read w some_bytes small =
        let bytes = (Store.get_config flash w.config).1 in
        let (good, (n, all_read)) =
          send_chunks-HasRead (length bytes) (length bytes) 0 [] bytes w (omega arith) small
            (omega (arith, small)) refl in
        (good, complete (length bytes) n bytes _ some_bytes all_read)
