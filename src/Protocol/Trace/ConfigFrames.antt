-- ===== src/Protocol/Trace/ConfigFrames.antt =====
-- Commands 41 and 42 of protocol.c, one frame: what a positive response says of the store.
use greentags_lt213a_opendis.Prelude.{
  Bool, Bool-cases, List, Status, Status-cases, [], ap, arith, bit_or, bit_or_under, byte, failed,
  false, if-elim, if◌then◌else◌, inl, inr, leb, length, length-append, ltb, not, not_failed, refl,
  subst, sym, true, u32, u8, ℕ, ◌%◌, ◌*◌, ◌++◌, ◌/◌, ◌<◌, ◌==◌, ◌^◌, ◌||◌, ◌∙◌, ◌∷◌, ◌≡◌, ◌≢◌, ◌≤◌,
}
use greentags_lt213a_opendis.Config.Flash.{FlashOps, FlashLaws}
use greentags_lt213a_opendis.Config.Store
use greentags_lt213a_opendis.Config.Store.{get_config}
use greentags_lt213a_opendis.Config.Store.Pages.{IsAccepted}
use greentags_lt213a_opendis.Config.Store.Update.{IsConsistent, IsStaged, start-done}
use greentags_lt213a_opendis.Config.Store.Commit.{in_force, append-IsStaged, append-commits}
use greentags_lt213a_opendis.Protocol.Base.{Zlib, System, World}
use greentags_lt213a_opendis.Protocol.Wire.{le}
use greentags_lt213a_opendis.Protocol.Transfer.{send, reply, od_abort}
use greentags_lt213a_opendis.Protocol.ConfigCommands.{
  append_reply, start_append, cancel_config, config_write, config_continue,
}
use greentags_lt213a_opendis.Protocol.Handle.{dispatch, od_handle}
use greentags_lt213a_opendis.Protocol.Trace.{Event, Device, recorded, sent}

-- The last response was a positive one.
unfoldable pub positive : List Event → Bool
positive (sent bytes s ∷ h) = byte bytes 0 == 0
positive h = false

-- The first frame, with the size of the whole; and the frames behind it.
abbrev pub write_frame : ℕ → List ℕ → List ℕ
write_frame total chunk = 0 ∷ 0x41 ∷ total % 256 ∷ u8 (total / 256) ∷ chunk

abbrev pub continue_frame : List ℕ → List ℕ
continue_frame chunk = 0 ∷ 0x42 ∷ chunk

le_size :
    (total : ℕ) (chunk : List ℕ)
    → total < 2 ^ 16
    → le 2 (total % 256 ∷ u8 (total / 256) ∷ chunk) ≡ total
unfolding le
le_size total chunk small =
    let alone = bit_or_under 0 8 (u8 (total / 256)) (omega arith) in
    let high : u32 (bit_or (u8 (total / 256)) 0 * 256) ≡ total / 256 * 2 ^ 8 =
      omega (arith, alone, small) in
    let whole = bit_or_under (total / 256) 8 (total % 256) (omega arith) in
    ap (bit_or (total % 256)) high ∙ whole ∙ omega arith

module _ {Z F : Type 0} (zlib : Zlib Z) (flash : FlashOps F) (build_sha : List ℕ) (d : Device) where
  abbrev sys : System Z F (List Event)
  sys = recorded zlib flash build_sha d

  abbrev Run : Type 0
  Run = World Z F (List Event)

  -- The bytes are in force; or they are the beginning of an update of `total` bytes.
  abbrev pub Stored : List ℕ → Run → Type 0
  Stored bytes w =
      IsAccepted bytes
      × IsConsistent flash w.config
      × ((get_config flash w.config).1 ≡ (in_force 0 bytes).1)

  abbrev pub Doing : ℕ → List ℕ → Run → Type 0
  Doing total bytes w =
      IsConsistent flash w.config
      × IsStaged flash bytes w.config
      × (w.config.store.expected ≡ total)

  abbrev pub After : ℕ → List ℕ → Run → Type 0
  After total bytes w =
      (length bytes ≡ total → Stored bytes w) × (length bytes ≢ total → Doing total bytes w)

  -- The state is as `P` says if the response was positive.
  abbrev pub Then : (Run → Type 0) → Status × Run → Type 0
  Then P (err, w) = positive w.device ≡ true → P w

  refused-Then : (P : Run → Type 0) (cmd : ℕ) (w : Run) → Then P (reply sys cmd false w)
  unfolding reply send positive
  refused-Then P cmd w agreed = absurd (ground (arith, agreed))

  in_force-bytes : (slot : ℕ) (bytes : List ℕ) → (in_force slot bytes).1 ≡ (in_force 0 bytes).1
  in_force-bytes slot [] = refl
  in_force-bytes slot (x ∷ bytes) = refl

  cancelled :
      (w : Run)
      → IsConsistent flash w.config
      → IsConsistent flash (cancel_config sys (od_abort sys w).1).config
  unfolding od_abort cancel_config Store.cancel
  cancelled w v = elim (Bool-cases w.proto.active) [
    | inl y ↦ rw y (record { boots = v.boots; small = v.small; installed = v.installed })
    | inr n ↦ rw n (record { boots = v.boots; small = v.small; installed = v.installed })
  ]

  module _ (laws : FlashLaws flash) where
    append_reply-Then :
        (total cmd : ℕ) (bytes more : List ℕ) (w : Run)
        → Doing total bytes w
        → Then (After total (bytes ++ more)) (append_reply sys cmd more w)
    unfolding append_reply reply send positive
    append_reply-Then total cmd bytes more w (v, staged, size) agreed =
        let sum = length-append bytes more in
        elim (Status-cases (Store.append flash more w.config).0) [
          | inr (e, bad) ↦ absurd (ground (arith, bad, agreed))
          | inl fine ↦ (
            (λ whole.
                let (ok, v', force, _, _) =
                  append-commits flash laws bytes more w.config v staged fine
                    (omega (arith, sum, whole, size)) in
                (ok, v', ap (λ r. r.1) force ∙ in_force-bytes _ (bytes ++ more))),
            (λ part.
                let (v', staged', kept) =
                  append-IsStaged flash laws bytes more w.config v staged fine
                    (λ e. part (omega (arith, sum, e, size))) in
                (v', staged', kept ∙ size)),
          )
        ]

    start_append-Then :
        (total cmd : ℕ) (bytes : List ℕ) (w : Run)
        → IsConsistent flash w.config
        → Then (After total bytes) (start_append sys cmd total bytes w)
    unfolding start_append
    start_append-Then total cmd bytes w v =
        let started = Store.start flash total w.config in
        let w' : Run = record w { config = started.1 } in
        if-elim (Then (After total bytes)) (failed started.0) (reply sys cmd false w')
          (append_reply sys cmd bytes w') (λ bad. refused-Then (After total bytes) cmd w')
          (λ fine.
            append_reply-Then total cmd [] bytes w'
              (start-done flash laws total w.config v (not_failed started.0 fine)))

    pub continue-Then :
        (total : ℕ) (bytes chunk : List ℕ) (w : Run)
        → Doing total bytes w
        → Then (After total (bytes ++ chunk)) (config_continue sys 0x42 chunk w)
    unfolding config_continue
    continue-Then total bytes chunk w doing =
        if-elim (Then (After total (bytes ++ chunk)))
          (length chunk == 0 || ltb 200 (length chunk) || not (Store.writing flash w.config))
          (reply sys 0x42 false (cancel_config sys w)) (append_reply sys 0x42 chunk w)
          (λ bad. refused-Then (After total (bytes ++ chunk)) 0x42 (cancel_config sys w))
          (λ fine. append_reply-Then total 0x42 bytes chunk w doing)

    pub write-Then :
        (total : ℕ) (first : List ℕ) (w : Run)
        → IsConsistent flash w.config
        → total < 2 ^ 16
        → length first ≡ 200
        → Then
            (After total first)
            (config_write sys 0x41 (total % 256 ∷ u8 (total / 256) ∷ first) w)
    unfolding config_write
    write-Then total first w₀ v small size =
        let payload = total % 256 ∷ u8 (total / 256) ∷ first in
        let w = cancel_config sys (od_abort sys w₀).1 in
        let v' = cancelled w₀ v in
        let announced = le_size total first small in
        let P : Status × Run → Type 0 = Then (After total first) in
        if-elim P (length payload == 202)
          (if leb (le 2 payload) 200
            then reply sys 0x41 false w
            else start_append sys 0x41 (le 2 payload) first w)
          (if ltb (length payload) 5 || ltb 200 (length payload)
            then reply sys 0x41 false w
            else start_append sys 0x41 (length payload) payload w)
          (λ whole.
            if-elim P (leb (le 2 payload) 200) (reply sys 0x41 false w)
              (start_append sys 0x41 (le 2 payload) first w)
              (λ few. refused-Then (After total first) 0x41 w)
              (λ many.
                subst (λ t. P (start_append sys 0x41 t first w)) (sym announced)
                  (start_append-Then total 0x41 first w v')))
          (λ other. absurd (ground (arith, other, size)))

    pub handled_continue :
        (chunk : List ℕ) (w : Run)
        → length chunk ≤ 230
        → od_handle sys (continue_frame chunk) w ≡ config_continue sys 0x42 chunk w
    unfolding od_handle dispatch
    handled_continue chunk w short =
        let long : ltb (length (continue_frame chunk)) 2 ≡ false = ground arith in
        let fits : ltb 244 (length (continue_frame chunk)) ≡ false = ground (arith, short) in
        rw (long, fits) refl

    pub handled_write :
        (total : ℕ) (first : List ℕ) (w : Run)
        → length first ≡ 200
        → od_handle sys (write_frame total first) w
          ≡ config_write sys 0x41 (total % 256 ∷ u8 (total / 256) ∷ first) w
    unfolding od_handle dispatch
    handled_write total first w size =
        let long : ltb (length (write_frame total first)) 2 ≡ false = ground arith in
        let fits : ltb 244 (length (write_frame total first)) ≡ false = ground (arith, size) in
        rw (long, fits) refl
