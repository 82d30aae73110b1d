-- ===== src/Protocol/Trace/ConfigUpload.antt =====
-- Commands 41 and 42 of protocol.c: a host writes a configuration, frame by frame, and goes on as long as
-- the device answers well.
use greentags_lt213a_opendis.Prelude.{
  Bool, Bool-cases, List, [], append-nil, append_assoc, arith, false, if◌then◌else◌, inl, inr,
  length, length-append, refl, subst, sym, true, ℕ, ◌++◌, ◌+◌, ◌<◌, ◌^◌, ◌∙◌, ◌∷◌, ◌≡◌,
}
use greentags_lt213a_opendis.Config.Flash.{FlashOps, FlashLaws}
use greentags_lt213a_opendis.Config.Store.{get_config}
use greentags_lt213a_opendis.Config.Store.Pages.{IsAccepted}
use greentags_lt213a_opendis.Config.Store.Update.{IsConsistent}
use greentags_lt213a_opendis.Config.Store.Commit.{in_force}
use greentags_lt213a_opendis.Protocol.Base.{Zlib, System, World}
use greentags_lt213a_opendis.Protocol.Handle.{od_handle}
use greentags_lt213a_opendis.Protocol.Trace.{Event, Device, recorded}
use greentags_lt213a_opendis.Protocol.Trace.Upload.{concat, AreChunks}
use greentags_lt213a_opendis.Protocol.Trace.ConfigFrames.{
  positive, write_frame, continue_frame, Stored, After, Then, continue-Then, write-Then,
  handled_continue, handled_write,
}

module _ {Z F : Type 0} (zlib : Zlib Z) (flash : FlashOps F) (build_sha : List ℕ) (d : Device) where
  abbrev sys : System Z F (List Event)
  sys = recorded zlib flash build_sha d

  abbrev Run : Type 0
  Run = World Z F (List Event)

  -- The frames behind the first one, until a response is negative.
  unfoldable pub continue_config : List (List ℕ) → Run → Bool × Run
  continue_config [] w = (true, w)
  continue_config (chunk ∷ chunks) w =
      let w' = (od_handle sys (continue_frame chunk) w).1 in
      let rest = continue_config chunks w' in if positive w'.device then rest else (false, w')

  -- Whether all responses were positive, and the state.
  unfoldable pub write_config : List ℕ → List (List ℕ) → Run → Bool × Run
  write_config first chunks w =
      let total = length first + length (concat chunks) in
      let w' = (od_handle sys (write_frame total first) w).1 in
      let rest = continue_config chunks w' in if positive w'.device then rest else (false, w')

  in_force-front :
      (first rest : List ℕ) → length first ≡ 200 → (in_force 0 (first ++ rest)).1 ≡ first ++ rest
  in_force-front [] rest size = absurd (omega (arith, size))
  in_force-front (x ∷ first) rest size = refl

  module _ (laws : FlashLaws flash) where
    continue_config-Stored :
        (total : ℕ) (chunks : List (List ℕ)) (bytes : List ℕ) (w : Run)
        → After zlib flash build_sha d total bytes w
        → AreChunks chunks
        → length bytes + length (concat chunks) ≡ total
        → (continue_config chunks w).0 ≡ true
        → Stored zlib flash build_sha d (bytes ++ concat chunks) (continue_config chunks w).1
    unfolding continue_config AreChunks concat
    continue_config-Stored total [] bytes w after sizes whole accepted =
        subst (λ b. Stored zlib flash build_sha d b w) (sym (append-nil bytes))
          (after.0 (omega (arith, whole)))
    continue_config-Stored total (chunk ∷ chunks) bytes w after (some_bytes, short, sizes) whole
          accepted =
        let w' = (od_handle sys (continue_frame chunk) w).1 in
        let split = length-append chunk (concat chunks) in
        let joined = length-append bytes chunk in
        let doing = after.1 (λ e. omega (arith, e, whole, split, some_bytes)) in
        elim (Bool-cases (positive w'.device)) [
          | inr n ↦ absurd (ground (arith, n, accepted))
          | inl y ↦
              let next =
                subst
                  (Then zlib flash build_sha d
                    (After zlib flash build_sha d total (bytes ++ chunk)))
                  (sym (handled_continue zlib flash build_sha d laws chunk w short))
                  (continue-Then zlib flash build_sha d laws total bytes chunk w doing) y in
              let rest : (continue_config chunks w').0 ≡ true = ground (arith, y, accepted) in
              let done_rest =
                continue_config-Stored total chunks (bytes ++ chunk) w' next sizes
                  (omega (arith, joined, split, whole)) rest in
              rw (y, sym (append_assoc bytes chunk (concat chunks))) done_rest
        ]

    -- With the laws of the flash, on a consistent store and with a device that answers the calls as
    -- it likes: a host that writes fewer than 2^16 bytes, the first 200 with their number through
    -- command 41 and the rest in chunks of 1 to 230 bytes through command 42, and gets only positive
    -- responses, leaves a consistent store with exactly those bytes in force, and the validator
    -- accepts them.
    pub write_config-Stored :
        (first : List ℕ) (chunks : List (List ℕ)) (w : Run)
        → IsConsistent flash w.config
        → length first ≡ 200
        → AreChunks chunks
        → length first + length (concat chunks) < 2 ^ 16
        → (write_config first chunks w).0 ≡ true
        → let bytes = first ++ concat chunks in
          let w' = (write_config first chunks w).1 in
          IsAccepted bytes × IsConsistent flash w'.config × ((get_config flash w'.config).1 ≡ bytes)
    unfolding write_config
    write_config-Stored first chunks w v size sizes small accepted =
        let total = length first + length (concat chunks) in
        let w' = (od_handle sys (write_frame total first) w).1 in
        elim (Bool-cases (positive w'.device)) [
          | inr n ↦ absurd (ground (arith, n, accepted))
          | inl y ↦
              let next =
                subst (Then zlib flash build_sha d (After zlib flash build_sha d total first))
                  (sym (handled_write zlib flash build_sha d laws total first w size))
                  (write-Then zlib flash build_sha d laws total first w v small size) y in
              let rest : (continue_config chunks w').0 ≡ true = ground (arith, y, accepted) in
              let (ok, v', force) =
                continue_config-Stored total chunks first w' next sizes refl rest in
              rw y (ok, v', force ∙ in_force-front first (concat chunks) size)
        ]
