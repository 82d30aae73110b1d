-- ===== src/Panel/Screen/Refines.antt =====
-- In a history that is in order, the driver does to the controller what the history says.
use greentags_lt213a_opendis.Prelude.{
  Bool, List, [], ap, ap₂, arith, done, length, length-append, map, refl, some, subst, sym, u8, ℕ,
  ◌++◌, ◌∙◌, ◌∷◌, ◌≡◌,
}
use greentags_lt213a_opendis.Protocol.Region.{inside-IsWindow}
use greentags_lt213a_opendis.Protocol.Trace.{
  Event, wrote, finished, Panel, closed, opened, panel, IsSafe, HasRoom, IsComplete, add_written,
}
use greentags_lt213a_opendis.Protocol.Trace.Display.{
  Opening, whole_frame, region, opening, image, shown,
}
use greentags_lt213a_opendis.Panel.Gpio.{Board}
use greentags_lt213a_opendis.Panel.Driver.{Epd, epd_write, epd_finish}
use greentags_lt213a_opendis.Panel.Bench.{Bench, Chip, bench}
use greentags_lt213a_opendis.Panel.Bench.Region.{
  map-append, region-same, Stored-awake, Stored, region-Stored, Stored-complete,
}
use greentags_lt213a_opendis.Panel.Bench.Transfer.{fed}
use greentags_lt213a_opendis.Panel.Bench.Planes.{storing_new, fed-new}
use greentags_lt213a_opendis.Panel.Bench.Off.{IsAttentive}
use greentags_lt213a_opendis.Panel.Bench.Writing.{
  region_bytes_given, epd_write-whole, epd_write-region,
}
use greentags_lt213a_opendis.Panel.Bench.Finish.{epd_finish-shows}
use greentags_lt213a_opendis.Panel.Screen.{
  picture, screen, Driven, started, waited, begins, opens, writes, finishes, aborts, sends, reboots,
  samples,
}
use greentags_lt213a_opendis.Panel.Screen.Opens.{
  Writes, Holds, Agrees, init-Agrees, begin-Agrees, abort-Agrees, region-Agrees,
}

module _ (level : Chip → ℕ → Bool) (deep_sleep : Bool) where
  abbrev g : Board Bench
  g = bench level

  epd_write-done : (bytes : List ℕ) (p : Epd Bench) → (epd_write g deep_sleep bytes p).0 ≡ done
  unfolding epd_write
  epd_write-done [] p = refl
  epd_write-done (v ∷ bytes) p = refl

  write-Holds :
      (pn : Panel) (o : Opening) (im bytes : List ℕ) (p : Epd Bench)
      → IsAttentive p
      → Holds pn o im p
      → HasRoom (length bytes) pn
      → let q = (epd_write g deep_sleep bytes p).1 in
        IsAttentive q
        × (q.board.chip.shown ≡ p.board.chip.shown)
        × Holds (add_written (length bytes) pn) o (im ++ bytes) q
  write-Holds closed o im bytes p attentive h room = absurd room
  write-Holds (opened size k) whole_frame im bytes p attentive h room =
      let (awake, count, (partial, size_is, up, sel, old, new)) = h in
      let (partial', awake', c) = epd_write-whole level deep_sleep bytes p partial in
      let total = length-append im bytes in
      let storing : p.board.chip ≡ storing_new (map u8 im) p.board.chip =
        ground (arith, up, sel, new) in
      let chip =
        c
        ∙ ap (fed bytes) storing
        ∙ fed-new bytes (map u8 im) p.board.chip
        ∙ ap (λ t. storing_new t p.board.chip) (sym (map-append u8 im bytes)) in
      (
        (λ _. ap (λ c. c.asleep) chip, ap (λ c. c.unheard) chip ∙ attentive.1),
        ap (λ c. c.shown) chip,
        (
          awake' ∙ awake,
          omega (arith, total, count),
          (
            partial',
            size_is,
            ap (λ c. c.asleep) chip,
            ap (λ c. c.selected) chip,
            ap (λ c. c.old_plane) chip ∙ old,
            ap (λ c. c.new_plane) chip,
          ),
        ),
      )
  write-Holds (opened size k) (region n) im bytes p attentive h room =
      let (awake, count, (partial, size_is, some_bytes, small, plane, written, stored)) = h in
      let (partial', awake', plane', written', c) =
        epd_write-region level deep_sleep bytes p partial (omega arith) in
      let total = length-append im bytes in
      let at_k : region_bytes_given p.plane_bytes p.plane_written bytes p.board.chip
          ≡ region_bytes_given n (length im) bytes p.board.chip =
        ap₂ (λ n k. region_bytes_given n k bytes p.board.chip) plane written in
      let chip = c ∙ at_k in
      let next = region-Stored n bytes im p.board.chip stored in
      let same = region-same n bytes im p.board.chip stored in
      let stored' = subst (Stored n (im ++ bytes)) (sym chip) next in
      (
        (
          λ _. Stored-awake n (im ++ bytes) _ stored',
          ap (λ c. c.unheard) chip ∙ same.0 ∙ attentive.1,
        ),
        ap (λ c. c.shown) chip ∙ same.1,
        (
          awake' ∙ awake,
          omega (arith, total, count),
          (
            partial',
            size_is,
            some_bytes,
            small,
            plane' ∙ plane,
            omega (arith, total, written, written'),
            stored',
          ),
        ),
      )

  write-Agrees :
      (bytes : List ℕ) (h : List Event) (p : Epd Bench)
      → Agrees h p
      → HasRoom (length bytes) (panel h)
      → Agrees
          (wrote bytes (epd_write g deep_sleep bytes p).0 ∷ h)
          (epd_write g deep_sleep bytes p).1
  unfolding shown panel opening image
  write-Agrees bytes h p (attentive, shows, holds) room =
      let w = write-Holds (panel h) (opening h) (image h) bytes p attentive holds room in
      rw (epd_write-done bytes p) (w.0, w.1 ∙ shows, w.2)

  planes-picture :
      (o : Opening) (size : ℕ) (im : List ℕ) (p : Epd Bench)
      → Writes o size im p
      → length im ≡ size
      → some (p.board.chip.old_plane, p.board.chip.new_plane) ≡ some (picture o im)
  unfolding picture
  planes-picture whole_frame size im p h full = ap₂ (λ a b. some (a, b)) h.4 h.5
  planes-picture (region n) size im p (_, size_is, some_bytes, _, _, _, stored) full =
      let planes = Stored-complete n im p.board.chip stored some_bytes (full ∙ size_is) in
      ap₂ (λ a b. some (a, b)) planes.1 planes.2

  finish-Shows :
      (pn : Panel) (o : Opening) (mode : ℕ) (im : List ℕ) (p : Epd Bench)
      → IsAttentive p
      → Holds pn o im p
      → IsComplete pn
      → IsAttentive (epd_finish g deep_sleep mode p).1
        × ((epd_finish g deep_sleep mode p).1.board.chip.shown ≡ some (picture o im))
  finish-Shows closed o mode im p attentive h whole_image = absurd whole_image
  finish-Shows (opened size k) o mode im p attentive (awake, count, writing) whole_image =
      let f = epd_finish-shows level deep_sleep mode p attentive awake in
      (f.0, f.1 ∙ planes-picture o size im p writing (count ∙ whole_image))

  finish-Agrees :
      (mode : ℕ) (h : List Event) (p : Epd Bench)
      → Agrees h p
      → IsComplete (panel h)
      → Agrees
          (finished mode (epd_finish g deep_sleep mode p).0 ∷ h)
          (epd_finish g deep_sleep mode p).1
  unfolding shown panel
  finish-Agrees mode h p (attentive, shows, holds) whole_image =
      let f = finish-Shows (panel h) (opening h) mode (image h) p attentive holds whole_image in
      (f.0, f.1, tt)

  wait-Holds :
      (pn : Panel) (o : Opening) (im : List ℕ) (ms : ℕ) (p : Epd Bench)
      → Holds pn o im p
      → Holds pn o im (record p { board = g.msleep ms p.board })
  wait-Holds closed o im ms p h = tt
  wait-Holds (opened size k) whole_frame im ms p h = h
  wait-Holds (opened size k) (region n) im ms p h = h

  -- In a history that is in order the driver and the controller agree with it.
  driven-Agrees :
      {h : List Event} {p : Epd Bench} → Driven level deep_sleep h p → IsSafe h → Agrees h p
  unfolding IsSafe shown panel opening image
  driven-Agrees (started p quiet blank) safe = init-Agrees level deep_sleep p quiet blank
  driven-Agrees (waited {h = h} {p = p} ms d) safe =
      let (attentive, shows, holds) = driven-Agrees d safe in
      (attentive, shows, wait-Holds (panel h) (opening h) (image h) ms p holds)
  driven-Agrees (begins {h = h} {p = p} d) safe =
      begin-Agrees level deep_sleep h p (driven-Agrees d safe.1)
  driven-Agrees (opens {h = h} {p = p} frames x y width height d) safe =
      region-Agrees level deep_sleep frames x y width height h p (driven-Agrees d safe.3)
        (inside-IsWindow x y width height safe.1 safe.2)
  driven-Agrees (writes {h = h} {p = p} bytes d) safe =
      write-Agrees bytes h p (driven-Agrees d safe.1) safe.0
  driven-Agrees (finishes {h = h} {p = p} mode d) safe =
      finish-Agrees mode h p (driven-Agrees d safe.1) safe.0
  driven-Agrees (aborts {h = h} {p = p} d) safe =
      abort-Agrees level deep_sleep h p (driven-Agrees d safe)
  driven-Agrees (sends bytes s d) safe = driven-Agrees d safe
  driven-Agrees (reboots d) safe = driven-Agrees d safe.1
  driven-Agrees (samples s d) safe = driven-Agrees d safe

  -- On a panel that releases BUSY as it likes, after calls in order that the driver answered with
  -- the results in the history: the controller's last refresh showed the planes that the history
  -- calls for, those of a whole image over white, or of a region inverted and split in two, or none
  -- if no refresh was made; and no byte was ever sent to it in deep sleep.
  pub driven-screen :
      {h : List Event} {p : Epd Bench}
      → Driven level deep_sleep h p
      → IsSafe h
      → (p.board.chip.shown ≡ screen h) × (p.board.chip.unheard ≡ 0)
  driven-screen d safe = let a = driven-Agrees d safe in (a.1, a.0.1)
