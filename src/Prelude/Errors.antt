-- ===== src/Prelude/Errors.antt =====
-- The `int` results of the C functions: zero, or a negative errno.
use native.Mathlib.Omega.{arith}
use Prim.Native.Nat.{ℕ}
use mathlib.Core.Bool.{Bool, true, false}
use mathlib.Core.Path.{◌≡◌, refl}
use mathlib.Core.Logic.{◌⊎◌, inl, inr}

-- `driver` is any other nonzero result of a callback or a driver. `out_of_rounds` is what the model of a
-- loop gives when its fuel ends: no function returns it.
pub data Errno : Type 0 where
  einval enotsup efbig ebadmsg : Errno
  eacces ealready eio enotconn ebusy etimedout enomem eagain : Errno
  driver : ℕ → Errno
  out_of_rounds : Errno

pub data Status : Type 0 where
  done : Status
  fail : Errno → Status

-- the test `if (err)`
abbrev pub failed : Status → Bool
failed done = false
failed (fail e) = true

pub Status-cases : (s : Status) → (s ≡ done) ⊎ ((e : Errno) × (s ≡ fail e))
Status-cases done = inl refl
Status-cases (fail e) = inr (e, refl)

pub not_failed : (s : Status) → failed s ≡ false → s ≡ done
not_failed done h = refl
not_failed (fail e) h = absurd (ground (arith, h))
