-- ===== src/Config/Fields/Frames.antt =====
-- What `od_config_partial_frames` returns.
use greentags_lt213a_opendis.Prelude.{
  List, Option, [], arith, drop, if◌then◌else◌, length, ltb, none, refl, some, true, ℕ, ◌*◌, ◌++◌,
  ◌+◌, ◌-◌, ◌==◌, ◌||◌, ◌∷◌, ◌≡◌, ◌≤◌,
}
use greentags_lt213a_opendis.Config.Packets.{config_packet}
use greentags_lt213a_opendis.Config.Fields.{
  partial_frames_default, partial_frames_key, has_prefix, frames_from, frames_of, partial_frames,
}

frames_from_range :
    (frames : ℕ) (value : List ℕ)
    → frames ≤ 255
    → (1 ≤ frames_from frames value) × (frames_from frames value ≤ 255)
unfolding frames_from
frames_from_range frames [] h = omega arith
frames_from_range frames (x ∷ value) h =
    ground (arith, frames_from_range (frames * 10 + (x - b'0')) value)

frames_of_range :
    (extended : Option (List ℕ)) → (1 ≤ frames_of extended) × (frames_of extended ≤ 255)
unfolding frames_of
frames_of_range none = omega arith
frames_of_range (some e) =
    ground (arith, frames_from_range 0 (drop (length partial_frames_key) (drop (8 * 32) e)))

-- Whatever the configuration holds, the panel gets between 1 and 255 frames.
pub partial_frames_range :
    (bytes : List ℕ) → (1 ≤ partial_frames bytes) × (partial_frames bytes ≤ 255)
unfolding partial_frames
partial_frames_range bytes = frames_of_range _

abbrev IsDigit : ℕ → Type 0
IsDigit x = (b'0' ≤ x) × (x ≤ b'9')

abbrev pub AllDigits : List ℕ → Type 0
AllDigits [] = Unit
AllDigits (x ∷ xs) = IsDigit x × AllDigits xs

-- The number that decimal digits write, after `n`.
abbrev pub decimal : ℕ → List ℕ → ℕ
decimal n [] = n
decimal n (x ∷ xs) = decimal (n * 10 + (x - b'0')) xs

decimal-le : (n : ℕ) (ds : List ℕ) → n ≤ decimal n ds
decimal-le n [] = omega arith
decimal-le n (x ∷ ds) = omega (arith, decimal-le (n * 10 + (x - b'0')) ds)

-- The frame count that a decimal number asks for.
abbrev pub requested : ℕ → ℕ
requested n = if ltb 255 n || n == 0 then partial_frames_default else n

frames_from-decimal :
    (frames : ℕ) (ds rest : List ℕ)
    → frames ≤ 255
    → AllDigits ds
    → frames_from frames (ds ++ 0 ∷ rest) ≡ requested (decimal frames ds)
unfolding frames_from
frames_from-decimal frames [] rest h all = ground arith
frames_from-decimal frames (x ∷ ds) rest h all = ground (
  arith,
  frames_from-decimal (frames * 10 + (x - b'0')) ds rest,
  decimal-le (frames * 10 + (x - b'0')) ds,
  all.0,
  all.1,
)

has_prefix-append : (key rest : List ℕ) → has_prefix key (key ++ rest) ≡ true
unfolding has_prefix
has_prefix-append [] rest = refl
has_prefix-append (k ∷ key) rest = ground (arith, has_prefix-append key rest)

-- A custom string that is the key followed by decimal digits and a NUL sets that many frames, if the
-- number is between 1 and 255, and otherwise leaves the default.
pub partial_frames-decimal :
    (bytes extended digits rest : List ℕ)
    → config_packet bytes 44 ≡ some extended
    → drop (8 * 32) extended ≡ partial_frames_key ++ (digits ++ 0 ∷ rest)
    → AllDigits digits
    → partial_frames bytes ≡ requested (decimal 0 digits)
unfolding partial_frames frames_of
partial_frames-decimal bytes extended digits rest h value all = rw (
  h,
  value,
  has_prefix-append partial_frames_key (digits ++ 0 ∷ rest),
  frames_from-decimal 0 digits rest (omega arith) all,
)
