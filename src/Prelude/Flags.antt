-- ===== src/Prelude/Flags.antt =====
-- Single-bit masks: `w & m`, `w | m` and `w & ~m` for a mask `m` that is a power of two, written
-- out so that the arithmetic tactics read them; the tables compare them with the native bits.
use Prim.Native.Nat.{ℕ, zero, suc, ◌+◌, ◌-◌, ◌/◌, ◌%◌, bit_and, bit_or}
use mathlib.Core.Path.{◌≡◌, refl}
use mathlib.Core.Bool.{Bool, true, ◌&&◌}
use native.Mathlib.Omega.{arith}
use unisock.Prelude.Tests.{◌==◌, if◌then◌else◌}

-- `(w & m) != 0`
abbrev pub has_flag : ℕ → ℕ → Bool
has_flag w m = w / m % 2 == 1

-- `w | m`
abbrev pub set_flag : ℕ → ℕ → ℕ
set_flag w m = if has_flag w m then w else w + m

-- `w & ~m`
abbrev pub clear_flag : ℕ → ℕ → ℕ
clear_flag w m = if has_flag w m then w - m else w

all_below : ℕ → (ℕ → Bool) → Bool
all_below zero p = true
all_below (suc n) p = p n && all_below n p

flags_agree : ℕ → ℕ → Bool
flags_agree m w =
    (set_flag w m == bit_or w m)
    && (clear_flag w m + bit_and w m == w)
    && (if has_flag w m then bit_and w m == m else bit_and w m == 0)

flags_table :
    (all_below 256 (flags_agree 1)
      && all_below 256 (flags_agree 2)
      && all_below 256 (flags_agree 4))
    ≡ true
unfolding all_below flags_agree
flags_table = refl

-- What setting and clearing bit 0 or bit 2 does to both.
abbrev pub put_flag : ℕ → ℕ → Bool → ℕ
put_flag w m b = if b then set_flag w m else clear_flag w m

pub has_flag-put_four : (w : ℕ) (b : Bool) → has_flag (put_flag w 4 b) 4 ≡ b
has_flag-put_four w b = ground arith

pub has_flag-put_four_one : (w : ℕ) (b : Bool) → has_flag (put_flag w 4 b) 1 ≡ has_flag w 1
has_flag-put_four_one w b = ground arith

pub has_flag-put_one : (w : ℕ) (b : Bool) → has_flag (put_flag w 1 b) 1 ≡ b
has_flag-put_one w b = ground arith

pub has_flag-put_one_four : (w : ℕ) (b : Bool) → has_flag (put_flag w 1 b) 4 ≡ has_flag w 4
has_flag-put_one_four w b = ground arith
