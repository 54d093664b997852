-- ===== src/Base/Numbers.antt =====
-- Python's numbers. An `int` is an integer of any size. A `float` is a double: infinite, not a
-- number, or n / 2 ^ k, the form of every finite double; only its comparisons are modelled, and
-- these are exact, as Python's are, between an `int` and a `float` too.
use Prim.Native.Nat.{ℕ, suc, ◌+◌, ◌*◌, ◌^◌, ◌≤◌}
use mathlib.Core.Bool.{Bool, true, false}
use policyengine_observabili.Base.Tests.{leb}

-- `negsuc n` is -(n + 1).
pub data ℤ : Type 0 where
  pos : ℕ → ℤ
  negsuc : ℕ → ℤ

abbrev pub pos_part : ℤ → ℕ
pos_part (pos n) = n
pos_part (negsuc n) = 0

abbrev pub neg_part : ℤ → ℕ
neg_part (pos n) = 0
neg_part (negsuc n) = suc n

abbrev pub leb_ℤ : ℤ → ℤ → Bool
leb_ℤ a b = leb (pos_part a + neg_part b) (pos_part b + neg_part a)

infix 50 ◌≤ℤ◌
abbrev pub ◌≤ℤ◌ : ℤ → ℤ → Type 0
a ≤ℤ b = pos_part a + neg_part b ≤ pos_part b + neg_part a

-- `finite n k` is n / 2 ^ k.
pub data Float : Type 0 where
  nan inf minus_inf : Float
  finite : ℤ → ℕ → Float

-- `math.isfinite`
abbrev pub is_finite : Float → Bool
is_finite (finite n k) = true
is_finite _ = false

-- a / 2 ^ j ≤ b / 2 ^ k
abbrev pub leb_dyadic : ℤ → ℕ → ℤ → ℕ → Bool
leb_dyadic a j b k =
    leb (pos_part a * 2 ^ k + neg_part b * 2 ^ j) (pos_part b * 2 ^ j + neg_part a * 2 ^ k)

-- `a <= b`; a comparison with NaN is false.
abbrev pub leb_float : Float → Float → Bool
leb_float nan b = false
leb_float a nan = false
leb_float minus_inf b = true
leb_float a inf = true
leb_float inf b = false
leb_float a minus_inf = false
leb_float (finite a j) (finite b k) = leb_dyadic a j b k

-- Python's `max(a, b)` and `min(a, b)`: the first unless the second is beyond it.
abbrev pub ltb_float : Float → Float → Bool
ltb_float nan b = false
ltb_float a nan = false
ltb_float a b = elim (leb_float b a) [ true ↦ false | false ↦ true ]

abbrev pub max_float : Float → Float → Float
max_float a b = elim (ltb_float a b) [ true ↦ b | false ↦ a ]

abbrev pub min_float : Float → Float → Float
min_float a b = elim (ltb_float b a) [ true ↦ b | false ↦ a ]
