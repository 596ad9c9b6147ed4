-- ===== src/Prelude/Text.antt =====
-- C strings: lists of byte values.
use Prim.Native.Nat.{ℕ}
use Prim.Native.Char.{code}
use Prim.Native.String.{String}
use mathlib.Core.Path.{◌≡◌, refl}
use mathlib.Core.Logic.{◌↔◌}
use mathlib.Core.Bool.{Bool, true, false, ◌&&◌}
use mathlib.Core.List.{List, [], ◌∷◌}
use native.Mathlib.Omega.{arith}
use low.Prelude.Tests.{◌==◌}

abbrev pub Bytes : Type 0
Bytes = List ℕ

-- The bytes of an ASCII text.
abbrev pub codes : String → Bytes
codes String.[] = []
codes (String.◌∷◌ c s) = code c ∷ codes s

-- `strcmp(a, b) == 0`
unfoldable pub str_equal : Bytes → Bytes → Bool
str_equal [] [] = true
str_equal (x ∷ xs) (y ∷ ys) = x == y && str_equal xs ys
str_equal _ _ = false

pub str_equal_iff : (a b : Bytes) → (str_equal a b ≡ true) ↔ (a ≡ b)
unfolding str_equal
str_equal_iff (x ∷ a) (y ∷ b) = ground (arith, str_equal_iff a b)
str_equal_iff _ _ = ground arith

pub str_equal_refl : (s : Bytes) → str_equal s s ≡ true
str_equal_refl s = (str_equal_iff s s).1 refl

pub str_equal_comm : (s t : Bytes) → str_equal s t ≡ str_equal t s
unfolding str_equal
str_equal_comm [] [] = refl
str_equal_comm [] (_ ∷ _) = refl
str_equal_comm (_ ∷ _) [] = refl
str_equal_comm (x ∷ s) (y ∷ t) = ground (arith, str_equal_comm s t)
