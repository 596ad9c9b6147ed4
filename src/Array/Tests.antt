-- ===== src/Array/Tests.antt =====
-- The theorems on src/array.c at concrete arrays.
use low.Prelude.{ℕ, ◌+◌, ◌^◌, ◌∷◌, [], none, some, ◌≡◌, arith}
use low.Array.Defs.{
  ok, hangs, ◌>>=◌, Array, array_init, array_grow, array_insert, array_insert_many, array_erase,
  array_erase_range,
}
use low.Array.Room.{IsValid, contents}
use low.Array.Insert.{array_insert_many-contents}
use low.Array.Erase.{array_erase_range-contents}
use low.Array.Single.{array_single}
use low.Array.Hang.{array_grow-hangs}

-- Three items of 8 bytes in a full region of four.
abbrev three : Array ℕ
three = record {
  size = 3;
  capacity = 4;
  item_size = 8;
  items = some (some 5 ∷ some 6 ∷ some 7 ∷ none ∷ []);
}

three-IsValid : IsValid three
unfolding IsValid
three-IsValid = (omega arith, omega arith)

array_insert_many-contents_example :
    (b : Array ℕ) × (array_insert_many three 1 2 (some (8 ∷ 9 ∷ [])) ≡ ok b)
    × IsValid b
    × (contents b ≡ some 5 ∷ some 8 ∷ some 9 ∷ some 6 ∷ some 7 ∷ [])
unfolding contents
array_insert_many-contents_example =
    array_insert_many-contents three 1 (8 ∷ 9 ∷ []) three-IsValid (omega arith) (omega arith)
      (omega arith)

array_erase_range-contents_example :
    (b : Array ℕ) × (array_erase_range three 0 2 ≡ ok b) × IsValid b × (contents b ≡ some 7 ∷ [])
unfolding contents
array_erase_range-contents_example =
    array_erase_range-contents three 0 2 three-IsValid (omega arith) (omega arith)

array_single_example :
    (array_insert three 3 (some 8) ≡ array_insert_many three 3 1 (some (8 ∷ [])))
    × (array_erase three 3 ≡ array_erase_range three 3 (3 + 1))
array_single_example = array_single three 3 8 (omega arith)

array_grow-hangs_example : (array_init {A = ℕ} 4 >>= λ a. array_grow a (2 ^ 31 + 1)) ≡ hangs
array_grow-hangs_example =
    array_grow-hangs ℕ 4 (2 ^ 31 + 1) (omega arith) (omega arith) (omega arith)
