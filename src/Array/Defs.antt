-- ===== src/Array/Defs.antt =====
-- src/array.c. Items are moved as wholes, so the memory region is the list of the items that it has
-- room for; an item that was never written is `none`. Its size in bytes is a product of `unsigned`s,
-- which wraps. `realloc` and `malloc` are taken to succeed: the source does not test what they
-- return.
--
-- `fault`: a failed assertion, or an access outside the region, where the byte offset may also have
-- wrapped. `hangs`: a loop that does not end.
use low.Prelude.{
  ℕ, zero, suc, ◌+◌, ◌-◌, ◌*◌, ◌/◌, ◌%◌, Bool, true, false, List, [], ◌∷◌, ◌++◌, Option, none, some,
  ◌==◌, leb, ltb, if◌then◌else◌, u32_mod, length, take, drop, replicate, map,
}

pub data Result {ℓ} (A : Type ℓ) : Type ℓ where
  ok : A → Result A
  fault hangs : Result A

infixl 5 ◌>>=◌ ◌>>◌
abbrev pub ◌>>=◌ {ℓ κ} : {A : Type ℓ} {B : Type κ} → Result A → (A → Result B) → Result B
ok a >>= f = f a
fault >>= f = fault
hangs >>= f = hangs

abbrev pub ◌>>◌ {ℓ} : {B : Type ℓ} → Result (Unit {0}) → Result B → Result B
m >> k = m >>= λ _. k

abbrev pub assert : Bool → Result (Unit {0})
assert true = ok tt
assert false = fault

-- How many items fit into `malloc(capacity * item_size)`.
abbrev pub room : ℕ → ℕ → ℕ
room capacity item_size = (capacity * item_size) % u32_mod / item_size

-- `while (cap < req) cap *= 2`. A capacity that is not 0 reaches the range of `req` or 0 within 32
-- doublings, and stays 0 from there on.
unfoldable pub double_until : ℕ → ℕ → ℕ → Result ℕ
double_until zero capacity req = if ltb capacity req then hangs else ok capacity
double_until (suc fuel) capacity req =
    let rest = double_until fuel ((capacity * 2) % u32_mod) req in
    if ltb capacity req then rest else ok capacity

module _ {ℓ} (A : Type ℓ) where
  -- `items` is null before the first allocation and after `array_dispose`.
  pub record Array : Type ℓ where
    pub size : ℕ
    pub capacity : ℕ
    pub item_size : ℕ
    pub items : Option (List (Option A))

module _ {ℓ} {A : Type ℓ} where
  -- What a region becomes when it is given room for n items: its first items stay.
  abbrev pub resize_region : ℕ → List (Option A) → List (Option A)
  resize_region n cells = take n (cells ++ replicate n none)

  abbrev pub region : Option (List (Option A)) → List (Option A)
  region none = []
  region (some cells) = cells

  -- The array with other items in its region, if it has one.
  abbrev pub put : Array A → List (Option A) → Array A
  put self cells = record self { items = elim self.items [ none ↦ none | some _ ↦ some cells ] }

  unfoldable pub array_reallocate : Array A → ℕ → Array A
  array_reallocate self capacity = record self {
    items = some (resize_region (room capacity self.item_size) (region self.items));
    capacity = capacity;
  }

  unfoldable pub array_grow : Array A → ℕ → Result (Array A)
  unfolding double_until array_reallocate
  array_grow self additional =
      let req = (self.size + additional) % u32_mod in
      if ltb self.capacity req
      then (double_until 32 (if self.capacity == 0 then 1 else self.capacity) req >>= λ capacity.
          ok (array_reallocate self capacity))
      else ok self

  -- `memcpy` of the items to index `to` of the region.
  unfoldable pub write : List (Option A) → ℕ → List (Option A) → Result (List (Option A))
  write cells to new =
      if leb (to + length new) (length cells)
      then ok (take to cells ++ (new ++ drop (to + length new) cells))
      else fault

  -- `memcpy` of n items from index `from` of the region.
  unfoldable pub read : List (Option A) → ℕ → ℕ → Result (List (Option A))
  read cells from n = if leb (from + n) (length cells) then ok (take n (drop from cells)) else fault

  unfoldable pub array_move_tail : Array A → ℕ → ℕ → Result (Array A)
  unfolding write read
  array_move_tail self from to = do
    tail ← read (region self.items) from (self.size - from)
    cells ← write (region self.items) to tail
    ok (put self cells)

  unfoldable pub array_init : ℕ → Result (Array A)
  array_init item_size = do
    assert (ltb 0 item_size)
    ok (record { size = 0; capacity = 0; item_size = item_size; items = none })

  unfoldable pub array_dispose : Array A → Array A
  array_dispose self = record self { items = none }

  unfoldable pub array_reserve : Array A → ℕ → Array A
  unfolding array_reallocate
  array_reserve self capacity =
      if leb capacity self.capacity then self else array_reallocate self capacity

  unfoldable pub array_resize : Array A → ℕ → Array A
  unfolding array_reallocate
  array_resize self items =
      let grown = if ltb self.capacity items then array_reallocate self items else self in
      record grown { size = items }

  unfoldable pub array_shrink : Array A → Array A
  unfolding array_reallocate
  array_shrink self = if self.size == self.capacity then self else array_reallocate self self.size

  -- The item behind the pointer that is returned.
  unfoldable pub array_get : Array A → ℕ → Result (Option A)
  unfolding read
  array_get self index = do
    assert (ltb index self.size)
    cells ← read (region self.items) index 1
    elim cells [ [] ↦ fault | cell ∷ _ ↦ ok cell ]

  unfoldable pub array_get_many : Array A → ℕ → ℕ → Result (List (Option A))
  unfolding read
  array_get_many self index num_items = do
    assert (ltb index self.size)
    assert (leb ((index + num_items) % u32_mod) self.size)
    read (region self.items) index num_items

  unfoldable pub array_set_many : Array A → ℕ → List A → Result (Array A)
  unfolding write
  array_set_many self index items = do
    assert (leb ((index + length items) % u32_mod) self.size)
    cells ← write (region self.items) index (map some items)
    ok (put self cells)

  unfoldable pub array_set : Array A → ℕ → A → Result (Array A)
  unfolding write
  array_set self index item = do
    assert (ltb index self.size)
    cells ← write (region self.items) index (some item ∷ [])
    ok (put self cells)

  -- `none` for a null pointer to the items: their places are left to be written later. The pointer
  -- returned is that to `index`.
  unfoldable pub array_insert_many : Array A → ℕ → ℕ → Option (List A) → Result (Array A)
  unfolding array_grow array_move_tail array_set_many
  array_insert_many self index num_items items = do
    assert (leb index self.size)
    grown ← array_grow self num_items
    moved ←
        (if ltb index grown.size
          then array_move_tail grown index ((index + num_items) % u32_mod)
          else ok grown)
    let sized = record moved { size = (moved.size + num_items) % u32_mod }
    elim items [ none ↦ ok sized | some new ↦ array_set_many sized index new ]

  unfoldable pub array_insert : Array A → ℕ → Option A → Result (Array A)
  unfolding array_grow array_move_tail array_set
  array_insert self index item = do
    assert (leb index self.size)
    grown ← array_grow self 1
    moved ←
        (if ltb index grown.size
          then array_move_tail grown index ((index + 1) % u32_mod)
          else ok grown)
    let sized = record moved { size = (moved.size + 1) % u32_mod }
    elim item [ none ↦ ok sized | some new ↦ array_set sized index new ]

  unfoldable pub array_erase : Array A → ℕ → Result (Array A)
  unfolding array_move_tail
  array_erase self index = do
    assert (ltb index self.size)
    moved ← (if ltb index (self.size - 1) then array_move_tail self (index + 1) index else ok self)
    ok (record moved { size = moved.size - 1 })

  unfoldable pub array_erase_range : Array A → ℕ → ℕ → Result (Array A)
  unfolding array_move_tail
  array_erase_range self first last = do
    assert (leb first last)
    assert (leb last self.size)
    moved ← (if ltb last self.size then array_move_tail self last first else ok self)
    ok (record moved { size = moved.size - (last - first) })

  unfoldable pub array_add : Array A → Option A → Result (Array A)
  unfolding array_insert
  array_add self item = array_insert self self.size item

  unfoldable pub array_add_many : Array A → ℕ → Option (List A) → Result (Array A)
  unfolding array_insert_many
  array_add_many self num_items items = array_insert_many self self.size num_items items

  unfoldable pub array_remove : Array A → Result (Array A)
  array_remove self = do assert (ltb 0 self.size); ok (record self { size = self.size - 1 })

  unfoldable pub array_remove_many : Array A → ℕ → Result (Array A)
  array_remove_many self num_items = do
    assert (leb num_items self.size)
    ok (record self { size = self.size - num_items })

  unfoldable pub array_clear : Array A → Array A
  array_clear self = record self { size = 0 }
