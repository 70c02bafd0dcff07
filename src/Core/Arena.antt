-- ===== src/Core/Arena.antt =====
-- src/core/Arena.hpp: a bump allocator over one buffer.
-- Addresses are numbers and 0 is the null pointer. A method that changes the arena returns the
-- new arena beside its result. What `malloc` returns is a parameter.
pub mod Bounds
pub mod Ownership
use lsm_toolchain.Prelude.{
  ℕ, ◌+◌, ◌-◌, ◌%◌, ◌^◌, bit_and, Bool, true, false, ◌&&◌, ◌||◌, not, List, [], ◌∷◌, ◌++◌, Option,
  none, some, ◌==◌, leb, ltb, if◌then◌else◌, length,
}
use lsm_toolchain.Core.Utils.{word, sub_size, align_up}

abbrev pub cache_line : ℕ
cache_line = 64

pub record Arena : Type 0 where
  pub raw_buffer : ℕ
  pub buffer : ℕ
  pub capacity : ℕ
  pub offset : ℕ
  pub is_external_buffer : Bool

-- `explicit Arena(size_t)`: `raw` is what `malloc(size_bytes + 64)` returned.
unfoldable pub owning : ℕ → ℕ → Arena
owning raw size_bytes = record {
  raw_buffer = raw;
  buffer = if raw == 0 then 0 else align_up raw cache_line;
  capacity = size_bytes;
  offset = 0;
  is_external_buffer = false;
}

-- `Arena(void*, size_t)`
unfoldable pub external : ℕ → ℕ → Arena
external memory size_bytes = record {
  raw_buffer = 0;
  buffer = memory;
  capacity = size_bytes;
  offset = 0;
  is_external_buffer = true;
}

-- The destructor: the arena after it, and the blocks that it hands to `free`.
unfoldable pub destroy : Arena → Arena × List ℕ
destroy a =
    if not a.is_external_buffer && not (a.raw_buffer == 0)
    then (record a { raw_buffer = 0; buffer = 0 }, a.raw_buffer ∷ [])
    else (a, [])

-- what a moved-from arena is left as
abbrev pub emptied : Arena → Arena
emptied a = record a { raw_buffer = 0; buffer = 0; capacity = 0; offset = 0 }

-- The move constructor: the new arena and the one that it was made from.
unfoldable pub move : Arena → Arena × Arena
move other = (other, emptied other)

-- Move assignment between two distinct arenas: the two after it, and what it frees.
unfoldable pub move_assign : Arena → Arena → Arena × Arena × List ℕ
move_assign this other = (
  other,
  emptied other,
  if not this.is_external_buffer && not (this.raw_buffer == 0) then this.raw_buffer ∷ [] else [],
)

-- the gap that aligns the next address
unfoldable pub padding : Arena → ℕ → ℕ
padding a alignment =
    let current = (a.buffer + a.offset) % word in sub_size (align_up current alignment) current

unfoldable pub alloc : Arena → ℕ → ℕ → Option ℕ × Arena
alloc a size_bytes alignment =
    let pad = padding a alignment in
    if a.buffer == 0 || (size_bytes == 0 || alignment == 0)
    then (none, a)
    else if ltb a.capacity ((a.offset + pad + size_bytes) % word)
    then (none, a)
    else (
      some ((a.buffer + (a.offset + pad) % word) % word),
      record a { offset = (a.offset + pad + size_bytes) % word },
    )

unfoldable pub reset : Arena → Arena
reset a = record a { offset = 0 }

unfoldable pub used_bytes : Arena → ℕ
used_bytes a = a.offset

unfoldable pub free_bytes : Arena → ℕ
free_bytes a = if ltb a.offset a.capacity then a.capacity - a.offset else 0

-- Memory: the byte at each address.
abbrev pub Memory : Type 0
Memory = ℕ → ℕ

unfoldable pub store_byte : Memory → ℕ → ℕ → Memory
store_byte m p b = λ q. if q == p then b else m q

-- `memcpy` of the bytes of a list to an address
unfoldable pub copy_to : Memory → ℕ → List ℕ → Memory
unfolding store_byte
copy_to m p [] = m
copy_to m p (b ∷ bs) = copy_to (store_byte m p b) (p + 1) bs

-- What `allocString` does with the block that it got: the final zero byte follows the copy.
unfoldable pub write_string : Option ℕ → List ℕ → Memory → Memory
unfolding copy_to
write_string none str m = m
write_string (some dest) str m = store_byte (copy_to m dest str) (dest + length str) 0

-- `allocString`: `none` for a null `str`.
unfoldable pub alloc_string : Arena → Memory → Option (List ℕ) → Option ℕ × Arena × Memory
unfolding write_string
alloc_string a m none = (none, a, m)
alloc_string a m (some str) =
    let (p, a') = alloc a ((length str + 1) % word) 1 in (p, a', write_string p str m)
