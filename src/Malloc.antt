-- ===== src/Malloc.antt =====
-- kernel/malloc.c: the size-class allocator, and `_sbrk` of kernel/syscall_stubs.c under it.
-- A pointer is an address; 0 is NULL. A function that changes memory, the free lists, the break or
-- `errno` returns the new heap. `& ~(align - 1)` is written for a power of two, which `aligned_alloc`
-- is given: the multiple of `align` at or below.
use beeros.Prelude.{
  ℕ, zero, suc, ◌+◌, ◌-◌, ◌*◌, ◌/◌, ◌%◌, ◌^◌, Bool, true, false, Option, none, some, ltb, leb, ◌==◌,
  if◌then◌else◌,
}
use beeros.Prelude.Slice.{update}
use beeros.Memory.{Memory, load64, store64}
pub mod Classes
pub mod Layout
pub mod Steps
pub mod Alloc
pub mod Free
pub mod Aligned
pub mod Reuse
pub mod Realloc
pub mod Calloc
mod Tests

abbrev pub size_mod : ℕ
size_mod = 2 ^ 64

abbrev pub align : ℕ
align = 16

abbrev pub small_max : ℕ
small_max = 2048

abbrev pub small_count : ℕ
small_count = small_max / align

abbrev pub large_count : ℕ
large_count = 20

abbrev pub classes : ℕ
classes = small_count + large_count

-- The `while` loop of `class_of`, by the rounds that `c < CLASSES - 1` leaves it, and the `return`.
large_class : (rounds n c size : ℕ) → ℕ
large_class zero n c size = if ltb size n then classes else c
large_class (suc rounds) n c size = elim (ltb size n) [
  | true ↦ large_class rounds n (c + 1) (size * 2 % size_mod)
  | false ↦ if ltb size n then classes else c
]

pub class_of : ℕ → ℕ
class_of n =
    if leb n small_max
    then (if n == 0 then 0 else (n - 1) / align)
    else large_class (classes - 1 - small_count) n small_count (2 * small_max)

pub class_size : ℕ → ℕ
class_size c =
    if ltb c small_count
    then (c + 1) * align
    else (2 * small_max) * 2 ^ (c - small_count) % size_mod

-- `_sbrk`'s `brk` is 0 until the first call. `heap_start` and `heap_end` are the linker's symbols;
-- `enomem` says that `errno` was set to ENOMEM.
pub record Heap : Type 0 where
  pub mem : Memory
  pub free_lists : ℕ → ℕ
  pub brk : ℕ
  pub heap_start : ℕ
  pub heap_end : ℕ
  pub enomem : Bool

abbrev pub top : Heap → ℕ
top h = if h.brk == 0 then h.heap_start else h.brk

-- `none` is `(void*)-1`. The allocator only asks for a positive `incr`.
pub sbrk : ℕ → Heap → Option ℕ × Heap
sbrk incr h =
    if ltb h.heap_end (top h + incr)
    then (none, record h { brk = top h; enomem = true })
    else (some (top h), record h { brk = top h + incr })

-- `sizeof(Header)`: the words `cls` and `offset`.
abbrev pub header_size : ℕ
header_size = 16

-- The branch of `malloc` for an empty free list: what it makes of the answer of `_sbrk`, and the call.
place : ℕ → Option ℕ × Heap → ℕ × Heap
place c (none, h) = (0, record h { enomem = true })
place c (some b, h) = (b + header_size, record h { mem = store64 (store64 h.mem b c) (b + 8) 0 })

carve : ℕ → Heap → ℕ × Heap
unfolding place sbrk
carve c h = place c (sbrk (header_size + class_size c) h)

-- The branch of `malloc` that takes the first free block.
pub reuse : ℕ → ℕ → Heap → ℕ × Heap
reuse c b h = (
  b + header_size,
  record h {
    mem = store64 h.mem (b + 8) 0;
    free_lists = update h.free_lists c (load64 h.mem (b + header_size));
  },
)

pub malloc : ℕ → Heap → ℕ × Heap
malloc n h =
    let c = class_of n in
    if leb classes c
    then (0, record h { enomem = true })
    else if h.free_lists c == 0
    then carve c h
    else reuse c (h.free_lists c) h

pub header_of : ℕ → Heap → ℕ
header_of p h =
    let b = p - header_size in
    let offset = load64 h.mem (b + 8) in if offset == 0 then b else b - offset

pub free : ℕ → Heap → Heap
free p h =
    let b = header_of p h in
    let cls = load64 h.mem b in
    if p == 0 then h else record h {
      mem = store64 (store64 h.mem (b + 8) 0) (b + header_size) (h.free_lists cls);
      free_lists = update h.free_lists cls b;
    }

pub usable : ℕ → Heap → ℕ
usable p h =
    let b = header_of p h in
    (class_size (load64 h.mem b) + size_mod - (p - (b + header_size))) % size_mod

pub malloc_usable_size : ℕ → Heap → ℕ
malloc_usable_size p h = if p == 0 then 0 else usable p h

-- `memcpy(q, p, n)` and `memset(p, 0, n)`.
abbrev pub memcpy : Memory → (q p n : ℕ) → Memory
memcpy m q p n a = if leb q a then (if ltb a (q + n) then m (p + (a - q)) else m a) else m a

abbrev pub memset0 : Memory → (p n : ℕ) → Memory
memset0 m p n a = if leb p a then (if ltb a (p + n) then 0 else m a) else m a

-- The part of `realloc` behind its call of `malloc`.
moved : (p have : ℕ) → ℕ × Heap → ℕ × Heap
moved p have (q, h) =
    if q == 0 then (0, h) else (q, free p (record h { mem = memcpy h.mem q p have }))

pub realloc : ℕ → ℕ → Heap → ℕ × Heap
unfolding moved
realloc p n h =
    if p == 0
    then malloc n h
    else if leb n (usable p h)
    then (p, h)
    else moved p (usable p h) (malloc n h)

cleared : ℕ → ℕ × Heap → ℕ × Heap
cleared n (p, h) = (p, if p == 0 then h else record h { mem = memset0 h.mem p n })

pub calloc : ℕ → ℕ → Heap → ℕ × Heap
unfolding cleared
calloc count size h =
    if leb size_mod (count * size)
    then (0, record h { enomem = true })
    else cleared (count * size) (malloc (count * size) h)

abbrev pub align_up : ℕ → ℕ → ℕ
align_up al x = (x + al - 1) / al * al

-- The part of `aligned_alloc` behind its call of `malloc`.
aligned : ℕ → ℕ × Heap → ℕ × Heap
aligned al (base, h) =
    let p = align_up al base in
    if base == 0
    then (0, h)
    else if p == base
    then (p, h)
    else (p, record h { mem = store64 h.mem (p - 8) (p - base) })

pub aligned_alloc : ℕ → ℕ → Heap → ℕ × Heap
unfolding aligned
aligned_alloc al n h =
    if leb al align then malloc n h else aligned al (malloc ((n + al) % size_mod) h)

pub memalign : ℕ → ℕ → Heap → ℕ × Heap
memalign al n h = aligned_alloc al n h

-- `none` is ENOMEM, which leaves `*out` alone.
pub posix_memalign : ℕ → ℕ → Heap → Option ℕ × Heap
posix_memalign al n h =
    let (p, h') = aligned_alloc al n h in if p == 0 then (none, h') else (some p, h')
