-- ===== src/Malloc/Tests.antt =====
-- Runs of kernel/malloc.c on small heaps, and its theorems at these.
use beeros.Prelude.{
  ℕ, ◌+◌, ◌-◌, ◌*◌, ◌≤◌, ◌<◌, ◌^◌, ◌≡◌, refl, ◌≢◌, ◌⊎◌, inl, inr, [], ◌∷◌, false, true, arith,
}
use beeros.Memory.{load64, store64, load64-store64}
use beeros.Malloc.{
  Heap, header_size, class_size, class_of, header_of, malloc, free, aligned_alloc, realloc, calloc,
  size_mod, large_class, carve,
}
use beeros.Malloc.Layout.{View, IsHeap, Live, IsBlock}
use beeros.Malloc.Alloc.{Allocated, Refused, malloc_lem}
use beeros.Malloc.Free.{released, free_lem}
use beeros.Malloc.Aligned.{AlignedAnswer, aligned_alloc_lem}
use beeros.Malloc.Realloc.{Inside, Moved, realloc_lem}
use beeros.Malloc.Calloc.{Cleared, calloc_lem}
use beeros.Malloc.Reuse.{aligned_alloc_wraps}

abbrev fresh : Heap
fresh = record {
  mem = λ _. 0;
  free_lists = λ _. 0;
  brk = 0;
  heap_start = 0x1000;
  heap_end = 0x10000;
  enomem = false;
}

abbrev nothing : View
nothing = record { blocks = []; free = λ _. [] }

-- One block, of the class of 112 bytes, in a client's hands.
abbrev one : Heap
one = record fresh { brk = 0x1000 + 16 + 112; mem = store64 (λ _. 0) 0x1000 6 }

abbrev one_block : View
one_block = record { blocks = (0x1000, 6) ∷ []; free = λ _. [] }

fresh-IsHeap : IsHeap fresh nothing
fresh-IsHeap = record {
  start = (omega arith, refl);
  room = (omega arith, omega arith);
  carved = refl;
  headers = λ b c i. absurd i;
  chains = λ c lt. refl;
  listed = λ b c lt i. absurd i;
  distinct = λ c lt. tt;
}

one_header : (b c : ℕ) → IsBlock b c ((0x1000, 6) ∷ []) → load64 (store64 (λ _. 0) 0x1000 6) b ≡ c
one_header b c (inl (p, q)) = rw (p, q) (load64-store64 (λ _. 0) 0x1000 6 (omega arith))
one_header b c (inr i) = elim i [ ]

class_six : class_size 6 ≡ 112
unfolding class_size
class_six = refl

one-IsHeap : IsHeap one one_block
one-IsHeap = record {
  start = (omega arith, refl);
  room = (omega arith, omega arith);
  carved = (omega (arith, class_six), omega arith, refl);
  headers = one_header;
  chains = λ c lt. refl;
  listed = λ b c lt i. absurd i;
  distinct = λ c lt. tt;
}

one-Live : Live one_block 0x1000 6
one-Live = (inl (refl, refl), λ i. i)

class_of_runs :
    (class_of 0 ≡ 0) × (class_of 2048 ≡ 127) × (class_of 2049 ≡ 128) × (class_of 4097 ≡ 129)
unfolding class_of large_class
class_of_runs = (refl, refl, refl, refl)

malloc_runs : (malloc 100 fresh).0 ≡ 0x1010
unfolding malloc carve class_of class_size
malloc_runs = refl

one-header_of : header_of 0x1010 one ≡ 0x1000
unfolding header_of load64 store64
one-header_of = refl

malloc_lem_example :
    Refused 100 nothing fresh (malloc 100 fresh)
    ⊎ ((v' : View) × (b : ℕ) × (c : ℕ) × Allocated 100 nothing v' fresh (malloc 100 fresh) b c)
malloc_lem_example = malloc_lem fresh-IsHeap 100

free_lem_example :
    IsHeap (free 0x1010 one) (released one_block 0x1000 6)
    × (Live (released one_block 0x1000 6) 0x1000 6 → ⊥)
    × ((d k : ℕ) → d ≢ 0x1000 → Live one_block d k → Live (released one_block 0x1000 6) d k)
free_lem_example = free_lem one-IsHeap 0x1000 6 one-Live 0x1010 (omega arith) one-header_of

aligned_alloc_lem_example : AlignedAnswer 64 100 nothing fresh (aligned_alloc 64 100 fresh)
aligned_alloc_lem_example = aligned_alloc_lem fresh-IsHeap 1 100 (omega arith)

granted : (malloc 63 fresh).0 ≢ 0
unfolding malloc carve class_of class_size
granted = omega arith

aligned_alloc_wraps_example :
    ((aligned_alloc 64 (2 ^ 64 - 1) fresh).0 ≢ 0)
    × ((v' : View) × (b : ℕ) × (c : ℕ) × Allocated 63 nothing v' fresh (malloc 63 fresh) b c
        × (b + header_size ≤ (aligned_alloc 64 (2 ^ 64 - 1) fresh).0)
        × (class_size c < 2 ^ 64 - 1)
        × (b + header_size + class_size c < (aligned_alloc 64 (2 ^ 64 - 1) fresh).0 + (2 ^ 64 - 1)))
aligned_alloc_wraps_example =
    aligned_alloc_wraps 64 (2 ^ 64 - 1) fresh-IsHeap (omega arith) (omega arith) (omega arith)
      (omega arith) granted

one-Inside : Inside 0x1000 6 0x1010
one-Inside = (omega arith, omega (arith, class_six))

realloc_lem_example :
    let have = 0x1000 + header_size + class_size 6 - 0x1010 in
    ((200 ≤ have) × (realloc 0x1010 200 one ≡ (0x1010, one)))
    ⊎ ((have < 200)
        × (Refused 200 one_block one (realloc 0x1010 200 one)
            ⊎ Moved 200 0x1010 have 0x1000 6 one_block one (realloc 0x1010 200 one)))
realloc_lem_example =
    realloc_lem one-IsHeap 0x1000 6 0x1010 one-Live (omega arith) one-header_of one-Inside 200

calloc_lem_example :
    ((size_mod ≤ 10 * 10)
      × ((calloc 10 10 one).0 ≡ 0)
      × ((calloc 10 10 one).1 ≡ record one { enomem = true }))
    ⊎ ((10 * 10 < size_mod)
        × (Refused (10 * 10) one_block one (calloc 10 10 one)
            ⊎ ((v' : View) × (b : ℕ) × (c : ℕ) × Cleared
                  (10 * 10)
                  one_block
                  v'
                  one
                  (calloc 10 10 one)
                  b
                  c)))
calloc_lem_example = calloc_lem one-IsHeap 10 10
