-- ===== src/Malloc/Layout.antt =====
-- What a heap of kernel/malloc.c holds: the blocks carved so far, and those on the free lists.
use beeros.Prelude.{ℕ, ◌+◌, ◌%◌, ◌^◌, ◌≤◌, ◌<◌, ◌≡◌, refl, ◌≢◌, ◌⊎◌, inl, inr, List, [], ◌∷◌, arith}
use beeros.Memory.{Memory, load64}
use beeros.Malloc.{Heap, top, header_size, class_size, classes}
use beeros.Malloc.Classes.{class_size_bounds}

-- The blocks (header address, class), newest first: each begins where the one before it ended.
abbrev pub Carved : ℕ → List (ℕ × ℕ) → ℕ → Type 0
Carved start [] end = end ≡ start
Carved start ((b, c) ∷ bs) end =
    (end ≡ b + header_size + class_size c) × (c < classes) × Carved start bs b

abbrev pub IsBlock : ℕ → ℕ → List (ℕ × ℕ) → Type 0
IsBlock b c [] = ⊥
IsBlock b c ((b', c') ∷ bs) = ((b ≡ b') × (c ≡ c')) ⊎ IsBlock b c bs

abbrev pub In : ℕ → List ℕ → Type 0
In b [] = ⊥
In b (x ∷ xs) = (b ≡ x) ⊎ In b xs

abbrev pub Distinct : List ℕ → Type 0
Distinct [] = Unit
Distinct (x ∷ xs) = (In x xs → ⊥) × Distinct xs

-- From `p` the links in the blocks' first payload word lead through `bs` to NULL.
abbrev pub Chain : Memory → ℕ → List ℕ → Type 0
Chain m p [] = p ≡ 0
Chain m p (b ∷ bs) = (p ≡ b) × (b ≢ 0) × Chain m (load64 m (b + header_size)) bs

pub record View : Type 0 where
  pub blocks : List (ℕ × ℕ)
  pub free : ℕ → List ℕ

pub record IsHeap (h : Heap) (v : View) : Type 0 where
  pub start : (0 < h.heap_start) × (h.heap_start % 16 ≡ 0)
  pub room : (top h ≤ h.heap_end) × (h.heap_end < 2 ^ 63)
  pub carved : Carved h.heap_start v.blocks (top h)
  pub headers : (b c : ℕ) → IsBlock b c v.blocks → load64 h.mem b ≡ c
  pub chains : (c : ℕ) → c < classes → Chain h.mem (h.free_lists c) (v.free c)
  pub listed : (b c : ℕ) → c < classes → In b (v.free c) → IsBlock b c v.blocks
  pub distinct : (c : ℕ) → c < classes → Distinct (v.free c)

-- A block that a client holds.
abbrev pub Live : View → ℕ → ℕ → Type 0
Live v b c = IsBlock b c v.blocks × (In b (v.free c) → ⊥)

pub Carved-le : (start : ℕ) (bs : List (ℕ × ℕ)) (end : ℕ) → Carved start bs end → start ≤ end
Carved-le start [] end e = omega arith
Carved-le start ((b, c) ∷ bs) end (e, lt, rest) = omega (arith, Carved-le start bs b rest)

Carved-aligned :
    (start : ℕ) (bs : List (ℕ × ℕ)) (end : ℕ) → Carved start bs end → start % 16 ≡ 0 → end % 16 ≡ 0
Carved-aligned start [] end e al = omega arith
Carved-aligned start ((b, c) ∷ bs) end (e, lt, rest) al =
    omega (arith, Carved-aligned start bs b rest al, class_size_bounds c lt)

-- A block lies between the start of the heap and the break, and its header is aligned.
pub IsBlock-bounds :
    (start : ℕ) (bs : List (ℕ × ℕ)) (end b c : ℕ)
    → Carved start bs end
    → start % 16 ≡ 0
    → IsBlock b c bs
    → (start ≤ b)
      × (b + header_size + class_size c ≤ end)
      × (c < classes)
      × (b % 16 ≡ 0)
      × (end % 16 ≡ 0)
IsBlock-bounds start [] end b c carved al i = elim i [ ]
IsBlock-bounds start ((b', c') ∷ bs) end b c (e, lt, rest) al (inl (p, q)) =
    let (m, pos, _) = class_size_bounds c' lt in
    let al' = Carved-aligned start bs b' rest al in
    rw (p, q) (Carved-le start bs b' rest, omega arith, lt, al', omega arith)
IsBlock-bounds start ((b', c') ∷ bs) end b c (e, lt, rest) al (inr i) =
    let (m, pos, _) = class_size_bounds c' lt in
    let (lo, hi, lt', al', al'') = IsBlock-bounds start bs b' b c rest al i in
    (lo, omega arith, lt', al', omega arith)

-- Two blocks are one, or do not overlap.
pub IsBlock-apart :
    (start : ℕ) (bs : List (ℕ × ℕ)) (end b c b' c' : ℕ)
    → Carved start bs end
    → start % 16 ≡ 0
    → IsBlock b c bs
    → IsBlock b' c' bs
    → ((b ≡ b') × (c ≡ c'))
      ⊎ ((b + header_size + class_size c ≤ b') ⊎ (b' + header_size + class_size c' ≤ b))
IsBlock-apart start [] end b c b' c' carved al i j = elim i [ ]
IsBlock-apart start ((d, k) ∷ bs) end b c b' c' (e, lt, rest) al (inl p) (inl q) = inl (omega arith)
IsBlock-apart start ((d, k) ∷ bs) end b c b' c' (e, lt, rest) al (inl p) (inr j) =
    inr (inr (omega (arith, IsBlock-bounds start bs d b' c' rest al j)))
IsBlock-apart start ((d, k) ∷ bs) end b c b' c' (e, lt, rest) al (inr i) (inl q) =
    inr (inl (omega (arith, IsBlock-bounds start bs d b c rest al i)))
IsBlock-apart start ((d, k) ∷ bs) end b c b' c' (e, lt, rest) al (inr i) (inr j) =
    IsBlock-apart start bs d b c b' c' rest al i j

-- A chain is read through the links of its blocks alone.
pub Chain-frame :
    (m m' : Memory) (p : ℕ) (bs : List ℕ)
    → ((b : ℕ) → In b bs → load64 m' (b + header_size) ≡ load64 m (b + header_size))
    → Chain m p bs
    → Chain m' p bs
Chain-frame m m' p [] same e = e
Chain-frame m m' p (b ∷ bs) same (e, ne, rest) = (
  e,
  ne,
  rw (same b (inl refl))
      (Chain-frame m m' (load64 m (b + header_size)) bs (λ d i. same d (inr i)) rest),
)

module _ {h : Heap} {v : View} (ok : IsHeap h v) where
  -- Writing a block's `offset` word changes no header and no link.
  pub offset_apart :
      (b c d k : ℕ)
      → IsBlock b c v.blocks
      → IsBlock d k v.blocks
      → ((b + 8 ≤ d + 8) ⊎ (d + 8 + 8 ≤ b))
        × ((b + header_size + 8 ≤ d + 8) ⊎ (d + 8 + 8 ≤ b + header_size))
  offset_apart b c d k i j =
      let (_, _, lt, _, _) =
        IsBlock-bounds h.heap_start v.blocks (top h) b c ok.carved ok.start.1 i in
      let (_, _, lt', _, _) =
        IsBlock-bounds h.heap_start v.blocks (top h) d k ok.carved ok.start.1 j in
      let (_, pos, _) = class_size_bounds c lt in
      let (_, pos', _) = class_size_bounds k lt' in
      elim (IsBlock-apart h.heap_start v.blocks (top h) b c d k ok.carved ok.start.1 i j) [
        | inl same ↦ omega arith
        | inr (inl below) ↦ omega arith
        | inr (inr above) ↦ omega arith
      ]

  -- Writing a block's link changes no header, and no other block's link.
  pub link_apart :
      (b c d k : ℕ)
      → IsBlock b c v.blocks
      → IsBlock d k v.blocks
      → ((b + 8 ≤ d + header_size) ⊎ (d + header_size + 8 ≤ b))
        × ((b ≡ d)
            ⊎ ((b + header_size + 8 ≤ d + header_size) ⊎ (d + header_size + 8 ≤ b + header_size)))
  link_apart b c d k i j =
      let (_, _, lt, _, _) =
        IsBlock-bounds h.heap_start v.blocks (top h) b c ok.carved ok.start.1 i in
      let (_, _, lt', _, _) =
        IsBlock-bounds h.heap_start v.blocks (top h) d k ok.carved ok.start.1 j in
      let (_, pos, _) = class_size_bounds c lt in
      let (_, pos', _) = class_size_bounds k lt' in
      elim (IsBlock-apart h.heap_start v.blocks (top h) b c d k ok.carved ok.start.1 i j) [
        | inl same ↦ omega arith
        | inr (inl below) ↦ omega arith
        | inr (inr above) ↦ omega arith
      ]

  -- The first block of a free list is what `free_lists` points to; a NULL list is empty.
  pub first_free :
      (c : ℕ)
      → c < classes
      → ((h.free_lists c ≡ 0) × (v.free c ≡ []))
        ⊎ ((b : ℕ) × (l : List ℕ) × (h.free_lists c ≡ b) × (b ≢ 0) × (v.free c ≡ b ∷ l))
  first_free c lt = go (v.free c) refl
    where
      go :
          (l : List ℕ)
          → v.free c ≡ l
          → ((h.free_lists c ≡ 0) × (v.free c ≡ []))
            ⊎ ((b : ℕ) × (l : List ℕ) × (h.free_lists c ≡ b) × (b ≢ 0) × (v.free c ≡ b ∷ l))
      go [] e = let ch : Chain h.mem (h.free_lists c) [] = rw e at (ok.chains c lt) in inl (ch, e)
      go (b ∷ l) e =
          let ch : Chain h.mem (h.free_lists c) (b ∷ l) = rw e at (ok.chains c lt) in
          inr (b, l, ch.0, ch.1, e)
