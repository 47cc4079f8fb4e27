-- ===== src/Irq/Mmio.antt =====
-- kernel/mem_natives.c, the natives of beer.mem that read and write memory, and addr-of.
use beeros.Prelude.{
  ℕ, zero, suc, ◌+◌, ◌-◌, ◌*◌, ◌/◌, ◌%◌, ◌^◌, ◌≤◌, ◌<◌, ◌≡◌, refl, ap, ◌∙◌, ◌⊎◌, inl, inr, true,
  false, Option, none, some, List, [], ◌∷◌, arith, ltb, ◌==◌, if◌then◌else◌,
}
use native.Mathlib.Nat.{pow-suc}
use beeros.Prelude.Slice.{update}
use beeros.Prelude.Int.{ℤ, pos, negsuc, to_u64}
use beeros.Memory.{Memory}
use beeros.Beerlang.{Value, nil, fixnum, bytebuffer}

-- A little-endian access of `n` bytes.
abbrev pub load : ℕ → Memory → ℕ → ℕ
load zero m p = 0
load (suc n) m p = m p + 256 * load n m (p + 1)

abbrev pub store : ℕ → Memory → ℕ → ℕ → Memory
store zero m p v = m
store (suc n) m p v = store n (update m p (v % 256)) (p + 1) (v / 256)

-- `(int64_t)` of a word.
abbrev pub to_s64 : ℕ → ℤ
to_s64 w = if ltb w (2 ^ 63) then pos w else negsuc (2 ^ 64 - 1 - w)

-- beerlang's `untag_fixnum` and `make_fixnum`, which do not look at what they are given.
module _ (untag_fixnum : Value → ℤ) (make_fixnum : ℤ → Value) where
  abbrev pub addr_arg : Value → ℕ
  addr_arg v = to_u64 (untag_fixnum v)

  abbrev pub read_at : ℕ → List Value → Memory → Value
  read_at n [] m = nil
  read_at n (a ∷ _) m = make_fixnum (to_s64 (load n m (addr_arg a)))

  unfoldable pub native_mem_read8 : List Value → Memory → Value
  native_mem_read8 argv m = read_at 1 argv m

  unfoldable pub native_mem_read16 : List Value → Memory → Value
  native_mem_read16 argv m = read_at 2 argv m

  unfoldable pub native_mem_read32 : List Value → Memory → Value
  native_mem_read32 argv m = read_at 4 argv m

  unfoldable pub native_mem_read64 : List Value → Memory → Value
  native_mem_read64 argv m = read_at 8 argv m

  abbrev pub write_at : ℕ → List Value → Memory → Value × Memory
  write_at n (a ∷ v ∷ _) m = (nil, store n m (addr_arg a) (addr_arg v % 2 ^ (8 * n)))
  write_at n _ m = (nil, m)

  unfoldable pub native_mem_write8 : List Value → Memory → Value × Memory
  native_mem_write8 argv m = write_at 1 argv m

  unfoldable pub native_mem_write16 : List Value → Memory → Value × Memory
  native_mem_write16 argv m = write_at 2 argv m

  unfoldable pub native_mem_write32 : List Value → Memory → Value × Memory
  native_mem_write32 argv m = write_at 4 argv m

  unfoldable pub native_mem_write64 : List Value → Memory → Value × Memory
  native_mem_write64 argv m = write_at 8 argv m

-- `cstr` is beerlang's: the address of a string's characters, none for other values.
pub native_mem_addr_of : (Value → Option ℕ) → List Value → Value
native_mem_addr_of cstr [] = fixnum (pos 0)
native_mem_addr_of cstr (bytebuffer addr cap ∷ _) = fixnum (pos addr)
native_mem_addr_of cstr (v ∷ _) = elim (cstr v) [ none ↦ fixnum (pos 0) | some p ↦ fixnum (pos p) ]

store-before : (n : ℕ) (m : Memory) (p v a : ℕ) → a < p → store n m p v a ≡ m a
store-before zero m p v a lt = refl
store-before (suc n) m p v a lt =
    let other : (p == a) ≡ false = ground arith in
    store-before n (update m p (v % 256)) (p + 1) (v / 256) a (omega arith) ∙ rw other refl

store-behind : (n : ℕ) (m : Memory) (p v a : ℕ) → p + n ≤ a → store n m p v a ≡ m a
store-behind zero m p v a le = refl
store-behind (suc n) m p v a le =
    let other : (p == a) ≡ false = ground arith in
    store-behind n (update m p (v % 256)) (p + 1) (v / 256) a (omega arith) ∙ rw other refl

load-ext :
    (n : ℕ) (m m' : Memory) (p : ℕ)
    → ((a : ℕ) → p ≤ a → a < p + n → m a ≡ m' a)
    → load n m p ≡ load n m' p
load-ext zero m m' p same = refl
load-ext (suc n) m m' p same = omega (
  arith,
  same p (omega arith) (omega arith),
  load-ext n m m' (p + 1) (λ a low high. same a (omega arith) (omega arith)),
)

pub load-store : (n : ℕ) (m : Memory) (p v : ℕ) → v < 256 ^ n → load n (store n m p v) p ≡ v
load-store zero m p v lt = omega arith
load-store (suc n) m p v lt =
    let first : store (suc n) m p v p ≡ v % 256 =
      store-before n (update m p (v % 256)) (p + 1) (v / 256) p (omega arith)
      ∙ (let same : (p == p) ≡ true = ground arith in rw same refl) in
    let rest : load n (store (suc n) m p v) (p + 1) ≡ v / 256 =
      load-store n (update m p (v % 256)) (p + 1) (v / 256) (omega (arith, pow-suc 256 n)) in
    omega (arith, first, rest)

store-outside : (n : ℕ) (m : Memory) (p v b : ℕ) → (b < p) ⊎ (p + n ≤ b) → store n m p v b ≡ m b
store-outside n m p v b (inl before) = store-before n m p v b before
store-outside n m p v b (inr behind) = store-behind n m p v b behind

-- What a write of n bytes at p leaves: the low bits of `v` for a reader, and all other bytes.
pub record Written (make_fixnum : ℤ → Value) (n p v : ℕ) (m m' : Memory) (got : Value)
    : Type 0 where
  pub reads : got ≡ make_fixnum (to_s64 (v % 2 ^ (8 * n)))
  pub others : (b : ℕ) → (b < p) ⊎ (p + n ≤ b) → m' b ≡ m b

module _ (untag_fixnum : Value → ℤ) (make_fixnum : ℤ → Value) (a v : Value) (m : Memory) where
  write_at-Written :
      (n : ℕ)
      → 2 ^ (8 * n) ≡ 256 ^ n
      → 0 < 256 ^ n
      → let m' = (write_at untag_fixnum make_fixnum n (a ∷ v ∷ []) m).1 in
        Written make_fixnum n
          (to_u64 (untag_fixnum a))
          (to_u64 (untag_fixnum v))
          m
          m'
          (read_at untag_fixnum make_fixnum n (a ∷ []) m')
  write_at-Written n bytes some_bytes =
      let p = to_u64 (untag_fixnum a) in
      let w = to_u64 (untag_fixnum v) % 2 ^ (8 * n) in
      record {
        reads =
            ap (λ x. make_fixnum (to_s64 x))
              (load-store n m p w (omega (arith, bytes, some_bytes)));
        others = store-outside n m p w;
      }

  -- At each of the four widths a read after a write at the same address answers the low bits of
  -- what was written, as the signed number that 64 bits are, and the write changes no byte outside.
  pub native_mem_read-write :
      let p = to_u64 (untag_fixnum a) in
      let w = to_u64 (untag_fixnum v) in
      let m8 = (native_mem_write8 untag_fixnum make_fixnum (a ∷ v ∷ []) m).1 in
      let m16 = (native_mem_write16 untag_fixnum make_fixnum (a ∷ v ∷ []) m).1 in
      let m32 = (native_mem_write32 untag_fixnum make_fixnum (a ∷ v ∷ []) m).1 in
      let m64 = (native_mem_write64 untag_fixnum make_fixnum (a ∷ v ∷ []) m).1 in
      Written make_fixnum 1 p w m m8 (native_mem_read8 untag_fixnum make_fixnum (a ∷ []) m8)
      × Written make_fixnum 2 p w m m16 (native_mem_read16 untag_fixnum make_fixnum (a ∷ []) m16)
      × Written make_fixnum 4 p w m m32 (native_mem_read32 untag_fixnum make_fixnum (a ∷ []) m32)
      × Written make_fixnum 8 p w m m64 (native_mem_read64 untag_fixnum make_fixnum (a ∷ []) m64)
  unfolding native_mem_read8 native_mem_read16 native_mem_read32 native_mem_read64 native_mem_write8
      native_mem_write16 native_mem_write32 native_mem_write64
  native_mem_read-write = (
    write_at-Written 1 refl (omega arith),
    write_at-Written 2 refl (omega arith),
    write_at-Written 4 refl (omega arith),
    write_at-Written 8 refl (omega arith),
  )
