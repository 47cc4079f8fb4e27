-- ===== src/Irq/Plic.antt =====
-- platform/virt-riscv/hal/plic.c and .h, and the native irq-enable! of kernel/mem_natives.c.
use beeros.Prelude.{
  ℕ, ◌+◌, ◌*◌, ◌/◌, ◌%◌, ◌^◌, ◌≤◌, ◌<◌, ◌≡◌, ◌⊎◌, refl, ap, ◌∙◌, inl, inr, Bool, false, ◌||◌, List,
  ◌∷◌, arith, ltb, ◌==◌, if◌then◌else◌, Bool-cases,
}
use beeros.Prelude.Slice.{update}
use beeros.Prelude.Bits.{bit, set_bit, bit-set_bit}
use beeros.Prelude.Int.{ℤ, pos, negsuc, to_u64, int_of}
use beeros.Beerlang.{Value, nil, fixnum}

abbrev pub plic_base : ℕ
plic_base = 0x0c000000

abbrev pub plic_priority : ℕ → ℕ
plic_priority n = plic_base + n * 4

abbrev pub plic_enable_reg : ℕ → ℕ
plic_enable_reg n = plic_base + 0x2000 + n / 32 * 4

abbrev pub plic_threshold : ℕ
plic_threshold = plic_base + 0x200000

-- The controller's registers by address, and the processor's mask of interrupt kinds.
pub record Plic : Type 0 where
  pub regs : ℕ → ℕ
  pub mie : ℕ

-- The stores, once the number is known to be in range.
pub enabled : ℕ → ℤ → Plic → Plic
enabled n priority p =
    let prioritised = update p.regs (plic_priority n) (to_u64 priority % 2 ^ 32) in
    let unmasked =
      update prioritised (plic_enable_reg n) (set_bit (prioritised (plic_enable_reg n)) (n % 32)) in
    record { regs = update unmasked plic_threshold 0; mie = set_bit p.mie 11 }

pub plic_enable : ℤ → ℤ → Plic → Plic
plic_enable (pos n) priority p = if n == 0 || ltb 1023 n then p else enabled n priority p
plic_enable (negsuc n) priority p = p

pub native_mem_irq_enable : List Value → Plic → Value × Plic
native_mem_irq_enable (fixnum n ∷ fixnum priority ∷ _) p =
    (nil, plic_enable (int_of (to_u64 n)) (int_of (to_u64 priority)) p)
native_mem_irq_enable _ p = (nil, p)

-- Whether the controller lets source m through.
abbrev pub is_enabled : ℕ → Plic → Bool
is_enabled m p = bit (p.regs (plic_enable_reg m)) (m % 32)

pub record Enabled (n : ℕ) (priority : ℤ) (p p' : Plic) : Type 0 where
  pub sources : (m : ℕ) → m ≤ 1023 → is_enabled m p' ≡ ((m == n) || is_enabled m p)
  pub priorities :
      (m : ℕ)
      → m ≤ 1023
      → p'.regs (plic_priority m)
        ≡ (if m == n then to_u64 priority % 2 ^ 32 else p.regs (plic_priority m))
  pub threshold : p'.regs plic_threshold ≡ 0
  pub kinds : (k : ℕ) → bit p'.mie k ≡ ((k == 11) || bit p.mie k)

update-other : (f : ℕ → ℕ) (a v b : ℕ) → (a == b) ≡ false → update f a v b ≡ f b
update-other f a v b differ = rw differ refl

-- A register of enable bits is neither a priority nor the threshold.
enabled-enable_reg :
    (n : ℕ) (priority : ℤ) (p : Plic) (m : ℕ)
    → n ≤ 1023
    → m ≤ 1023
    → (enabled n priority p).regs (plic_enable_reg m) ≡ (
        if plic_enable_reg n == plic_enable_reg m
        then set_bit (p.regs (plic_enable_reg m)) (n % 32)
        else p.regs (plic_enable_reg m))
unfolding enabled
enabled-enable_reg n priority p m low low' =
    let a : (plic_threshold == plic_enable_reg m) ≡ false = ground arith in
    let b : (plic_priority n == plic_enable_reg m) ≡ false = ground arith in
    let c : (plic_priority n == plic_enable_reg n) ≡ false = ground arith in
    elim (Bool-cases (plic_enable_reg n == plic_enable_reg m)) [
      | inl same ↦
          let e : plic_enable_reg n ≡ plic_enable_reg m = ground arith in
          rw a (rw same (rw c (ap (λ q. set_bit (p.regs q) (n % 32)) e)))
      | inr differ ↦ rw a (rw differ (rw b refl))
    ]

pub enabled-Enabled :
    (n : ℕ) (priority : ℤ) (p : Plic) → n ≤ 1023 → Enabled n priority p (enabled n priority p)
unfolding enabled
enabled-Enabled n priority p low = record {
  sources = λ m low'.
      ap (λ w. bit w (m % 32)) (enabled-enable_reg n priority p m low low')
      ∙ elim (Bool-cases (plic_enable_reg n == plic_enable_reg m)) [
        | inl same ↦
            let e : (m % 32 == n % 32) ≡ (m == n) = ground arith in
            rw same (
              bit-set_bit (p.regs (plic_enable_reg m)) (n % 32) (m % 32)
              ∙ ap (λ b. b || is_enabled m p) e)
        | inr differ ↦ let e : (m == n) ≡ false = ground arith in rw (differ, e) refl
      ];
  priorities = λ m low'.
      let a : (plic_threshold == plic_priority m) ≡ false = ground arith in
      let b : (plic_enable_reg n == plic_priority m) ≡ false = ground arith in
      let c : (plic_priority n == plic_priority m) ≡ (m == n) = ground arith in
      rw a (rw b (rw c refl));
  threshold = refl;
  kinds = λ k. bit-set_bit p.mie 11 k;
}

pub plic_enable_source :
    (n : ℕ) (priority : ℤ) (p : Plic)
    → 0 < n
    → n ≤ 1023
    → Enabled n priority p (plic_enable (pos n) priority p)
unfolding plic_enable
plic_enable_source n priority p positive low =
    let valid : (n == 0 || ltb 1023 n) ≡ false = ground arith in
    rw valid (enabled-Enabled n priority p low)

-- The numbers that are no source.
pub data OutOfRange : ℤ → Type 0 where
  negative : {n : ℕ} → OutOfRange (negsuc n)
  no_source : {n : ℕ} → (n ≡ 0) ⊎ (1023 < n) → OutOfRange (pos n)

-- plic_enable of a source from 1 to 1023 lets just that source through besides those that were let
-- through, gives it its priority and leaves the other priorities, puts the threshold to 0 and
-- unmasks external interrupts and no other kind; of any other number it changes nothing.
pub plic_enable-Enabled :
    (irq priority : ℤ) (p : Plic)
    → ((n : ℕ) × ((irq ≡ pos n)
          × ((0 < n) × (n ≤ 1023) × Enabled n priority p (plic_enable irq priority p))))
      ⊎ (OutOfRange irq × (plic_enable irq priority p ≡ p))
unfolding plic_enable
plic_enable-Enabled (negsuc n) priority p = inr (negative, refl)
plic_enable-Enabled (pos n) priority p = elim (Bool-cases (n == 0 || ltb 1023 n)) [
  | inl refused ↦ inr (no_source (ground arith), rw refused refl)
  | inr valid ↦
      let low : n ≤ 1023 = ground arith in
      let positive : 0 < n = ground arith in
      inl (n, (refl, (positive, low, plic_enable_source n priority p positive low)))
]
