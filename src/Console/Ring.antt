-- ===== src/Console/Ring.antt =====
-- The ring of kernel/console.c against a queue of at most 256 bytes with a mark before which bytes
-- are dropped: for every sequence of received bytes and reads the reader sees the same.
use beeros.Prelude.{
  ℕ, suc, ◌+◌, ◌%◌, ◌≤◌, ◌<◌, ◌≡◌, sym, ap, ◌∙◌, inl, inr, Bool, true, false, Option, none, some,
  List, [], ◌∷◌, ◌++◌, arith, leb, ◌==◌, if◌then◌else◌, Bool-cases, length, drop,
}
use mathlib.Core.Path.{ap₂}
use beeros.Prelude.Slice.{update, slice, slice-ext, slice-snoc, length-slice, drop-slice}
use beeros.Console.{
  u32_mod, ring_size, sub32, Console, is_interrupt_key, rx, after_drop, getc_nonblock,
}

-- The specification: the bytes that were received and not read, and how many of these the next read
-- drops.
pub record Pending : Type 0 where
  pub queue : List ℕ
  pub stale : ℕ

unfoldable pub receive : Bool → ℕ → Pending → Pending
receive key b p =
    if key
    then record p { stale = length p.queue }
    else if leb ring_size (length p.queue)
    then p
    else record p { queue = p.queue ++ (b ∷ []) }

unfoldable pub read_queue : List ℕ → Option ℕ × Pending
read_queue [] = (none, record { queue = []; stale = 0 })
read_queue (b ∷ q) = (some b, record { queue = q; stale = 0 })

unfoldable pub read : Pending → Option ℕ × Pending
unfolding read_queue
read p = read_queue (drop p.stale p.queue)

pub record IsValid (s : Console) : Type 0 where
  pub interrupt_driven : s.irq_mode ≡ true
  pub words : (s.ring_head < u32_mod) × (s.ring_tail < u32_mod) × (s.drop_before < u32_mod)
  pub count : sub32 s.ring_head s.ring_tail ≤ ring_size
  pub mark : s.drop ≡ true → sub32 s.drop_before s.ring_tail ≤ sub32 s.ring_head s.ring_tail

abbrev at : (ℕ → ℕ) → ℕ → ℕ
at ring i = ring (i % ring_size)

-- The `n` bytes from index `t` on, going round at the ring's end.
abbrev pub window : (ℕ → ℕ) → ℕ → ℕ → List ℕ
window ring t n = slice (at ring) t n

abbrev pub contents : Console → List ℕ
contents s = window s.ring s.ring_tail (sub32 s.ring_head s.ring_tail)

abbrev pub view : Console → Pending
view s = record {
  queue = contents s;
  stale = if s.drop then sub32 s.drop_before s.ring_tail else 0;
}

-- An index may wrap at 2^32: 256 divides it.
window-wrap : (ring : ℕ → ℕ) (t n : ℕ) → window ring (t % u32_mod) n ≡ window ring t n
window-wrap ring t n =
    slice-ext (at ring) (at ring) (t % u32_mod) t n (λ k lt. ap ring (omega arith))

window-snoc :
    (ring : ℕ → ℕ) (h t b n : ℕ)
    → n < ring_size
    → h % ring_size ≡ (t + n) % ring_size
    → window (update ring (h % ring_size) b) t (suc n) ≡ window ring t n ++ (b ∷ [])
window-snoc ring h t b n lt e =
    let old : (k : ℕ) → k < n → at (update ring (h % ring_size) b) (t + k) ≡ at ring (t + k) =
      λ k hk.
        let differ : (h % ring_size == (t + k) % ring_size) ≡ false = ground arith in rw differ in
    let new : at (update ring (h % ring_size) b) (t + n) ≡ b =
      let same : (h % ring_size == (t + n) % ring_size) ≡ true = ground arith in rw same in
    slice-snoc (at (update ring (h % ring_size) b)) t n
    ∙ ap₂ (λ l x. l ++ (x ∷ [])) (slice-ext _ (at ring) t t n old) new

module _ {s : Console} (ok : IsValid s) (b : ℕ) (is_break : Bool) where
  pub rx-IsValid : IsValid (rx b is_break s)
  unfolding rx
  rx-IsValid = ground arith

  length-contents : length (contents s) ≡ sub32 s.ring_head s.ring_tail
  length-contents = length-slice (at s.ring) s.ring_tail (sub32 s.ring_head s.ring_tail)

  pushed :
      sub32 s.ring_head s.ring_tail < ring_size
      → window
          (update s.ring (s.ring_head % ring_size) b)
          s.ring_tail
          (sub32 ((s.ring_head + 1) % u32_mod) s.ring_tail)
        ≡ contents s ++ (b ∷ [])
  pushed lt =
      let e : sub32 ((s.ring_head + 1) % u32_mod) s.ring_tail
          ≡ suc (sub32 s.ring_head s.ring_tail) =
        omega (arith, ok.words, ok.count) in
      rw e (
        window-snoc s.ring s.ring_head s.ring_tail b (sub32 s.ring_head s.ring_tail) lt
          (omega (arith, ok.words)))

  pub rx_refines : view (rx b is_break s) ≡ receive (is_interrupt_key b is_break s) b (view s)
  unfolding rx receive
  rx_refines = elim (Bool-cases (is_interrupt_key b is_break s)) [
    | inl key ↦ rw (key, length-contents)
    | inr plain ↦ elim (Bool-cases (leb ring_size (sub32 s.ring_head s.ring_tail))) [
      | inl full ↦ rw (plain, length-contents, full)
      | inr room ↦ rw (plain, length-contents, room, pushed (ground arith))
    ]
  ]

module _ {s : Console} (ok : IsValid s) (polled : Option ℕ) where
  pub getc-IsValid : IsValid (getc_nonblock polled s).1
  unfolding getc_nonblock
  getc-IsValid = ground arith

  after_drop_marked :
      s.drop ≡ true
      → let d = sub32 s.drop_before s.ring_tail in
        (after_drop s ≡ (s.ring_tail + d) % u32_mod)
        × (sub32 s.ring_head s.ring_tail ≡ d + sub32 s.ring_head (after_drop s))
  after_drop_marked e = ground (arith, ok.mark e)

  -- What is left after the drop.
  dropped :
      drop (view s).stale (contents s)
      ≡ window s.ring (after_drop s) (sub32 s.ring_head (after_drop s))
  dropped = elim (Bool-cases s.drop) [
    | inr none_marked ↦ rw none_marked
    | inl marked ↦
        let d = sub32 s.drop_before s.ring_tail in
        let (e, n) = after_drop_marked marked in
        ap (λ (x : Bool). drop (if x then d else 0) (contents s)) marked
        ∙ ap (λ k. drop d (window s.ring s.ring_tail k)) n
        ∙ drop-slice (at s.ring) s.ring_tail d (sub32 s.ring_head (after_drop s))
        ∙ sym (window-wrap s.ring (s.ring_tail + d) (sub32 s.ring_head (after_drop s)))
        ∙ ap (λ k. window s.ring k (sub32 s.ring_head (after_drop s))) (sym e)
  ]

  after_drop_word : after_drop s < u32_mod
  after_drop_word = ground (arith, ok.words)

  pub getc_refines : let (c, s') = getc_nonblock polled s in (c, view s') ≡ read (view s)
  unfolding getc_nonblock read
  getc_refines =
      rw (dropped, ok.interrupt_driven)
        (elim (Bool-cases (after_drop s == s.ring_head)) [
          | inl empty ↦
              let none_left : sub32 s.ring_head (after_drop s) ≡ 0 =
                ground (arith, after_drop_word) in
              rw (empty, none_left)
          | inr more ↦
              let one_left : sub32 s.ring_head (after_drop s)
                  ≡ suc (sub32 s.ring_head ((after_drop s + 1) % u32_mod)) =
                ground (arith, after_drop_word, ok.words) in
              rw (more, one_left)
                (ap
                  (λ q. (some (s.ring (after_drop s % ring_size)), record { queue = q; stale = 0 }))
                  (window-wrap s.ring (after_drop s + 1) _))
        ])
