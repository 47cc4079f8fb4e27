-- ===== src/Console/Race/Reads.antt =====
-- kernel/console.c: what console_getc_nonblock answers while console_rx interrupts it.
use beeros.Prelude.{
  ℕ, ◌+◌, ◌%◌, ◌≤◌, ◌<◌, ◌≡◌, refl, sym, ap, ◌∙◌, ◌⊎◌, inl, inr, Bool, true, false, Option, none,
  some, arith, ltb, ◌==◌, if◌then◌else◌, Bool-cases, ltb→lt,
}
use beeros.Console.{u32_mod, ring_size, Console, ahead}
use beeros.Console.Race.{Gaps, traps, take_byte, read_dropping, getc_steps}
use beeros.Console.Race.Traps.{
  History, Follows, Grows, Marks, Heard, again-Grows, again-Heard, traps-Heard,
}

-- A read that looks for byte number `p`. `none`: it was not there; the tail has come to `p`.
pub record Took (p : ℕ) (g : History) (o : Option ℕ) (s' : Console) (g' : History) (tail' : ℕ)
    : Type 0 where
  pub follows : Follows s' g' tail'
  pub grows : Grows g g'
  pub marks : Marks s' g' tail'
  pub answer :
      ((o ≡ none) × (tail' ≡ p)) ⊎ ((o ≡ some (g'.log p)) × ((tail' ≡ p + 1) × (p < g'.head)))

moved-Follows :
    {s : Console} {g : History} {tail p : ℕ} (t : ℕ)
    → Follows s g tail
    → tail ≤ p
    → p ≤ g.head
    → t ≡ p % u32_mod
    → Follows (record s { ring_tail = t }) g p
moved-Follows t f low high e = record {
  heads = f.heads;
  tails = e;
  order = omega (arith, low, high, f.order);
  bytes = λ i low' high'. f.bytes i (omega arith) high';
  marks = f.marks;
  key_order = f.key_order;
}

module _ (g : Gaps) {s : Console} {h : History} {tail p t : ℕ} (f : Follows s h tail)
    (low : tail ≤ p) (high : p ≤ h.head) (at : t ≡ p % u32_mod) (flag : s.drop ≡ true → p ≤ h.key)
    (calm : s.drop ≡ false → h.key ≤ p) where
  -- A flag at the end is the one before or that of a later key.
  pending_after : {s' : Console} {h' : History} → Heard tail s s' h h' → s'.drop ≡ true → p ≤ h'.key
  pending_after heard e = elim (heard.flagged.flags e) [
    | inl before ↦ ground (arith, flag before, heard.grows.keys, high)
    | inr key ↦ omega (arith, key, high)
  ]

  obeyed_after : {s' : Console} {h' : History} → Heard tail s s' h h' → s'.drop ≡ false → h'.key ≤ p
  obeyed_after heard e =
      let (before, same) = heard.flagged.calm e in omega (arith, calm before, same)

  pub take_byte-Took :
      (h' : History) × (tail' : ℕ) × Took p h (take_byte g t s).0 (take_byte g t s).1 h' tail'
  unfolding take_byte
  take_byte-Took =
      let s' = traps g.head_read s in
      let (h', heard) = traps-Heard g.head_read s h tail f in
      let (h'', heard'') = traps-Heard g.byte_read s' h' tail heard.follows in
      let both = again-Heard f.key_order heard heard'' in
      elim (Bool-cases (t == s.ring_head)) [
        | inl empty ↦ (
          h',
          p,
          rw empty (record {
            follows = moved-Follows t heard.follows low (omega (arith, high, heard.grows.heads)) at;
            grows = heard.grows;
            marks = record {
              pending = λ e. omega (arith, pending_after heard e);
              obeyed = λ e. obeyed_after heard e;
            };
            answer = inl (refl, refl);
          }),
        )
        | inr more ↦
            let lt : p < h.head = ground (arith, at, f.heads, f.order) in
            (
              h'',
              p + 1,
              rw more (record {
                follows =
                    moved-Follows ((t + 1) % u32_mod) both.follows (omega arith)
                      (omega (arith, lt, both.grows.heads)) (omega (arith, at));
                grows = both.grows;
                marks = record {
                  pending = λ e. omega (arith, pending_after both e);
                  obeyed = λ e. omega (arith, obeyed_after both e);
                };
                answer = inr (
                  ap some (
                      ap s'.ring (omega (arith, at))
                      ∙ heard.follows.bytes p low (omega (arith, lt, heard.grows.heads))
                      ∙ sym (heard''.grows.logs p (omega (arith, lt, heard.grows.heads)))),
                  (refl, omega (arith, lt, both.grows.heads)),
                );
              }),
            )
      ]

-- What a read with traps in its gaps comes to, from byte number `tail` on: it looks for byte `p`,
-- and the bytes before it that are skipped came before an interrupt key.
pub record InOrder (tail : ℕ) (g : History) (o : Option ℕ) (s' : Console) : Type 0 where
  pub history : History
  pub new_tail : ℕ
  pub p : ℕ
  pub skipped : (p ≡ tail) ⊎ ((tail < p) × (p ≤ history.key))
  pub took : Took p g o s' history new_tail

lower-Took :
    {p tail' : ℕ} {g g' g'' : History} {o : Option ℕ} {s' : Console}
    → g'.key ≤ g'.head
    → Grows g g'
    → Took p g' o s' g'' tail'
    → Took p g o s' g'' tail'
lower-Took order one took = record {
  follows = took.follows;
  grows = again-Grows order one took.grows;
  marks = took.marks;
  answer = took.answer;
}

cleared-Follows :
    {s : Console} {g : History} {tail : ℕ}
    → Follows s g tail
    → Follows (record s { drop = false }) g tail
cleared-Follows f = record {
  heads = f.heads;
  tails = f.tails;
  order = f.order;
  bytes = f.bytes;
  marks = f.marks;
  key_order = f.key_order;
}

getc_steps-if :
    (g : Gaps) (s : Console) (b : Bool)
    → s.drop ≡ b
    → getc_steps g s ≡ (
        if b
        then read_dropping g s.ring_tail (traps g.flag_read s)
        else take_byte g s.ring_tail (traps g.mark_read (traps g.flag_read s)))
unfolding getc_steps
getc_steps-if g s b e =
    ap
      (λ (x : Bool).
        if x
        then read_dropping g s.ring_tail (traps g.flag_read s)
        else take_byte g s.ring_tail (traps g.mark_read (traps g.flag_read s)))
      e

-- Where the reader goes with the mark of the last key.
marked :
    (t d tail key : ℕ)
    → t ≡ tail % u32_mod
    → d ≡ key % u32_mod
    → key ≤ tail + ring_size
    → tail ≤ key + 1
    → (p : ℕ) × ((if ahead d t then d else t) ≡ p % u32_mod)
      × (tail ≤ p)
      × (key ≤ p)
      × ((p ≡ tail) ⊎ ((tail < p) × (p ≡ key)))
marked t d tail key et ed far near = elim (Bool-cases (ltb tail key)) [
  | inl forward ↦
      let on : ahead d t ≡ true = ground arith in
      (key, rw on ed, omega (arith, ltb→lt tail key forward), omega arith, inr (ground arith, refl))
  | inr stay ↦
      let off : ahead d t ≡ false = ground arith in
      (tail, rw off et, omega arith, ground arith, inl refl)
]

module _ (g : Gaps) {s : Console} {h : History} {tail : ℕ} (f : Follows s h tail) where
  not_dropping-InOrder :
      s.drop ≡ false → h.key ≤ tail → InOrder tail h (getc_steps g s).0 (getc_steps g s).1
  not_dropping-InOrder calm obeyed =
      let (h1, one) = traps-Heard g.flag_read s h tail f in
      let (h3, three) = traps-Heard g.mark_read (traps g.flag_read s) h1 tail one.follows in
      let both = again-Heard f.key_order one three in
      let flag : (traps g.mark_read (traps g.flag_read s)).drop ≡ true → tail ≤ h3.key = λ e.
        elim (both.flagged.flags e) [
          | inl before ↦ ground (arith, before, calm)
          | inr key ↦ omega (arith, key, f.order)
        ] in
      let (h', tail', took) =
        take_byte-Took g both.follows (omega arith) (omega (arith, f.order, both.grows.heads))
          f.tails flag (λ e. omega (arith, (both.flagged.calm e).1, obeyed)) in
      rw (getc_steps-if g s false calm) (record {
        history = h';
        new_tail = tail';
        p = tail;
        skipped = inl refl;
        took = lower-Took both.follows.key_order both.grows took;
      })

  dropping-InOrder :
      s.drop ≡ true → tail ≤ h.key + 1 → InOrder tail h (getc_steps g s).0 (getc_steps g s).1
  unfolding read_dropping
  dropping-InOrder flagged near =
      let s1 = traps g.flag_read s in
      let s1' : Console = record s1 { drop = false } in
      let s2 = traps g.flag_cleared s1' in
      let (h1, one) = traps-Heard g.flag_read s h tail f in
      let (h2, two) = traps-Heard g.flag_cleared s1' h1 tail (cleared-Follows one.follows) in
      let (h3, three) = traps-Heard g.mark_read s2 h2 tail two.follows in
      let later = again-Heard one.follows.key_order two three in
      let (p, place, low, beyond, skip) =
        marked s.ring_tail s2.drop_before tail h2.key f.tails two.follows.marks
          (omega (arith, two.follows.key_order, two.follows.order))
          (ground (arith, near, f.order, one.grows.keys, two.grows.keys, one.grows.heads)) in
      let high : p ≤ h3.head =
        ground (arith, skip, two.follows.key_order, two.follows.order, three.grows.heads) in
      let flag : (traps g.mark_read s2).drop ≡ true → p ≤ h3.key = λ e.
        elim (later.flagged.flags e) [
          | inl before ↦ ground (arith, before)
          | inr key ↦
              ground (arith, skip, key, one.follows.order, three.grows.keys, two.follows.key_order)
        ] in
      let (h', tail', took) =
        take_byte-Took g three.follows low high place flag
          (λ e. omega (arith, (three.flagged.calm e).1, beyond)) in
      let whole = again-Grows one.follows.key_order one.grows later.grows in
      rw (getc_steps-if g s true flagged) (record {
        history = h';
        new_tail = tail';
        p = p;
        skipped = ground (
          arith, skip, three.grows.keys, took.grows.keys, two.follows.key_order,
          three.follows.key_order, three.grows.heads,
        );
        took = lower-Took three.follows.key_order whole took;
      })

-- Let the console hold the bytes from number `tail` on; and a set drop flag mean that the last
-- interrupt key came after the byte before, a clear one that it did not come after `tail`. Whatever
-- the handler receives between any two steps of a read, this holds again at the end, with no byte
-- written over that is still to be read. The read answers the next byte that was received, except
-- that it may skip bytes from before an interrupt key; or none.
pub getc_steps-InOrder :
    (g : Gaps) {s : Console} {h : History} {tail : ℕ}
    → Follows s h tail
    → Marks s h tail
    → InOrder tail h (getc_steps g s).0 (getc_steps g s).1
getc_steps-InOrder g {s} f marks = elim (Bool-cases s.drop) [
  | inl flagged ↦ dropping-InOrder g f flagged (marks.pending flagged)
  | inr calm ↦ not_dropping-InOrder g f calm (marks.obeyed calm)
]
