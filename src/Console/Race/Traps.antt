-- ===== src/Console/Race/Traps.antt =====
-- kernel/console.c: what console_rx leaves of the ring while it is being read.
use beeros.Prelude.{
  ℕ, ◌+◌, ◌%◌, ◌≤◌, ◌<◌, ◌≡◌, refl, ◌∙◌, ◌⊎◌, inl, inr, Bool, true, false, [], ◌∷◌, arith, leb,
  ◌==◌, Bool-cases,
}
use beeros.Prelude.Slice.{update}
use beeros.Console.{u32_mod, ring_size, sub32, Console, is_interrupt_key, rx}
use beeros.Console.Race.{Gap, traps}

-- What was received: byte number i is `log i`, `head` bytes were kept so far, and the last interrupt
-- key came when `key` had been.
pub record History : Type 0 where
  pub log : ℕ → ℕ
  pub head : ℕ
  pub key : ℕ

-- The console holds the bytes from number `tail` on.
pub record Follows (s : Console) (g : History) (tail : ℕ) : Type 0 where
  pub heads : s.ring_head ≡ g.head % u32_mod
  pub tails : s.ring_tail ≡ tail % u32_mod
  pub order : (tail ≤ g.head) × (g.head ≤ tail + ring_size)
  pub bytes : (i : ℕ) → tail ≤ i → i < g.head → s.ring (i % ring_size) ≡ g.log i
  pub marks : s.drop_before ≡ g.key % u32_mod
  pub key_order : g.key ≤ g.head

-- More was received: what was kept stays, and a new key came after all that was there.
pub record Grows (g g' : History) : Type 0 where
  pub heads : g.head ≤ g'.head
  pub logs : (i : ℕ) → i < g.head → g'.log i ≡ g.log i
  pub keys : (g'.key ≡ g.key) ⊎ (g.head ≤ g'.key)

-- The flag is set by a key and by nothing else.
pub record Flagged (s s' : Console) (g g' : History) : Type 0 where
  pub flags : s'.drop ≡ true → (s.drop ≡ true) ⊎ (g.head ≤ g'.key)
  pub calm : s'.drop ≡ false → (s.drop ≡ false) × (g'.key ≡ g.key)

-- A set flag means a key that came after the byte before `tail`; without it there is nothing to drop.
pub record Marks (s : Console) (g : History) (tail : ℕ) : Type 0 where
  pub pending : s.drop ≡ true → tail ≤ g.key + 1
  pub obeyed : s.drop ≡ false → g.key ≤ tail

-- The handler has run: the tail is as it was.
pub record Heard (tail : ℕ) (s s' : Console) (g g' : History) : Type 0 where
  pub follows : Follows s' g' tail
  pub grows : Grows g g'
  pub flagged : Flagged s s' g g'

-- A byte is kept as number `head`: its place in the ring is none that is still to be read.
kept-Follows :
    (b : ℕ) {s : Console} {g : History} {tail : ℕ}
    → Follows s g tail
    → g.head < tail + ring_size
    → Follows
        (record s {
          ring = update s.ring (s.ring_head % ring_size) b;
          ring_head = (s.ring_head + 1) % u32_mod;
        })
        (record g { log = update g.log g.head b; head = g.head + 1 })
        tail
kept-Follows b {s} {g} {tail} f room = record {
  heads = omega (arith, f.heads);
  tails = f.tails;
  order = omega (arith, f.order, room);
  bytes = λ i low high. elim (Bool-cases (g.head == i)) [
    | inl new ↦
        let there : (s.ring_head % ring_size == i % ring_size) ≡ true = ground (arith, f.heads) in
        rw new (rw there refl)
    | inr old ↦
        let elsewhere : (s.ring_head % ring_size == i % ring_size) ≡ false =
          ground (arith, f.heads, f.order, room) in
        rw old (rw elsewhere (f.bytes i low (ground arith)))
  ];
  marks = f.marks;
  key_order = omega (arith, f.key_order);
}

self-Grows : (g : History) → Grows g g
self-Grows g = record { heads = omega arith; logs = λ i lt. refl; keys = inl refl }

rx-Heard :
    (b : ℕ) (is_break : Bool) (s : Console) (g : History) (tail : ℕ)
    → Follows s g tail
    → (g' : History) × Heard tail s (rx b is_break s) g g'
unfolding rx
rx-Heard b is_break s g tail f = elim (Bool-cases (is_interrupt_key b is_break s)) [
  | inl key ↦ (
    record g { key = g.head },
    rw key (record {
      follows = record {
        heads = f.heads;
        tails = f.tails;
        order = f.order;
        bytes = f.bytes;
        marks = f.heads;
        key_order = omega arith;
      };
      grows = record { heads = omega arith; logs = λ i lt. refl; keys = inr (omega arith) };
      flagged = record { flags = λ e. inr (omega arith); calm = λ e. ground (arith, e) };
    }),
  )
  | inr plain ↦ elim (Bool-cases (leb ring_size (sub32 s.ring_head s.ring_tail))) [
    | inl full ↦ (
      g,
      rw (plain, full)
          (record {
            follows = f;
            grows = self-Grows g;
            flagged = record { flags = λ e. inl e; calm = λ e. (e, refl) };
          }),
    )
    | inr room ↦ (
      record g { log = update g.log g.head b; head = g.head + 1 },
      rw (plain, room)
          (record {
            follows = kept-Follows b f (ground (arith, f.heads, f.tails, f.order));
            grows = record {
              heads = omega arith;
              logs = λ i lt. let other : (g.head == i) ≡ false = ground arith in rw other refl;
              keys = inl refl;
            };
            flagged = record { flags = λ e. inl e; calm = λ e. (e, refl) };
          }),
    )
  ]
]

pub again-Grows : {g g' g'' : History} → g'.key ≤ g'.head → Grows g g' → Grows g' g'' → Grows g g''
again-Grows order one two = record {
  heads = omega (arith, one.heads, two.heads);
  logs = λ i lt. two.logs i (omega (arith, one.heads)) ∙ one.logs i lt;
  keys = ground (arith, one.heads, one.keys, two.keys);
}

pub again-Heard :
    {tail : ℕ} {s s' s'' : Console} {g g' g'' : History}
    → g.key ≤ g.head
    → Heard tail s s' g g'
    → Heard tail s' s'' g' g''
    → Heard tail s s'' g g''
again-Heard order one two = record {
  follows = two.follows;
  grows = again-Grows one.follows.key_order one.grows two.grows;
  flagged = record {
    flags = λ e. elim (two.flagged.flags e) [
      | inl before ↦ elim (one.flagged.flags before) [
        | inl earlier ↦ inl earlier
        | inr key ↦
            inr (ground (arith, key, one.grows.heads, two.grows.keys, one.follows.key_order))
      ]
      | inr key ↦ inr (omega (arith, key, one.grows.heads))
    ];
    calm = λ e.
        let (before, same) = two.flagged.calm e in
        let (earlier, same') = one.flagged.calm before in (earlier, same ∙ same');
  };
}

pub traps-Heard :
    (gap : Gap) (s : Console) (g : History) (tail : ℕ)
    → Follows s g tail
    → (g' : History) × Heard tail s (traps gap s) g g'
unfolding traps
traps-Heard [] s g tail f = (
  g,
  record {
    follows = f;
    grows = self-Grows g;
    flagged = record { flags = λ e. inl e; calm = λ e. (e, refl) };
  },
)
traps-Heard ((b, is_break) ∷ gap) s g tail f =
    let (g', one) = rx-Heard b is_break s g tail f in
    let (g'', two) = traps-Heard gap (rx b is_break s) g' tail one.follows in
    (g'', again-Heard f.key_order one two)
