-- ===== src/Irq/Take.antt =====
-- irq-wait! of kernel/mem_natives.c as a whole: what it leaves, and what a trap in its last step loses.
use beeros.Prelude.{
  ℕ, ◌%◌, ◌^◌, ◌≤◌, ◌<◌, ◌≡◌, refl, ap, ◌∙◌, sym, Bool-cases, ◌||◌, inl, inr, true, false, not,
  ◌&&◌, some, List, [], ◌∷◌, ◌++◌, arith, ltb, ◌==◌, length,
}
use beeros.Prelude.Bits.{bit, clear_bit, bit-clear_bit}
use beeros.Prelude.Int.{pos, to_u64, int_of}
use beeros.Beerlang.{fixnum}
use beeros.Console.Session
use beeros.Irq.{
  Irqs, Trap, max_irqs, resumed, trap_all, Event, irq_index, wait_turns, consume,
  native_mem_irq_wait,
}
use mathlib.Core.Bool.{false≢true}
use beeros.Irq.Traps.{AreInterrupts, is_claimed, acknowledged, typed, trap_all-Trapped}
use beeros.Irq.Pending.{is_pending, arrived}
use beeros.Irq.Wait.{AreQuiet, Arrives, joined, wait_turns-due, wait_turns-Ended}

int_of_lem : (n : ℕ) → n < max_irqs → int_of (to_u64 (pos n)) ≡ pos n
unfolding int_of
int_of_lem n lt =
    let small : n % 2 ^ 64 % 2 ^ 32 ≡ n = omega arith in
    let low : ltb n (2 ^ 31) ≡ true = ground arith in rw (small, low) refl

irq_index_lem : (n : ℕ) → n < max_irqs → irq_index (fixnum (pos n)) ≡ some n
unfolding irq_index
irq_index_lem n lt =
    let valid : ltb n max_irqs ≡ true = ground arith in rw (irq_index, int_of_lem n lt, valid) refl

-- What irq-wait! leaves: the state after the loop, with the bit of n cleared.
native_mem_irq_wait-resumed :
    (n : ℕ) (rounds : List (List Event)) (between : List Trap) (s s' s'' : Irqs)
    → n < max_irqs
    → wait_turns n rounds s ≡ resumed s'
    → trap_all between s' ≡ resumed s''
    → native_mem_irq_wait (fixnum (pos n) ∷ []) rounds between s
      ≡ resumed (record s'' { pending = clear_bit s'.pending n })
unfolding native_mem_irq_wait consume
native_mem_irq_wait-resumed n rounds between s s' s'' lt waited ran =
    rw (native_mem_irq_wait, irq_index_lem n lt, waited, consume, ran) refl

-- What irq-wait! ends with.
pub record Waited (n : ℕ) (rounds : List (List Event)) (s s' : Irqs) : Type 0 where
  pub turns : ℕ
  pub within : turns ≤ length rounds
  pub due : is_pending n (joined turns rounds) (bit s.pending n) ≡ true
  pub first : (j : ℕ) → j < turns → is_pending n (joined j rounds) (bit s.pending n) ≡ false
  pub pends :
      (m : ℕ)
      → 0 < m
      → m < max_irqs
      → bit s'.pending m ≡ (not (m == n) && is_pending m (joined turns rounds) (bit s.pending m))
  pub completions : s'.completed ≡ s.completed ++ acknowledged (arrived (joined turns rounds))
  pub console : s'.console ≡ (Session.run (typed (arrived (joined turns rounds))) s.console).1

-- irq-wait! for n, from 1 to 63, ends if all the traps are interrupts and in some round n is
-- claimed, not between the load and the store of another task's take, and not taken again in that
-- round: after the first number of rounds at which n is pending. Where no trap arrives between the
-- load and the store of its own take, n is then no longer pending, the other interrupts are pending
-- or not just as the rounds left them, their claims are completed and the console has what the UART
-- received.
pub native_mem_irq_wait-Waited :
    {n : ℕ} {rounds : List (List Event)}
    → 0 < n
    → n < max_irqs
    → AreQuiet rounds
    → Arrives n rounds
    → (s : Irqs) → s.pending < 2 ^ 64
    → (s' : Irqs) × ((native_mem_irq_wait (fixnum (pos n) ∷ []) rounds [] s ≡ resumed s')
        × Waited n rounds s s')
unfolding trap_all
native_mem_irq_wait-Waited {n} {rounds} low high quiet arrives s below =
    let (s', (waited, ended)) = wait_turns-Ended low high quiet arrives s below in
    (
      record s' { pending = clear_bit s'.pending n },
      (
        native_mem_irq_wait-resumed n rounds [] s s' s' high waited refl,
        record {
          turns = ended.turns;
          within = ended.within;
          due = sym (ended.served.pends n low high) ∙ ended.due;
          first = ended.first;
          pends = λ m low' high'.
              bit-clear_bit s'.pending n m
              ∙ ap (λ b. not (m == n) && b) (ended.served.pends m low' high');
          completions = ended.served.came.completions;
          console = ended.served.came.console;
        },
      ),
    )

-- A claim from 1 to 63 is among those that the controller is told the end of.
is_claimed-acknowledged :
    (m : ℕ) (ts : List Trap)
    → 0 < m
    → m < max_irqs
    → is_claimed m ts ≡ true
    → (xs ys : List ℕ) × (acknowledged ts ≡ xs ++ (m ∷ ys))
is_claimed-acknowledged m [] low high claimed = absurd (false≢true claimed)
is_claimed-acknowledged m (t ∷ ts) low high claimed = elim (Bool-cases (m == t.claimed)) [
  | inl this ↦
      let same : t.claimed ≡ m = ground arith in
      let known : (ltb 0 t.claimed && ltb t.claimed max_irqs) ≡ true = ground arith in
      ([], acknowledged ts, rw known (ap (λ k. k ∷ acknowledged ts) same))
  | inr other_claim ↦
      let rest : is_claimed m ts ≡ true =
        ap (λ b. b || is_claimed m ts) (sym other_claim) ∙ claimed in
      let (xs, ys, e) = is_claimed-acknowledged m ts low high rest in
      elim (Bool-cases (ltb 0 t.claimed && ltb t.claimed max_irqs)) [
        | inl known ↦ (t.claimed ∷ xs, ys, rw known (ap (λ l. t.claimed ∷ l) e))
        | inr unknown ↦ (xs, ys, rw unknown e)
      ]
]

-- irq-wait! for a pending n below 64 takes it by a load and a store of the whole word. Interrupt m,
-- another one from 1 to 63 that was not pending, is lost if it is claimed between the two: it was
-- pending after the traps, the controller has been told its end, and irq-wait! leaves it not pending.
pub native_mem_irq_wait-loses :
    (n m : ℕ) {between : List Trap} (rounds : List (List Event))
    → n < max_irqs
    → 0 < m
    → m < max_irqs
    → AreInterrupts between
    → (s : Irqs) → s.pending < 2 ^ 64
    → bit s.pending n ≡ true
    → bit s.pending m ≡ false
    → is_claimed m between ≡ true
    → (u s' : Irqs) × ((trap_all between s ≡ resumed u)
        × ((bit u.pending m ≡ true)
            × ((native_mem_irq_wait (fixnum (pos n) ∷ []) rounds between s ≡ resumed s')
                × (((xs ys : List ℕ) × (s'.completed ≡ s.completed ++ (xs ++ (m ∷ ys))))
                    × (bit s'.pending m ≡ false)))))
native_mem_irq_wait-loses n m {between} rounds high low high' traps s below due idle claimed =
    let (u, (ran, trapped)) = trap_all-Trapped traps s below in
    let (xs, ys, told) = is_claimed-acknowledged m between low high' claimed in
    (
      u,
      record u { pending = clear_bit s.pending n },
      (
        ran,
        (
          trapped.pends m low high' ∙ ap (λ b. b || bit s.pending m) claimed,
          (
            native_mem_irq_wait-resumed n rounds between s s u high (wait_turns-due n rounds s due)
                ran,
            (
              (xs, ys, trapped.came.completions ∙ ap (λ l. s.completed ++ l) told),
              bit-clear_bit s.pending n m ∙ ground arith,
            ),
          ),
        ),
      ),
    )
