-- ===== src/Irq/Wait.antt =====
-- The loop of irq-wait! in kernel/mem_natives.c.
use beeros.Prelude.{
  ℕ, zero, suc, ◌^◌, ◌≤◌, ◌<◌, ◌≡◌, refl, ap, ◌∙◌, sym, inl, inr, Bool, true, false, List, [], ◌∷◌,
  ◌++◌, arith, Bool-cases, length,
}
use mathlib.Core.List.{append_assoc}
use mathlib.Core.Path.{subst}
use beeros.Prelude.Bits.{bit}
use beeros.Irq.{Irqs, max_irqs, resumed, Event, trap, taken, events, wait_turns}
use beeros.Irq.Traps.{Came, append-Came}
use beeros.Irq.Pending.{IsQuiet, is_pending, arrived, Served, events-Served, nil-Served}

pub data AreQuiet : List (List Event) → Type 0 where
  no_rounds : AreQuiet []
  also :
      {round : List Event} {rounds : List (List Event)}
      → IsQuiet round
      → AreQuiet rounds
      → AreQuiet (round ∷ rounds)

-- In some round interrupt n is claimed outside of takes, and not taken again in that round.
pub data Arrives (n : ℕ) : List (List Event) → Type 0 where
  here :
      {round : List Event} {rounds : List (List Event)}
      → is_pending n round false ≡ true
      → Arrives n (round ∷ rounds)
  later :
      {round : List Event} {rounds : List (List Event)}
      → Arrives n rounds
      → Arrives n (round ∷ rounds)

-- The events of the first k rounds.
abbrev pub joined : ℕ → List (List Event) → List Event
joined zero rounds = []
joined (suc k) [] = []
joined (suc k) (round ∷ rounds) = round ++ joined k rounds

-- The loop ends after the first number of rounds at which n is pending.
pub record Ended (n : ℕ) (rounds : List (List Event)) (s s' : Irqs) : Type 0 where
  pub turns : ℕ
  pub within : turns ≤ length rounds
  pub served : Served (joined turns rounds) s s'
  pub due : bit s'.pending n ≡ true
  pub first : (j : ℕ) → j < turns → is_pending n (joined j rounds) (bit s.pending n) ≡ false

is_pending-append :
    (m : ℕ) (xs ys : List Event) (p : Bool)
    → is_pending m (xs ++ ys) p ≡ is_pending m ys (is_pending m xs p)
is_pending-append m [] ys p = refl
is_pending-append m (trap t ∷ xs) ys p = is_pending-append m xs ys _
is_pending-append m (taken n between ∷ xs) ys p = is_pending-append m xs ys _

is_pending_mono :
    (m : ℕ) (es : List Event) (p q : Bool)
    → (p ≡ true → q ≡ true)
    → is_pending m es p ≡ true
    → is_pending m es q ≡ true
is_pending_mono m [] p q le h = le h
is_pending_mono m (trap t ∷ es) p q le h = is_pending_mono m es _ _ (ground (arith, le)) h
is_pending_mono m (taken n between ∷ es) p q le h = is_pending_mono m es _ _ (ground (arith, le)) h

arrived-append : (xs ys : List Event) → arrived (xs ++ ys) ≡ arrived xs ++ arrived ys
arrived-append [] ys = refl
arrived-append (trap t ∷ xs) ys = ap (λ l. t ∷ l) (arrived-append xs ys)
arrived-append (taken n between ∷ xs) ys =
    ap (λ l. between ++ l) (arrived-append xs ys)
    ∙ sym (append_assoc between (arrived xs) (arrived ys))

append-Served :
    (xs ys : List Event) (s s' s'' : Irqs)
    → Served xs s s'
    → Served ys s' s''
    → Served (xs ++ ys) s s''
append-Served xs ys s s' s'' one two = record {
  word = two.word;
  pends = λ m low high.
      two.pends m low high
      ∙ ap (is_pending m ys) (one.pends m low high)
      ∙ sym (is_pending-append m xs ys (bit s.pending m));
  came =
      subst (λ ts. Came ts s s'') (sym (arrived-append xs ys))
        (append-Came (arrived xs) (arrived ys) s s' s'' one.came two.came);
}

pub wait_turns-due :
    (n : ℕ) (rounds : List (List Event)) (s : Irqs)
    → bit s.pending n ≡ true
    → wait_turns n rounds s ≡ resumed s
unfolding wait_turns
wait_turns-due n [] s due = rw due refl
wait_turns-due n (round ∷ rounds) s due = rw due refl

wait_turns-turn :
    (n : ℕ) (round : List Event) (rounds : List (List Event)) (s s' : Irqs)
    → bit s.pending n ≡ false
    → events round s ≡ resumed s'
    → wait_turns n (round ∷ rounds) s ≡ wait_turns n rounds s'
unfolding wait_turns
wait_turns-turn n round rounds s s' not_due ran = rw (not_due, ran) refl

now-Ended :
    (n : ℕ) (rounds : List (List Event)) (s : Irqs)
    → s.pending < 2 ^ 64
    → bit s.pending n ≡ true
    → Ended n rounds s s
now-Ended n rounds s below due = record {
  turns = 0;
  within = omega arith;
  served = nil-Served s below;
  due = due;
  first = λ j lt. absurd (omega arith);
}

-- One more round before those that the loop takes.
turn-Ended :
    (n : ℕ) {round : List Event} {rounds : List (List Event)} (s s' s'' : Irqs)
    → 0 < n
    → n < max_irqs
    → bit s.pending n ≡ false
    → Served round s s'
    → Ended n rounds s' s''
    → Ended n (round ∷ rounds) s s''
turn-Ended n {round} {rounds} s s' s'' low high not_due one rest = record {
  turns = suc rest.turns;
  within = omega (arith, rest.within);
  served = append-Served round (joined rest.turns rounds) s s' s'' one rest.served;
  due = rest.due;
  first = earlier;
}
  where
    earlier :
        (j : ℕ)
        → j < suc rest.turns
        → is_pending n (joined j (round ∷ rounds)) (bit s.pending n) ≡ false
    earlier zero lt = not_due
    earlier (suc j) lt =
        is_pending-append n round (joined j rounds) (bit s.pending n)
        ∙ ap (is_pending n (joined j rounds)) (sym (one.pends n low high))
        ∙ rest.first j (omega arith)

-- A round in which n is claimed, and one before it.
here-Ended :
    {n : ℕ} {round : List Event} (rounds : List (List Event))
    → 0 < n
    → n < max_irqs
    → IsQuiet round
    → is_pending n round false ≡ true
    → (s : Irqs) → s.pending < 2 ^ 64
    → bit s.pending n ≡ false
    → (s' : Irqs) × ((wait_turns n (round ∷ rounds) s ≡ resumed s') × Ended n (round ∷ rounds) s s')
here-Ended {n} {round} rounds low high quiet arrives s below not_due =
    let (s', (ran, one)) = events-Served quiet s below in
    let due : bit s'.pending n ≡ true =
      one.pends n low high
      ∙ is_pending_mono n round false (bit s.pending n) (λ e. ground arith) arrives in
    (
      s',
      (
        wait_turns-turn n round rounds s s' not_due ran ∙ wait_turns-due n rounds s' due,
        turn-Ended n s s' s' low high not_due one (now-Ended n rounds s' one.word due),
      ),
    )

later-Ended :
    {n : ℕ} {round : List Event} {rounds : List (List Event)} (s s' s'' : Irqs)
    → 0 < n
    → n < max_irqs
    → bit s.pending n ≡ false
    → events round s ≡ resumed s'
    → Served round s s'
    → (wait_turns n rounds s' ≡ resumed s'') × Ended n rounds s' s''
    → (wait_turns n (round ∷ rounds) s ≡ resumed s'') × Ended n (round ∷ rounds) s s''
later-Ended {n} {round} {rounds} s s' s'' low high not_due ran one (waited, ended) = (
  wait_turns-turn n round rounds s s' not_due ran ∙ waited,
  turn-Ended n s s' s'' low high not_due one ended,
)

pub wait_turns-Ended :
    {n : ℕ} {rounds : List (List Event)}
    → 0 < n
    → n < max_irqs
    → AreQuiet rounds
    → Arrives n rounds
    → (s : Irqs) → s.pending < 2 ^ 64
    → (s' : Irqs) × ((wait_turns n rounds s ≡ resumed s') × Ended n rounds s s')
wait_turns-Ended low high no_rounds arrives s below = elim arrives [ ]
wait_turns-Ended {n} {rounds} low high (also quiet rest) (here arrives) s below =
    elim (Bool-cases (bit s.pending n)) [
      | inl due ↦ (s, (wait_turns-due n rounds s due, now-Ended n rounds s below due))
      | inr not_due ↦ here-Ended _ low high quiet arrives s below not_due
    ]
wait_turns-Ended {n} {rounds} low high (also quiet rest) (later arrives) s below =
    let (s', (ran, one)) = events-Served quiet s below in
    let (s'', then_ended) = wait_turns-Ended low high rest arrives s' one.word in
    elim (Bool-cases (bit s.pending n)) [
      | inl due ↦ (s, (wait_turns-due n rounds s due, now-Ended n rounds s below due))
      | inr not_due ↦ (s'', later-Ended s s' s'' low high not_due ran one then_ended)
    ]
