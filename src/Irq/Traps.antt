-- ===== src/Irq/Traps.antt =====
-- What traps that arrive one after the other leave in the word of pending interrupts of
-- kernel/mem_natives.c, at the interrupt controller and in the console.
use beeros.Prelude.{
  ℕ, ◌^◌, ◌<◌, ◌≡◌, refl, ap, ◌∙◌, sym, inl, inr, Bool, true, false, ◌&&◌, ◌||◌, List, [], ◌∷◌,
  ◌++◌, arith, ltb, ◌==◌, if◌then◌else◌, Bool-cases,
}
use mathlib.Core.List.{append_assoc, append-nil}
use beeros.Prelude.Bits.{bit, bit-set_bit, set_bit-bound}
use beeros.Console.{Console, rx}
use beeros.Console.Session
use beeros.Irq.{
  Irqs, Trap, max_irqs, uart_irq, uart_rx_isr, serve_uart, acknowledge, dispatch, mem_trap_handler,
  resumed, trap_all,
}

-- Every trap is an interrupt.
pub data AreInterrupts : List Trap → Type 0 where
  no_traps : AreInterrupts []
  next :
      {t : Trap} {ts : List Trap}
      → bit t.mcause 63 ≡ true
      → AreInterrupts ts
      → AreInterrupts (t ∷ ts)

abbrev pub is_claimed : ℕ → List Trap → Bool
is_claimed m [] = false
is_claimed m (t ∷ ts) = (m == t.claimed) || is_claimed m ts

-- The claims that the controller is told the end of.
abbrev pub acknowledged : List Trap → List ℕ
acknowledged [] = []
acknowledged (t ∷ ts) =
    let rest = acknowledged ts in
    if ltb 0 t.claimed && ltb t.claimed max_irqs then t.claimed ∷ rest else rest

-- The bytes that the UART has, as what they are to the console.
abbrev pub arrivals : List (ℕ × ℕ) → List Session.Event
arrivals [] = []
arrivals ((lsr, b) ∷ rest) =
    let rest' = arrivals rest in if bit lsr 0 then Session.received b (bit lsr 4) ∷ rest' else []

abbrev pub typed : List Trap → List Session.Event
typed [] = []
typed (t ∷ ts) =
    let rest = typed ts in if t.claimed == uart_irq then arrivals t.serial ++ rest else rest

-- What traps leave besides the word.
pub record Came (ts : List Trap) (s s' : Irqs) : Type 0 where
  pub completions : s'.completed ≡ s.completed ++ acknowledged ts
  pub console : s'.console ≡ (Session.run (typed ts) s.console).1
  pub table : s'.handlers ≡ s.handlers

run-append :
    (xs ys : List Session.Event) (c : Console)
    → (Session.run (xs ++ ys) c).1 ≡ (Session.run ys (Session.run xs c).1).1
unfolding Session.run
run-append [] ys c = refl
run-append (x ∷ xs) ys c = run-append xs ys _

uart_rx_isr-run :
    (serial : List (ℕ × ℕ)) (c : Console)
    → uart_rx_isr serial c ≡ (Session.run (arrivals serial) c).1
unfolding uart_rx_isr Session.run Session.step
uart_rx_isr-run [] c = refl
uart_rx_isr-run ((lsr, b) ∷ rest) c = elim (Bool-cases (bit lsr 0)) [
  | inl ready ↦ rw ready (uart_rx_isr-run rest (rx b (bit lsr 4) c))
  | inr idle ↦ rw idle refl
]

pub nil-Came : (s : Irqs) → Came [] s s
unfolding Session.run
nil-Came s = record { completions = sym (append-nil s.completed); console = refl; table = refl }

serve_uart-console :
    (t : Trap) (ts : List Trap) (s : Irqs)
    → (Session.run (typed (t ∷ ts)) s.console).1
      ≡ (Session.run (typed ts) (serve_uart t s).console).1
unfolding serve_uart
serve_uart-console t ts s = elim (Bool-cases (t.claimed == uart_irq)) [
  | inl serial ↦
      rw (serial, uart_rx_isr-run t.serial s.console)
        (run-append (arrivals t.serial) (typed ts) s.console)
  | inr not_serial ↦ rw not_serial refl
]

serve_uart-keeps :
    (t : Trap) (s : Irqs)
    → ((serve_uart t s).pending ≡ s.pending)
      × ((serve_uart t s).completed ≡ s.completed)
      × ((serve_uart t s).handlers ≡ s.handlers)
unfolding serve_uart
serve_uart-keeps t s = elim (Bool-cases (t.claimed == uart_irq)) [
  | inl serial ↦ rw serial (refl, refl, refl)
  | inr not_serial ↦ rw not_serial (refl, refl, refl)
]

-- An acknowledged claim; and one that is out of range.
acknowledge-pends :
    (irq : ℕ) (s : Irqs) (m : ℕ)
    → 0 < m
    → m < max_irqs
    → bit (acknowledge irq s).pending m ≡ ((m == irq) || bit s.pending m)
unfolding acknowledge
acknowledge-pends irq s m low high = elim (Bool-cases (ltb 0 irq && ltb irq max_irqs)) [
  | inl known ↦ rw known (bit-set_bit s.pending irq m)
  | inr unknown ↦ let other : (m == irq) ≡ false = ground arith in rw (unknown, other) refl
]

acknowledge-word : (irq : ℕ) (s : Irqs) → s.pending < 2 ^ 64 → (acknowledge irq s).pending < 2 ^ 64
unfolding acknowledge
acknowledge-word irq s below = elim (Bool-cases (ltb 0 irq && ltb irq max_irqs)) [
  | inl known ↦ rw known (set_bit-bound 64 s.pending irq below (ground arith))
  | inr unknown ↦ rw unknown below
]

acknowledge-completes :
    (t : Trap) (ts : List Trap) (s : Irqs)
    → (acknowledge t.claimed s).completed ++ acknowledged ts ≡ s.completed ++ acknowledged (t ∷ ts)
unfolding acknowledge
acknowledge-completes t ts s = elim (Bool-cases (ltb 0 t.claimed && ltb t.claimed max_irqs)) [
  | inl known ↦ rw known (append_assoc s.completed (t.claimed ∷ []) (acknowledged ts))
  | inr unknown ↦ rw unknown refl
]

acknowledge-keeps :
    (irq : ℕ) (s : Irqs)
    → ((acknowledge irq s).console ≡ s.console) × ((acknowledge irq s).handlers ≡ s.handlers)
unfolding acknowledge
acknowledge-keeps irq s = elim (Bool-cases (ltb 0 irq && ltb irq max_irqs)) [
  | inl known ↦ rw known (refl, refl)
  | inr unknown ↦ rw unknown (refl, refl)
]

pub trap-Came :
    (t : Trap) {ts : List Trap} (s s' : Irqs) → Came ts (dispatch t s) s' → Came (t ∷ ts) s s'
unfolding dispatch
trap-Came t {ts} s s' rest =
    let u = serve_uart t s in
    let (same_word, same_claims, same_table) = serve_uart-keeps t s in
    let (same_console, same_handlers) = acknowledge-keeps t.claimed u in
    record {
      completions =
          rest.completions
          ∙ acknowledge-completes t ts u
          ∙ ap (λ l. l ++ acknowledged (t ∷ ts)) same_claims;
      console =
          rest.console
          ∙ ap (λ c. (Session.run (typed ts) c).1) same_console
          ∙ sym (serve_uart-console t ts s);
      table = rest.table ∙ same_handlers ∙ same_table;
    }

acknowledged-append :
    (xs ys : List Trap) → acknowledged (xs ++ ys) ≡ acknowledged xs ++ acknowledged ys
acknowledged-append [] ys = refl
acknowledged-append (t ∷ xs) ys = elim (Bool-cases (ltb 0 t.claimed && ltb t.claimed max_irqs)) [
  | inl known ↦ rw known (ap (λ l. t.claimed ∷ l) (acknowledged-append xs ys))
  | inr unknown ↦ rw unknown (acknowledged-append xs ys)
]

typed-append : (xs ys : List Trap) → typed (xs ++ ys) ≡ typed xs ++ typed ys
typed-append [] ys = refl
typed-append (t ∷ xs) ys = elim (Bool-cases (t.claimed == uart_irq)) [
  | inl serial ↦ rw serial (
      ap (λ l. arrivals t.serial ++ l) (typed-append xs ys)
      ∙ sym (append_assoc (arrivals t.serial) (typed xs) (typed ys)))
  | inr not_serial ↦ rw not_serial (typed-append xs ys)
]

pub append-Came :
    (xs ys : List Trap) (s s' s'' : Irqs) → Came xs s s' → Came ys s' s'' → Came (xs ++ ys) s s''
append-Came xs ys s s' s'' one two = record {
  completions =
      two.completions
      ∙ ap (λ l. l ++ acknowledged ys) one.completions
      ∙ append_assoc s.completed (acknowledged xs) (acknowledged ys)
      ∙ ap (λ l. s.completed ++ l) (sym (acknowledged-append xs ys));
  console =
      two.console
      ∙ ap (λ c. (Session.run (typed ys) c).1) one.console
      ∙ sym (run-append (typed xs) (typed ys) s.console)
      ∙ ap (λ l. (Session.run l s.console).1) (sym (typed-append xs ys));
  table = two.table ∙ one.table;
}

pub dispatch-word : (t : Trap) (s : Irqs) → s.pending < 2 ^ 64 → (dispatch t s).pending < 2 ^ 64
unfolding dispatch
dispatch-word t s below =
    acknowledge-word t.claimed (serve_uart t s) (omega (arith, (serve_uart-keeps t s).0, below))

pub dispatch-pends :
    (t : Trap) (s : Irqs) (m : ℕ)
    → 0 < m
    → m < max_irqs
    → bit (dispatch t s).pending m ≡ ((m == t.claimed) || bit s.pending m)
unfolding dispatch
dispatch-pends t s m low high =
    acknowledge-pends t.claimed (serve_uart t s) m low high
    ∙ ap (λ p. (m == t.claimed) || bit p m) (serve_uart-keeps t s).0

pub handler-interrupt :
    (t : Trap) (s : Irqs) → bit t.mcause 63 ≡ true → mem_trap_handler t s ≡ resumed (dispatch t s)
unfolding mem_trap_handler
handler-interrupt t s external = rw external refl

or_swap : (a b c : Bool) → (a || (b || c)) ≡ ((b || a) || c)
or_swap true true c = refl
or_swap true false c = refl
or_swap false true c = refl
or_swap false false c = refl

-- What traps leave, the word included.
pub record Trapped (ts : List Trap) (s s' : Irqs) : Type 0 where
  pub pends :
      (m : ℕ) → 0 < m → m < max_irqs → bit s'.pending m ≡ (is_claimed m ts || bit s.pending m)
  pub came : Came ts s s'

pub trap_all-Trapped :
    {ts : List Trap}
    → AreInterrupts ts
    → (s : Irqs) → s.pending < 2 ^ 64
    → (s' : Irqs) × ((trap_all ts s ≡ resumed s') × Trapped ts s s')
unfolding trap_all
trap_all-Trapped no_traps s below =
    (s, (refl, record { pends = λ m low high. refl; came = nil-Came s }))
trap_all-Trapped (next {t} {ts} external rest) s below =
    let (s', (ran, trapped)) = trap_all-Trapped rest (dispatch t s) (dispatch-word t s below) in
    (
      s',
      (
        rw (trap_all, handler-interrupt t s external) ran,
        record {
          pends = λ m low high.
              trapped.pends m low high
              ∙ ap (λ b. is_claimed m ts || b) (dispatch-pends t s m low high)
              ∙ or_swap (is_claimed m ts) (m == t.claimed) (bit s.pending m);
          came = trap-Came t s s' trapped.came;
        },
      ),
    )
