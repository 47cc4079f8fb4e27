-- ===== src/Console/Session.antt =====
-- Sequences of what happens to kernel/console.c's input: bytes received, reads, and the switches of
-- the interrupt keys, against the queue with a mark.
use beeros.Prelude.{
  ℕ, ◌+◌, ◌≡◌, refl, ap, ◌∙◌, Bool, true, false, ◌&&◌, ◌||◌, Option, none, List, [], ◌∷◌, ◌++◌,
  arith, ◌==◌, if◌then◌else◌,
}
use beeros.Console.{Console, is_interrupt_key, rx, getc_nonblock, set_reading}
use beeros.Console.Ring.{
  Pending, receive, read, IsValid, view, rx-IsValid, rx_refines, getc-IsValid, getc_refines,
}

-- `received b is_break` is a call of `console_rx` from the trap handler, `read` one of
-- `console_getc_nonblock`, `reads` one of `console_set_reading`.
pub data Event : Type 0 where
  received : ℕ → Bool → Event
  asked : Event
  reads : Bool → Event

unfoldable pub step : Event → Console → List (Option ℕ) × Console
step (received b is_break) s = ([], rx b is_break s)
step asked s = let (c, s') = getc_nonblock none s in (c ∷ [], s')
step (reads r) s = ([], set_reading r s)

-- What the reads answer, and the state at the end.
unfoldable pub run : List Event → Console → List (Option ℕ) × Console
unfolding step
run [] s = ([], s)
run (e ∷ es) s = let (out, s') = step e s in let (outs, s'') = run es s' in (out ++ outs, s'')

-- The specification: the queue with its mark, whether a line is being read, whether Ctrl-C
-- interrupts, and how often an interrupt was asked for.
pub record Spec : Type 0 where
  pub pending : Pending
  pub reading : Bool
  pub ctrl_c : Bool
  pub interrupts : ℕ

-- A BREAK or Ctrl-\ always interrupts, Ctrl-C if it is on and no line is being read.
unfoldable pub interrupts_on : ℕ → Bool → Bool → Bool → Bool
interrupts_on b true reading on = true
interrupts_on b false true on = b == 0x1c
interrupts_on b false false on = b == 0x1c || (on && (b == 0x03))

unfoldable pub spec_step : Event → Spec → List (Option ℕ) × Spec
unfolding interrupts_on
spec_step (received b is_break) p =
    let key = interrupts_on b is_break p.reading p.ctrl_c in
    (
      [],
      record p {
        pending = receive key b p.pending;
        interrupts = if key then p.interrupts + 1 else p.interrupts;
      },
    )
spec_step asked p = let (c, q) = read p.pending in (c ∷ [], record p { pending = q })
spec_step (reads r) p = ([], record p { reading = r })

unfoldable pub spec_run : List Event → Spec → List (Option ℕ) × Spec
unfolding spec_step
spec_run [] p = ([], p)
spec_run (e ∷ es) p =
    let (out, p') = spec_step e p in let (outs, p'') = spec_run es p' in (out ++ outs, p'')

abbrev pub spec_of : Console → Spec
spec_of s = record {
  pending = view s;
  reading = s.reading;
  ctrl_c = s.ctrl_c_interrupts;
  interrupts = s.interrupts;
}

key_lem :
    (b : ℕ) (is_break : Bool) (s : Console)
    → is_interrupt_key b is_break s ≡ interrupts_on b is_break s.reading s.ctrl_c_interrupts
unfolding is_interrupt_key interrupts_on
key_lem b is_break s = ground arith

step-IsValid : (e : Event) {s : Console} → IsValid s → IsValid (step e s).1
unfolding step set_reading
step-IsValid (received b is_break) ok = rx-IsValid ok b is_break
step-IsValid asked ok = getc-IsValid ok none
step-IsValid (reads r) ok = record {
  interrupt_driven = ok.interrupt_driven;
  words = ok.words;
  count = ok.count;
  mark = ok.mark;
}

rx_switches :
    (b : ℕ) (is_break : Bool) (s : Console)
    → let key = interrupts_on b is_break s.reading s.ctrl_c_interrupts in
      let s' = rx b is_break s in
      (s'.reading ≡ s.reading)
      × (s'.ctrl_c_interrupts ≡ s.ctrl_c_interrupts)
      × (s'.interrupts ≡ (if key then s.interrupts + 1 else s.interrupts))
unfolding rx
rx_switches b is_break s = rw (key_lem b is_break s) (ground arith)

getc_switches :
    (s : Console)
    → let s' = (getc_nonblock none s).1 in
      (s'.reading ≡ s.reading)
      × (s'.ctrl_c_interrupts ≡ s.ctrl_c_interrupts)
      × (s'.interrupts ≡ s.interrupts)
unfolding getc_nonblock
getc_switches s = ground arith

step_refines :
    (e : Event) {s : Console}
    → IsValid s
    → let (out, s') = step e s in (out, spec_of s') ≡ spec_step e (spec_of s)
unfolding step spec_step set_reading
step_refines (received b is_break) {s} ok =
    let p = rx_refines ok b is_break ∙ ap (λ k. receive k b (view s)) (key_lem b is_break s) in
    let (r, c, n) = rx_switches b is_break s in
    λ i. ([], record { pending = p i; reading = r i; ctrl_c = c i; interrupts = n i })
step_refines asked {s} ok =
    let p = getc_refines ok none in
    let (r, c, n) = getc_switches s in
    λ i. ((p i).0 ∷ [], record { pending = (p i).1; reading = r i; ctrl_c = c i; interrupts = n i })
step_refines (reads r) ok = refl

-- For every sequence of received bytes, reads and switches, from every valid state: the reads answer
-- what the queue with its mark answers, as many interrupts are asked for, and the state at the end is
-- valid and stands for the queue at the end.
pub run_refines :
    (es : List Event) {s : Console}
    → IsValid s
    → let (outs, s') = run es s in ((outs, spec_of s') ≡ spec_run es (spec_of s)) × IsValid s'
unfolding run spec_run
run_refines [] ok = (refl, ok)
run_refines (e ∷ es) {s} ok =
    let (p, ok') = run_refines es (step-IsValid e ok) in
    (rw (← step_refines e ok) (λ i. ((step e s).0 ++ (p i).0, (p i).1)), ok')
