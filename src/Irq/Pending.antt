-- ===== src/Irq/Pending.antt =====
-- What any sequence of traps and takes leaves: traps may also arrive while an interrupt is taken.
use beeros.Prelude.{
  ℕ, ◌^◌, ◌<◌, ◌≡◌, refl, ap, ◌∙◌, Bool, true, not, ◌&&◌, ◌||◌, List, [], ◌∷◌, ◌++◌, ◌==◌,
}
use beeros.Prelude.Bits.{bit, clear_bit, bit-clear_bit, clear_bit-bound}
use beeros.Irq.{
  Irqs, Trap, max_irqs, dispatch, resumed, trap_all, consume, Event, trap, taken, event, events,
}
use beeros.Irq.Traps.{
  AreInterrupts, Came, nil-Came, trap-Came, append-Came, dispatch-word, dispatch-pends,
  handler-interrupt, trap_all-Trapped,
}

-- Every trap is an interrupt, and what is taken is an interrupt that there can be.
pub data IsQuiet : List Event → Type 0 where
  nothing : IsQuiet []
  interrupt :
      {t : Trap} {es : List Event} → bit t.mcause 63 ≡ true → IsQuiet es → IsQuiet (trap t ∷ es)
  take :
      {n : ℕ} {between : List Trap} {es : List Event}
      → n < max_irqs
      → AreInterrupts between
      → IsQuiet es
      → IsQuiet (taken n between ∷ es)

-- The specification: interrupt m is pending if it was claimed after it was last taken, but not
-- while another one was being taken.
abbrev pub is_pending : ℕ → List Event → Bool → Bool
is_pending m [] p = p
is_pending m (trap t ∷ es) p = is_pending m es ((m == t.claimed) || p)
is_pending m (taken n between ∷ es) p = is_pending m es (not (m == n) && p)

-- All the traps, in their order.
abbrev pub arrived : List Event → List Trap
arrived [] = []
arrived (trap t ∷ es) = t ∷ arrived es
arrived (taken n between ∷ es) = between ++ arrived es

pub record Served (es : List Event) (s s' : Irqs) : Type 0 where
  pub word : s'.pending < 2 ^ 64
  pub pends : (m : ℕ) → 0 < m → m < max_irqs → bit s'.pending m ≡ is_pending m es (bit s.pending m)
  pub came : Came (arrived es) s s'

pub nil-Served : (s : Irqs) → s.pending < 2 ^ 64 → Served [] s s
nil-Served s below = record { word = below; pends = λ m low high. refl; came = nil-Came s }

trap-Served :
    (t : Trap) {es : List Event} (s s' : Irqs)
    → Served es (dispatch t s) s'
    → Served (trap t ∷ es) s s'
trap-Served t {es} s s' rest = record {
  word = rest.word;
  pends =
      λ m low high. rest.pends m low high ∙ ap (is_pending m es) (dispatch-pends t s m low high);
  came = trap-Came t s s' rest.came;
}

-- The word after a take, whatever the traps between its load and its store.
cleared : (s u : Irqs) → ℕ → Irqs
cleared s u n = record u { pending = clear_bit s.pending n }

cleared-Came : {ts : List Trap} (s u : Irqs) (n : ℕ) → Came ts s u → Came ts s (cleared s u n)
unfolding cleared
cleared-Came s u n came = record {
  completions = came.completions;
  console = came.console;
  table = came.table;
}

taken-Served :
    (n : ℕ) (between : List Trap) {es : List Event} (s u s' : Irqs)
    → Came between s u
    → Served es (cleared s u n) s'
    → Served (taken n between ∷ es) s s'
taken-Served n between {es} s u s' came rest = record {
  word = rest.word;
  pends = λ m low high.
      rest.pends m low high ∙ ap (is_pending m es) (unfold cleared in bit-clear_bit s.pending n m);
  came = append-Came between (arrived es) s (cleared s u n) s' (cleared-Came s u n came) rest.came;
}

events-interrupt :
    (t : Trap) (es : List Event) (s : Irqs)
    → bit t.mcause 63 ≡ true
    → events (trap t ∷ es) s ≡ events es (dispatch t s)
unfolding events event
events-interrupt t es s external = rw (events, handler-interrupt t s external) refl

events-taken :
    (n : ℕ) (between : List Trap) (es : List Event) (s u : Irqs)
    → trap_all between s ≡ resumed u
    → events (taken n between ∷ es) s ≡ events es (cleared s u n)
unfolding events event consume cleared
events-taken n between es s u ran = rw (events, consume, ran) refl

-- Whatever interrupts come and are taken, each take by a load and a store between which others may
-- come: the handler returns each time; interrupt m, from 1 to 63, is pending at the end just if it
-- was claimed after it was last taken, or pending before and never taken, not counting the claims
-- between the load and the store of a take; the controller is told the end of the claims from 1 to
-- 63, those included, in their order, and of no other; and the console has received what the UART
-- had at each of its interrupts.
pub events-Served :
    {es : List Event}
    → IsQuiet es
    → (s : Irqs) → s.pending < 2 ^ 64
    → (s' : Irqs) × ((events es s ≡ resumed s') × Served es s s')
unfolding events
events-Served nothing s below = (s, (refl, nil-Served s below))
events-Served (interrupt {t} {es} external rest) s below =
    let (s', (ran, served)) = events-Served rest (dispatch t s) (dispatch-word t s below) in
    (s', (events-interrupt t es s external ∙ ran, trap-Served t s s' served))
events-Served (take {n} {between} {es} lt traps rest) s below =
    let (u, (came_in, trapped)) = trap_all-Trapped traps s below in
    let (s', (ran, served)) =
      events-Served rest (cleared s u n)
        (unfold cleared in clear_bit-bound 64 s.pending n below lt) in
    (
      s',
      (
        events-taken n between es s u came_in ∙ ran,
        taken-Served n between s u s' trapped.came served,
      ),
    )
