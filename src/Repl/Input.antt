-- ===== src/Repl/Input.antt =====
-- From the UART's interrupt to the REPL's line: bytes that console_rx of kernel/console.c receives
-- while uart_readline of kernel/repl_uart.c polls console_getc_nonblock.
use beeros.Prelude.{
  ℕ, zero, suc, ◌+◌, ◌-◌, ◌≤◌, ◌<◌, ◌≡◌, refl, sym, ap, ◌∙◌, Bool, true, false, not, ◌&&◌, ◌||◌,
  Option, none, some, List, [], ◌∷◌, ◌++◌, arith, ltb, leb, ◌==◌, if◌then◌else◌, length, drop,
  length-append,
}
use mathlib.Core.List.{append_assoc, append-nil}
use beeros.Console.{Console, ring_size}
use beeros.Console.Ring.{Pending, receive, read, read_queue, IsValid}
use beeros.Console.Session.{
  Event, received, asked, reads, run, Spec, interrupts_on, spec_step, spec_run, spec_of,
  run_refines,
}
use beeros.Repl.{Turn, typed, idle, Answer, line, reverse_onto, read_turns, uart_readline}

-- Bytes arrive, none of them an interrupt key, and the reader polls.
pub data Plain : List Event → Type 0 where
  nothing : Plain []
  byte :
      {b : ℕ} {es : List Event}
      → (b == 0x03) ≡ false
      → (b == 0x1c) ≡ false
      → Plain es
      → Plain (received b false ∷ es)
  poll : {es : List Event} → Plain es → Plain (asked ∷ es)

abbrev pub arrived : List Event → List ℕ
arrived [] = []
arrived (received b is_break ∷ es) = b ∷ arrived es
arrived (asked ∷ es) = arrived es
arrived (reads r ∷ es) = arrived es

-- What the polls answered, and the turns of uart_readline that they are.
abbrev pub delivered : List (Option ℕ) → List ℕ
delivered [] = []
delivered (none ∷ os) = delivered os
delivered (some c ∷ os) = c ∷ delivered os

abbrev pub turns_of : List (Option ℕ) → List Turn
turns_of [] = []
turns_of (none ∷ os) = idle ∷ turns_of os
turns_of (some c ∷ os) = typed c ∷ turns_of os

abbrev pub all_typed : List ℕ → List Turn
all_typed [] = []
all_typed (c ∷ l) = typed c ∷ all_typed l

not_key :
    (b : ℕ) (reading on : Bool)
    → (b == 0x03) ≡ false
    → (b == 0x1c) ≡ false
    → interrupts_on b false reading on ≡ false
unfolding interrupts_on
not_key b true on c k = k
not_key b false on c k = ground (arith, c, k)

receive_plain :
    (b : ℕ) (q : List ℕ) (p : Pending)
    → p ≡ record { queue = q; stale = 0 }
    → length q < ring_size
    → receive false b p ≡ record { queue = q ++ (b ∷ []); stale = 0 }
unfolding receive
receive_plain b q p at room =
    let fits : leb ring_size (length q) ≡ false = ground arith in
    ap
      (λ (x : Pending).
        if leb ring_size (length x.queue) then x else record x { queue = x.queue ++ (b ∷ []) })
      at
    ∙ rw fits refl

read_plain :
    (q : List ℕ) (p : Pending) → p ≡ record { queue = q; stale = 0 } → read p ≡ read_queue q
unfolding read
read_plain q p at = ap (λ (x : Pending). read_queue (drop x.stale x.queue)) at

-- What a read and the events after it deliver and leave.
after_read : List Event → Spec → Option ℕ × Pending → List ℕ
after_read es p (c, q) =
    let (outs, p') = spec_run es (record p { pending = q }) in
    delivered (c ∷ outs) ++ p'.pending.queue

-- Nothing is lost or reordered on the way.
spec_run-order :
    (es : List Event) (q : List ℕ) (p : Spec)
    → Plain es
    → p.pending ≡ record { queue = q; stale = 0 }
    → length q + length (arrived es) ≤ ring_size
    → delivered (spec_run es p).0 ++ (spec_run es p).1.pending.queue ≡ q ++ arrived es
unfolding spec_run spec_step after_read read_queue
spec_run-order [] q p nothing at room = ap (λ (x : Pending). x.queue) at ∙ sym (append-nil q)
spec_run-order (received b true ∷ es) q p plain at room = elim plain [ ]
spec_run-order (reads r ∷ es) q p plain at room = elim plain [ ]
spec_run-order (received b false ∷ es) q p (byte c k plain) at room =
    let key = not_key b p.reading p.ctrl_c c k in
    let kept =
      ap (λ x. receive x b p.pending) key ∙ receive_plain b q p.pending at (omega (arith, room)) in
    spec_run-order es (q ++ (b ∷ [])) _ plain kept (omega (arith, room, length-append q (b ∷ [])))
    ∙ append_assoc q (b ∷ []) (arrived es)
spec_run-order (asked ∷ es) [] p (poll plain) at room =
    ap (after_read es p) (read_plain [] p.pending at) ∙ spec_run-order es [] _ plain refl room
spec_run-order (asked ∷ es) (b ∷ q) p (poll plain) at room =
    ap (after_read es p) (read_plain (b ∷ q) p.pending at)
    ∙ ap (λ l. b ∷ l) (spec_run-order es q _ plain refl (omega (arith, room)))

-- A poll that found nothing changes nothing.
read_turns-turns_of :
    (os : List (Option ℕ)) (room : ℕ) (buf : List ℕ)
    → read_turns room buf (turns_of os) ≡ read_turns room buf (all_typed (delivered os))
unfolding read_turns
read_turns-turns_of os zero buf = refl
read_turns-turns_of [] (suc room) buf = refl
read_turns-turns_of (none ∷ os) (suc room) buf = read_turns-turns_of os (suc room) buf
read_turns-turns_of (some c ∷ os) (suc room) [] =
    rw (read_turns-turns_of os (suc room) [], read_turns-turns_of os room (c ∷ [])) refl
read_turns-turns_of (some c ∷ os) (suc room) (d ∷ buf) =
    rw
      (
        read_turns-turns_of os (suc room) (d ∷ buf),
        read_turns-turns_of os (suc (suc room)) buf,
        read_turns-turns_of os room (c ∷ d ∷ buf),
      )
      refl

-- No control character, and none that erases.
abbrev pub is_printable : ℕ → Bool
is_printable c = leb 32 c && not (c == 127)

abbrev pub Printable : List ℕ → Type 0
Printable [] = Unit {0}
Printable (c ∷ l) = (is_printable c ≡ true) × Printable l

read_turns-return :
    (room : ℕ) (buf : List ℕ)
    → read_turns (suc room) buf (typed 13 ∷ []) ≡ (line (reverse_onto buf (10 ∷ [])), 13 ∷ 10 ∷ [])
unfolding read_turns reverse_onto
read_turns-return room [] = refl
read_turns-return room (d ∷ buf) = refl

read_turns-printable :
    (room : ℕ) (buf : List ℕ) (c : ℕ) (turns : List Turn)
    → is_printable c ≡ true
    → let (answer, chars) = read_turns room (c ∷ buf) turns in
      read_turns (suc room) buf (typed c ∷ turns) ≡ (answer, c ∷ chars)
unfolding read_turns
read_turns-printable room [] c turns printable =
    let no_return : (c == 13) ≡ false = ground arith in
    let no_control : (c == 127 || (c == 8 || ltb c 32)) ≡ false = ground arith in
    rw (no_return, no_control) refl
read_turns-printable room (d ∷ buf) c turns printable =
    let no_return : (c == 13) ≡ false = ground arith in
    let no_erase : (c == 127 || c == 8) ≡ false = ground arith in
    let no_control : ltb c 32 ≡ false = ground arith in rw (no_return, no_erase, no_control) refl

read_turns-text :
    (l : List ℕ) (room : ℕ) (buf : List ℕ)
    → Printable l
    → length l < room
    → read_turns room buf (all_typed (l ++ (13 ∷ [])))
      ≡ (line (reverse_onto buf (l ++ (10 ∷ []))), l ++ (13 ∷ 10 ∷ []))
unfolding reverse_onto
read_turns-text l zero buf printable lt = absurd (omega (arith, lt))
read_turns-text [] (suc room) buf printable lt = read_turns-return room buf
read_turns-text (c ∷ l) (suc room) buf (here, there) lt =
    read_turns-printable room buf c (all_typed (l ++ (13 ∷ []))) here
    ∙ ap (λ (r : Answer × List ℕ). (r.0, c ∷ r.1))
        (read_turns-text l room (c ∷ buf) there (omega (arith, lt)))

-- A line of printable characters and a return is typed: at most 256 bytes, with no other byte
-- waiting. However the interrupts that receive it and the polls of uart_readline follow each other,
-- if nothing is left waiting at the end, uart_readline with room for the line answers exactly it,
-- with a line feed at its end, and has echoed it.
pub uart_readline-run :
    (es : List Event) (l : List ℕ) {s : Console} (max : ℕ)
    → IsValid s
    → (spec_of s).pending ≡ record { queue = []; stale = 0 }
    → Plain es
    → arrived es ≡ l ++ (13 ∷ [])
    → length (arrived es) ≤ ring_size
    → (spec_of (run es s).1).pending.queue ≡ []
    → Printable l
    → length l + 1 < max
    → uart_readline max (turns_of (run es s).0) ≡ (line (l ++ (10 ∷ [])), l ++ (13 ∷ 10 ∷ []))
unfolding uart_readline
uart_readline-run es l {s} max ok idle_at plain text few all_read printable room =
    let (same, _) = run_refines es ok in
    let order = spec_run-order es [] (spec_of s) plain idle_at (omega (arith, few)) in
    let outs_same : (run es s).0 ≡ (spec_run es (spec_of s)).0 = ap (λ r. r.0) same in
    let left_same : (spec_of (run es s).1).pending.queue
        ≡ (spec_run es (spec_of s)).1.pending.queue =
      ap (λ r. r.1.pending.queue) same in
    let all : delivered (run es s).0 ≡ l ++ (13 ∷ []) =
      ap delivered outs_same
      ∙ sym (append-nil (delivered (spec_run es (spec_of s)).0))
      ∙ ap (λ q. delivered (spec_run es (spec_of s)).0 ++ q) (sym all_read ∙ left_same)
      ∙ order
      ∙ text in
    read_turns-turns_of (run es s).0 (max - 1) []
    ∙ ap (λ t. read_turns (max - 1) [] (all_typed t)) all
    ∙ (unfold reverse_onto in read_turns-text l (max - 1) [] printable (omega (arith, room)))
