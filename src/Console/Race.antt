-- ===== src/Console/Race.antt =====
-- kernel/console.c: console_getc_nonblock with the trap handler's console_rx between its single
-- steps. The reader alone writes ring_tail and clears drop; the handler writes all else. `Traps` has
-- what the handler does to a console that is being read, `Reads` what a read then answers.
use beeros.Prelude.{
  ℕ, suc, ◌+◌, ◌-◌, ◌%◌, ◌^◌, ◌≤◌, ◌<◌, ◌≡◌, refl, sym, ap, ◌∙◌, ◌⊎◌, inl, inr, Bool, true, false,
  not, ◌&&◌, ◌||◌, Option, none, some, List, [], ◌∷◌, arith, ltb, leb, ◌==◌, if◌then◌else◌,
  Bool-cases, ltb→lt,
}
use beeros.Prelude.Slice.{update}
use beeros.Console.{
  u32_mod, ring_size, sub32, Console, is_interrupt_key, rx, ahead, after_drop, getc_nonblock,
}
pub mod Traps
pub mod Reads

-- The calls of `console_rx` in one gap between two steps of the reader.
abbrev pub Gap : Type 0
Gap = List (ℕ × Bool)

unfoldable pub traps : Gap → Console → Console
traps [] s = s
traps ((b, is_break) ∷ gap) s = traps gap (rx b is_break s)

pub record Gaps : Type 0 where
  pub flag_read : Gap
  pub flag_cleared : Gap
  pub mark_read : Gap
  pub head_read : Gap
  pub byte_read : Gap

-- From the comparison with ring_head on.
unfoldable pub take_byte : Gaps → ℕ → Console → Option ℕ × Console
take_byte g t s =
    let s' = traps g.head_read s in
    if t == s.ring_head then (none, record s' { ring_tail = t }) else (
      some (s'.ring (t % ring_size)),
      record (traps g.byte_read s') { ring_tail = (t + 1) % u32_mod },
    )

-- The branch that has seen the flag, with what was loaded as `t`.
unfoldable pub read_dropping : Gaps → ℕ → Console → Option ℕ × Console
read_dropping g t s =
    let s' = traps g.flag_cleared (record s { drop = false }) in
    take_byte g (if ahead s'.drop_before t then s'.drop_before else t) (traps g.mark_read s')

-- With the receive interrupt on; `drop` and `ring_tail` are loaded first.
unfoldable pub getc_steps : Gaps → Console → Option ℕ × Console
getc_steps g s =
    let s' = traps g.flag_read s in
    if s.drop
    then read_dropping g s.ring_tail s'
    else take_byte g s.ring_tail (traps g.mark_read s')

abbrev pub undisturbed : Gaps
undisturbed = record {
  flag_read = [];
  flag_cleared = [];
  mark_read = [];
  head_read = [];
  byte_read = [];
}

-- With the receive interrupt on, and no trap in the gaps, the steps are console_getc_nonblock.
pub getc_steps-undisturbed :
    (polled : Option ℕ) (s : Console)
    → s.irq_mode ≡ true
    → getc_steps undisturbed s ≡ getc_nonblock polled s
unfolding getc_steps read_dropping take_byte traps getc_nonblock
getc_steps-undisturbed polled s on = elim (Bool-cases s.drop) [
  | inl flagged ↦ rw (flagged, on) refl
  | inr calm ↦ rw (calm, on) refl
]
