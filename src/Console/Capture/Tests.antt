-- ===== src/Console/Capture/Tests.antt =====
-- Runs of the capture streams of kernel/console.c, and their theorems at these.
use beeros.Prelude.{
  ◌+◌, ◌≤◌, ◌≡◌, refl, true, none, some, [], ◌∷◌, ◌++◌, inl, arith, take, ltb, if◌then◌else◌,
}
use beeros.Prelude.Int.{pos}
use beeros.Beerlang.{fixnum}
use beeros.Console.Capture.{
  Capture, Captures, capture_fd0, capture_max, console_write, contents, console_capture_write,
  native_release_output, utf8_tail, tail_loop, take_output,
}
use beeros.Console.Capture.Utf8.{take_output_lem}
use beeros.Console.Capture.Write.{read_lines, read_lines-console_write}
use beeros.Console.Capture.Slots.{release-write}

-- é, and the first byte of another.
abbrev half : Capture
half = record {
  used = true;
  buf = λ i. if ltb i 1 then 0xc3 else if ltb i 2 then 0xa9 else 0xc3;
  len = 3;
  cap = 256;
}

half_taken : (take_output half).0 ≡ some (0xc3 ∷ 0xa9 ∷ [])
unfolding take_output utf8_tail tail_loop
half_taken = refl

abbrev empty : Captures
empty = λ i. record { used = true; buf = λ _. 0; len = 0; cap = 0 }

release-write_example :
    let t' = (console_capture_write (λ _. true) (capture_fd0 + 2) (104 ∷ 10 ∷ []) empty).1 in
    let t'' = native_release_output (fixnum (pos 2) ∷ []) empty in
    ((console_capture_write (λ _. true) (capture_fd0 + 2) (104 ∷ 10 ∷ []) empty).0 ≡ some 2)
    × (contents (t' 2) ≡ take capture_max ([] ++ console_write (104 ∷ 10 ∷ [])))
    × (console_capture_write (λ _. true) (capture_fd0 + 2) (104 ∷ 10 ∷ []) t'' ≡ (none, t''))
release-write_example =
    release-write (λ _. true) 2 (104 ∷ 10 ∷ []) empty (λ n. refl) (omega arith) refl
      (record { filled = omega arith; size = inl refl })

take_output_lem_example :
    (contents half
      ≡ (elim (take_output half).0 [ none ↦ [] | some s ↦ s ]) ++ contents (take_output half).1)
    × ((take_output half).1.len ≡ utf8_tail half.buf 3)
    × ((take_output half).1.len ≤ 3)
take_output_lem_example = take_output_lem half

read_lines-console_write_example :
    read_lines (console_write (13 ∷ 10 ∷ 65 ∷ [])) ≡ 13 ∷ 10 ∷ 65 ∷ []
read_lines-console_write_example = read_lines-console_write (13 ∷ 10 ∷ 65 ∷ [])
