-- ===== src/Syscalls/Streams.antt =====
-- kernel/syscall_stubs.c: what `read` takes and what `write` changes.
use beeros.Prelude.{
  ℕ, zero, suc, ◌+◌, ◌≤◌, ◌<◌, ◌≡◌, ◌≢◌, refl, ap, ◌∙◌, ◌⊎◌, inl, inr, Bool, true, false, Option,
  none, some, List, [], ◌∷◌, ◌==◌, if◌then◌else◌, arith,
}
use beeros.Prelude.Slice.{slice}
use beeros.Syscalls.{read_bytes, read}

-- The number of bytes `read` takes: `n`, or fewer with a line feed as the last.
pub Taken : (ℕ → ℕ) → ℕ → ℕ → List ℕ → Type 0
Taken getc i n l =
    (k : ℕ) × (k ≤ n)
    × (l ≡ slice getc i k)
    × ((j : ℕ) → suc j < k → getc (i + j) ≢ 10)
    × ((k ≡ n) ⊎ ((j : ℕ) × (k ≡ suc j) × (getc (i + j) ≡ 10)))

is_line_feed : (a : ℕ) → (a == 10) ≡ true → a ≡ 10
is_line_feed a e = ground arith

no_line_feed : (a : ℕ) → (a == 10) ≡ false → a ≢ 10
no_line_feed a e = ground arith

before-suc :
    (getc : ℕ → ℕ) (i k : ℕ)
    → getc i ≢ 10
    → ((j : ℕ) → suc j < k → getc (i + 1 + j) ≢ 10)
    → (j : ℕ) → suc j < suc k
    → getc (i + j) ≢ 10
before-suc getc i k first later zero h e =
    let start : i ≡ i + 0 = omega arith in first (ap getc start ∙ e)
before-suc getc i k first later (suc j) h e =
    let start : i + 1 + j ≡ i + suc j = omega arith in later j (omega arith) (ap getc start ∙ e)

read_bytes-Taken : (getc : ℕ → ℕ) (i n : ℕ) → Taken getc i n (read_bytes getc i n)
unfolding Taken read_bytes
read_bytes-Taken getc i zero = (0, omega arith, refl, λ j h. absurd (omega arith), inl refl)
read_bytes-Taken getc i (suc n) = go (getc i == 10) refl (read_bytes-Taken getc (i + 1) n)
  where
    go :
        (b : Bool)
        → (getc i == 10) ≡ b
        → Taken getc (i + 1) n (read_bytes getc (i + 1) n)
        → Taken getc i (suc n) (if b then getc i ∷ [] else getc i ∷ read_bytes getc (i + 1) n)
    go true e h = (
      1,
      omega arith,
      refl,
      λ j k. absurd (omega arith),
      inr (0, refl, ap getc (omega arith) ∙ is_line_feed (getc i) e),
    )
    go false e (k, small, same, none_before, end) = (
      suc k,
      omega arith,
      ap (λ l. getc i ∷ l) same,
      before-suc getc i k (no_line_feed (getc i) e) none_before,
      elim end [
        | inl all ↦ inl (ap suc all)
        | inr (j, size, feed) ↦ inr (suc j, ap suc size, ap getc (omega arith) ∙ feed)
      ],
    )

zero_fd : (fd : ℕ) → (fd == 0) ≡ true → fd ≡ 0
zero_fd fd e = ground arith

other_fd : (fd : ℕ) → (fd == 0) ≡ false → fd ≢ 0
other_fd fd e = ground arith

-- What `read` answers on descriptor `fd` for `n` bytes.
pub IsRead : (ℕ → ℕ) → ℕ → ℕ → Option (List ℕ) → Type 0
IsRead getc fd n r =
    (fd ≡ 0) × ((l : List ℕ) × (r ≡ some l) × Taken getc 0 n l) ⊎ (fd ≢ 0) × (r ≡ none)

-- `read` of descriptor 0 takes the next bytes of the input in their order: `n` of them, or fewer
-- up to the first line feed, which it takes too; on other descriptors it fails.
pub read-IsRead : (getc : ℕ → ℕ) (fd n : ℕ) → IsRead getc fd n (read getc fd n)
unfolding read IsRead
read-IsRead getc fd n = go (fd == 0) refl
  where
    go :
        (b : Bool)
        → (fd == 0) ≡ b
        → IsRead getc fd n (if b then some (read_bytes getc 0 n) else none)
    go true e = inl (zero_fd fd e, (read_bytes getc 0 n, refl, read_bytes-Taken getc 0 n))
    go false e = inr (other_fd fd e, refl)
