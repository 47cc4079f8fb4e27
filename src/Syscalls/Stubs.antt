-- ===== src/Syscalls/Stubs.antt =====
-- kernel/syscall_stubs.c: the callbacks of the standard streams, and the calls that have no file
-- system, no process and no directory behind them.
use beeros.Prelude.{ℕ, suc, ◌%◌, ◌≡◌, refl, ap, Bool, Option, List, [], ◌∷◌, ◌++◌, length}
use beeros.Console.Capture.{console_write}
use beeros.Syscalls.{Outputs, write, read}

pub data Errno : Type 0 where
  einval enosys ebadf espipe : Errno

-- `failed` is -1, or NULL for the calls that answer a pointer, with errno set.
pub data StubResult : Type 0 where
  done : ℕ → StubResult
  failed : Errno → StubResult

unfoldable pub uart_put : ℕ → Outputs → ℕ × Outputs
uart_put c o = (0, record o { uart = o.uart ++ console_write (c ∷ []) })

-- `c` is what `uart_getc` answers.
unfoldable pub uart_get : ℕ → ℕ
uart_get c = c % 256

unfoldable pub uart_flush : ℕ
uart_flush = 0

unfoldable pub kill : ℕ → ℕ → StubResult
kill pid sig = failed einval

unfoldable pub getpid : ℕ
getpid = 1

unfoldable pub open_file : StubResult
open_file = failed enosys

unfoldable pub close : ℕ → StubResult
close fd = done 0

unfoldable pub lseek : ℕ → StubResult
lseek fd = failed espipe

-- `_write` and `_read`.
unfoldable pub sys_write : (ℕ → Bool) → ℕ → List ℕ → Outputs → Option ℕ × Outputs
sys_write realloc_ok fd s o = write realloc_ok fd s o

unfoldable pub sys_read : (ℕ → ℕ) → ℕ → ℕ → Option (List ℕ)
sys_read getc fd n = read getc fd n

-- The mode that `_fstat` stores: S_IFCHR.
unfoldable pub fstat_mode : ℕ
fstat_mode = 0x2000

unfoldable pub execve : StubResult
execve = failed enosys

unfoldable pub fcntl : ℕ → StubResult
fcntl fd = failed enosys

unfoldable pub stat : StubResult
stat = failed enosys

unfoldable pub opendir : StubResult
opendir = failed enosys

unfoldable pub readdir : StubResult
readdir = failed enosys

unfoldable pub closedir : StubResult
closedir = failed enosys

pub record PollFd : Type 0 where
  pub fd : ℕ
  pub wanted : ℕ
  pub ready : ℕ

unfoldable pub set_ready : List PollFd → List PollFd
set_ready [] = []
set_ready (f ∷ fs) = record f { ready = f.wanted } ∷ set_ready fs

unfoldable pub poll : List PollFd → ℕ × List PollFd
poll fds = (length fds, set_ready fds)

-- Every descriptor of the list is ready for all that is wanted, and counted.
abbrev pub AllReady : List PollFd → Type 0
AllReady [] = Unit {0}
AllReady (f ∷ fs) = (f.ready ≡ f.wanted) × AllReady fs

pub poll-AllReady :
    (fds : List PollFd) → ((poll fds).0 ≡ length (poll fds).1) × AllReady (poll fds).1
unfolding poll set_ready
poll-AllReady [] = (refl, tt)
poll-AllReady (f ∷ fs) = let (counted, ready) = poll-AllReady fs in (ap suc counted, (refl, ready))
