-- ===== src/Blobs.antt =====
-- kernel/blob_loader.c and kernel/beer_libs.c: the embedded libraries and the order of their load.
-- beerlang's reader and compiler are a parameter, `Runtime`. `Loaded` has the theorem.
use Prim.Native.String.{String}
use beeros.Prelude.{
  ℕ, ◌+◌, ◌-◌, ◌≡◌, Bool, true, false, not, ◌&&◌, ◌||◌, Option, none, some, List, [], ◌∷◌, ◌++◌,
  ◌⊎◌, if◌then◌else◌,
}
mod Loaded
mod Tests

-- What the loader uses of beerlang: `core_load_source` and `core_load_source_ns`, which run a text,
-- by name, in a namespace if one is given, and answer an error message if there was one; and the
-- var *loaded-libs*, `none` where it holds no map.
pub record Runtime (W : Type 0) : Type 0 where
  pub load_source : Option String → String → List ℕ → W → Option String × W
  pub loaded_libs : W → Option (List String)
  pub assoc_lib : String → W → W
  pub loaded_libs-assoc_lib :
      (ns : String) (w : W) (libs : List String)
      → loaded_libs w ≡ some libs
      → loaded_libs (assoc_lib ns w) ≡ some (ns ∷ libs)

-- The calls of `uart_puts`; and the blocks and VMs that the loader has not given back.
pub record Boot (W : Type 0) : Type 0 where
  pub world : W
  pub printed : List String
  pub held : ℕ

pub record Library : Type 0 where
  pub text : List ℕ
  pub path : String
  pub ns : String

abbrev pub one_if : Bool → ℕ
one_if b = if b then 1 else 0

module _ {W : Type 0} (run : Runtime W) where
  -- The branch with both allocations.
  unfoldable pub loaded : List ℕ → String → Option String → Boot W → Bool × Boot W
  loaded text name home_ns s =
      let (failure, w) = run.load_source home_ns name (text ++ (0 ∷ [])) s.world in
      let s' : Boot W = record s { world = w; held = s.held - 1 - 1 } in
      elim failure [
        | none ↦ (true, s')
        | some msg ↦ (false, record s' { printed = s.printed ++ ("[beeros] " ∷ msg ∷ "\r\n" ∷ []) })
      ]

  -- `src_ok` and `vm_ok` are whether `malloc` and `vm_new` grant what is asked for.
  unfoldable pub beer_load_blob :
      (src_ok vm_ok : Bool) → List ℕ → String → Option String → Boot W → Bool × Boot W
  beer_load_blob src_ok vm_ok text name home_ns s =
      let s' : Boot W = record s { held = s.held + one_if src_ok + one_if vm_ok } in
      if not src_ok || not vm_ok
      then (
        false,
        record s' {
          printed = s.printed ++ ("[beeros] out of memory loading " ∷ name ∷ "\r\n" ∷ []);
          held = s'.held - one_if src_ok - one_if vm_ok;
        },
      )
      else loaded text name home_ns s'

  unfoldable pub recorded : String → Bool × Boot W → Bool × Boot W
  recorded ns (ok, s) = elim (run.loaded_libs s.world) [
    | none ↦ (ok, s)
    | some libs ↦ (ok, if ok then record s { world = run.assoc_lib ns s.world } else s)
  ]

  unfoldable pub beer_load_lib : (src_ok vm_ok : Bool) → Library → Boot W → Bool × Boot W
  beer_load_lib src_ok vm_ok lib s =
      recorded lib.ns (beer_load_blob src_ok vm_ok lib.text lib.path (some lib.ns) s)

  -- One load after the other, whatever each comes to; `grants` are the answers of the allocators.
  unfoldable pub load_all : List (Library × (Bool × Bool)) → Boot W → List Bool × Boot W
  load_all [] s = ([], s)
  load_all ((lib, (src_ok, vm_ok)) ∷ libs) s =
      let (ok, s') = beer_load_lib src_ok vm_ok lib s in
      let (oks, s'') = load_all libs s' in (ok ∷ oks, s'')

  unfoldable pub beer_run_init : (src_ok vm_ok : Bool) → List ℕ → Boot W → Bool × Boot W
  beer_run_init src_ok vm_ok text s = beer_load_blob src_ok vm_ok text "<boot>" none s

-- The order of `beer_load_libraries`: a library may use those before it.
abbrev pub beer_libraries : List (String × String)
beer_libraries =
    ("lib/virtio.beer", "beer.virtio")
    ∷ ("lib/virtio_blk.beer", "beer.virtio-blk")
    ∷ ("lib/ext2.beer", "beer.ext2")
    ∷ ("lib/fs.beer", "beer.fs")
    ∷ ("lib/ustar.beer", "beer.ustar")
    ∷ ("lib/pkg.beer", "beer.pkg")
    ∷ ("lib/input.beer", "beer.input")
    ∷ ("lib/virtio_input.beer", "beer.virtio-input")
    ∷ ("lib/tty.beer", "beer.tty")
    ∷ ("lib/lineedit.beer", "beer.lineedit")
    ∷ []

-- `blobs` and `grants` are the embedded texts and the allocators' answers, by position.
abbrev pub with_blobs :
    List (String × String) → (ℕ → List ℕ) → (ℕ → Bool × Bool) → ℕ → List (Library × (Bool × Bool))
with_blobs [] blobs grants i = []
with_blobs ((path, ns) ∷ libs) blobs grants i =
    (record { text = blobs i; path = path; ns = ns }, grants i)
    ∷ with_blobs libs blobs grants (i + 1)

unfoldable pub beer_load_libraries :
    {W : Type 0} → Runtime W → (ℕ → List ℕ) → (ℕ → Bool × Bool) → Boot W → List Bool × Boot W
beer_load_libraries run blobs grants s = load_all run (with_blobs beer_libraries blobs grants 0) s
