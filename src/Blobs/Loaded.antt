-- ===== src/Blobs/Loaded.antt =====
-- kernel/blob_loader.c and kernel/beer_libs.c: what each load comes to, whatever the texts do.
use Prim.Native.String.{String}
use beeros.Prelude.{
  ℕ, ◌+◌, ◌-◌, ◌≡◌, refl, ◌∙◌, Bool, true, false, ◌&&◌, Option, none, some, List, [], ◌∷◌, ◌++◌,
  arith, ◌⊎◌, inl, inr, sym,
}
use mathlib.Core.Path.{subst}
use mathlib.Core.Bool.{false≢true}
use beeros.Blobs.{
  Runtime, Boot, Library, loaded, beer_load_blob, recorded, beer_load_lib, load_all, beer_libraries,
  with_blobs, beer_load_libraries,
}

module _ {W : Type 0} (run : Runtime W) where
  -- *loaded-libs* has the name besides what it had when the text had been run; where it is no map,
  -- nothing is done.
  pub data Registered (ns : String) (w : W) : W → Type 0 where
    no_map : run.loaded_libs w ≡ none → Registered ns w w
    into_map :
        (libs : List String) {w' : W}
        → run.loaded_libs w ≡ some libs
        → run.loaded_libs w' ≡ some (ns ∷ libs)
        → Registered ns w w'

  -- The load of one library, from the state `s`: for want of one of the two allocations the text is
  -- not run, and this is printed; it is run and fails, which is printed and not recorded; or it goes
  -- well, prints nothing of the loader's own and is recorded.
  pub data Load (lib : Library) (src_ok vm_ok : Bool) (s : Boot W) : Bool → Boot W → Type 0 where
    no_memory :
        {s' : Boot W}
        → (src_ok && vm_ok) ≡ false
        → s'.world ≡ s.world
        → s'.printed ≡ s.printed ++ ("[beeros] out of memory loading " ∷ lib.path ∷ "\r\n" ∷ [])
        → Load lib src_ok vm_ok s false s'
    fails :
        (msg : String) {s' : Boot W}
        → (src_ok && vm_ok) ≡ true
        → run.load_source (some lib.ns) lib.path (lib.text ++ (0 ∷ [])) s.world
          ≡ (some msg, s'.world)
        → s'.printed ≡ s.printed ++ ("[beeros] " ∷ msg ∷ "\r\n" ∷ [])
        → Load lib src_ok vm_ok s false s'
    goes_well :
        (w : W) {s' : Boot W}
        → (src_ok && vm_ok) ≡ true
        → run.load_source (some lib.ns) lib.path (lib.text ++ (0 ∷ [])) s.world ≡ (none, w)
        → Registered lib.ns w s'.world
        → s'.printed ≡ s.printed
        → Load lib src_ok vm_ok s true s'

  -- One load after the other, each giving back what it allocated.
  pub data Loads : List (Library × (Bool × Bool)) → Boot W → List Bool → Boot W → Type 0 where
    finished : {s : Boot W} → Loads [] s [] s
    then_load :
        {lib : Library} {src_ok vm_ok ok : Bool} {libs : List (Library × (Bool × Bool))}
        {s s' s'' : Boot W} {oks : List Bool}
        → Load lib src_ok vm_ok s ok s'
        → s'.held ≡ s.held
        → Loads libs s' oks s''
        → Loads ((lib, (src_ok, vm_ok)) ∷ libs) s (ok ∷ oks) s''

  registered :
      (ns : String) (s : Boot W)
      → Registered ns s.world (recorded run ns (true, s)).1.world
        × ((recorded run ns (true, s)).0 ≡ true)
        × ((recorded run ns (true, s)).1.held ≡ s.held)
        × ((recorded run ns (true, s)).1.printed ≡ s.printed)
  unfolding recorded
  registered ns s = go (run.loaded_libs s.world) refl
    where
      go :
          (o : Option (List String))
          → run.loaded_libs s.world ≡ o
          → let r : Bool × Boot W = elim o as (λ x. Bool × Boot W) [
            | none ↦ (true, s)
            | some libs ↦ (true, record s { world = run.assoc_lib ns s.world })
          ] in
            Registered ns s.world r.1.world
            × (r.0 ≡ true)
            × (r.1.held ≡ s.held)
            × (r.1.printed ≡ s.printed)
      go none e = (no_map e, refl, refl, refl)
      go (some libs) e =
          (into_map libs e (run.loaded_libs-assoc_lib ns s.world libs e), refl, refl, refl)

  unrecorded : (ns : String) (s : Boot W) → recorded run ns (false, s) ≡ (false, s)
  unfolding recorded
  unrecorded ns s = go (run.loaded_libs s.world)
    where
      go :
          (o : Option (List String))
          → Path
              (Bool × Boot W)
              (elim o as (λ x. Bool × Boot W) [ none ↦ (false, s) | some libs ↦ (false, s) ])
              (false, s)
      go none = refl
      go (some libs) = refl

  module _ (lib : Library) (src_ok vm_ok : Bool) (s : Boot W) where
    source : Option String × W
    source = run.load_source (some lib.ns) lib.path (lib.text ++ (0 ∷ [])) s.world

    -- What beer_load_blob comes to: a load that fails, or a text that has run well.
    Ran : Bool × Boot W → Type 0
    Ran r =
        (r.0 ≡ false) × Load lib src_ok vm_ok s false r.1 × (r.1.held ≡ s.held)
        ⊎ (r.0 ≡ true)
          × ((src_ok && vm_ok) ≡ true)
          × (source ≡ (none, r.1.world))
          × (r.1.printed ≡ s.printed)
          × (r.1.held ≡ s.held)

    loaded-Ran :
        (p : Option String × W)
        → source ≡ p
        → (src_ok && vm_ok) ≡ true
        → let s' : Boot W = record s { world = p.1; held = s.held + 1 + 1 - 1 - 1 } in
          Ran (elim p.0 as (λ x. Bool × Boot W) [
            | none ↦ (true, s')
            | some msg ↦
                (false, record s' { printed = s.printed ++ ("[beeros] " ∷ msg ∷ "\r\n" ∷ []) })
          ])
    unfolding Ran source
    loaded-Ran (none, w) e granted = inr (refl, granted, e, refl, omega arith)
    loaded-Ran (some msg, w) e granted = inl (refl, fails msg granted e refl, omega arith)

    then_recorded :
        (r : Bool × Boot W)
        → Ran r
        → Load lib src_ok vm_ok s (recorded run lib.ns r).0 (recorded run lib.ns r).1
          × ((recorded run lib.ns r).1.held ≡ s.held)
    unfolding Ran source
    then_recorded (false, s') (inl (e, load, held)) = rw (unrecorded lib.ns s') (load, held)
    then_recorded (false, s') (inr (e, a, b, c, d)) = absurd (false≢true e)
    then_recorded (true, s') (inl (e, a, b)) = absurd (false≢true (sym e))
    then_recorded (true, s') (inr (e, granted, ran, quiet, held)) =
        let (recorded_name, answer, same_held, same_printed) = registered lib.ns s' in
        (
          subst (λ b. Load lib src_ok vm_ok s b (recorded run lib.ns (true, s')).1) (sym answer)
              (goes_well s'.world granted ran recorded_name (same_printed ∙ quiet)),
          same_held ∙ held,
        )

  blob-Ran :
      (src_ok vm_ok : Bool) (lib : Library) (s : Boot W)
      → Ran lib src_ok vm_ok s (beer_load_blob run src_ok vm_ok lib.text lib.path (some lib.ns) s)
  unfolding beer_load_blob loaded
  blob-Ran true true lib s = unfold source in loaded-Ran lib true true s _ refl refl
  blob-Ran true false lib s = unfold Ran in inl (refl, no_memory refl refl refl, omega arith)
  blob-Ran false vm_ok lib s = unfold Ran in inl (refl, no_memory refl refl refl, ground arith)

  load_all-Loads :
      (libs : List (Library × (Bool × Bool))) (s : Boot W)
      → Loads libs s (load_all run libs s).0 (load_all run libs s).1
        × ((load_all run libs s).1.held ≡ s.held)
  unfolding load_all beer_load_lib
  load_all-Loads [] s = (finished, refl)
  load_all-Loads ((lib, (src_ok, vm_ok)) ∷ libs) s =
      let blob = beer_load_blob run src_ok vm_ok lib.text lib.path (some lib.ns) s in
      let (load, held) = then_recorded lib src_ok vm_ok s blob (blob-Ran src_ok vm_ok lib s) in
      let (loads, then_held) = load_all-Loads libs (recorded run lib.ns blob).1 in
      (then_load load held loads, then_held ∙ held)

-- Whatever the texts do and whatever memory there is: beer_load_libraries loads all the libraries
-- in their order, whatever the earlier loads came to. A text is not run only for want of memory; a
-- load that fails is reported and not recorded; one that goes well is recorded in *loaded-libs*,
-- besides what the map has when the text has been run, if it is a map then. What was allocated for
-- a load has been given back when the next one begins, and at the end.
pub beer_load_libraries-Loads :
    {W : Type 0} (run : Runtime W) (blobs : ℕ → List ℕ) (grants : ℕ → Bool × Bool) (s : Boot W)
    → let (oks, s') = beer_load_libraries run blobs grants s in
      Loads run (with_blobs beer_libraries blobs grants 0) s oks s' × (s'.held ≡ s.held)
unfolding beer_load_libraries
beer_load_libraries-Loads run blobs grants s =
    load_all-Loads run (with_blobs beer_libraries blobs grants 0) s
