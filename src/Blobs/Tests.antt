-- ===== src/Blobs/Tests.antt =====
-- A load of the libraries of kernel/beer_libs.c over a small runtime, and the theorem at it.
use Prim.Native.String.{String}
use beeros.Prelude.{
  ℕ, ◌≡◌, refl, Bool, true, false, Option, none, some, List, [], ◌∷◌, ◌==◌, if◌then◌else◌,
}
use beeros.Blobs.{
  Runtime, Boot, loaded, beer_load_blob, recorded, beer_load_lib, load_all, beer_libraries,
  with_blobs, beer_load_libraries,
}
use beeros.Blobs.Loaded.{Loads, beer_load_libraries-Loads}

-- A runtime that is only its list of names; a text that begins with a zero fails.
abbrev failure : List ℕ → Option String
failure [] = none
failure (c ∷ l) = if c == 0 then some "empty text" else none

abbrev names_only : Runtime (List String)
names_only = record {
  load_source = λ ns name src w. (failure src, w);
  loaded_libs = λ w. some w;
  assoc_lib = λ ns w. ns ∷ w;
  loaded_libs-assoc_lib = λ ns w libs at. cc;
}

-- The second text is empty, and there is no memory for the third.
abbrev blobs : ℕ → List ℕ
blobs i = if i == 1 then [] else 40 ∷ 41 ∷ []

abbrev grants : ℕ → Bool × Bool
grants i = if i == 2 then (true, false) else (true, true)

abbrev boot : Boot (List String)
boot = record { world = "beer.core" ∷ []; printed = []; held = 0 }

beer_load_libraries-Loads_example :
    let (oks, s') = beer_load_libraries names_only blobs grants boot in
    Loads names_only (with_blobs beer_libraries blobs grants 0) boot oks s' × (s'.held ≡ 0)
beer_load_libraries-Loads_example = beer_load_libraries-Loads names_only blobs grants boot

outcomes :
    (beer_load_libraries names_only blobs grants boot).0
    ≡ true ∷ false ∷ false ∷ true ∷ true ∷ true ∷ true ∷ true ∷ true ∷ true ∷ []
unfolding beer_load_libraries load_all beer_load_lib beer_load_blob loaded recorded
outcomes = refl
