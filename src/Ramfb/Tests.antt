-- ===== src/Ramfb/Tests.antt =====
-- The search and the set-up of platform/virt-riscv/hal/gfx_ramfb.c on a small directory.
use beeros.Prelude.{ℕ, ◌≡◌, ◌⊎◌, refl, true, none, some, List, [], ◌∷◌, arith, ◌==◌, if◌then◌else◌}
use beeros.Prelude.Int.{pos}
use beeros.Gfx.Surface.{Gfx}
use beeros.Ramfb.{Place, Started, ramfb_name, fwcfg_find_file, gfx_init_ramfb}
use beeros.Ramfb.Files.{
  File, directory, selector_of, AreValid, none_left, also, fwcfg_find_file_lem,
}
use beeros.Ramfb.Device.{Seen, gfx_init_ramfb-Seen}

-- "boot" and "etc/ramfb".
abbrev files : List File
files =
    record { size = 12; selector = 0x20; name = 98 ∷ 111 ∷ 111 ∷ 116 ∷ [] }
    ∷ record { size = 28; selector = 0x259; name = ramfb_name }
    ∷ []

abbrev items : ℕ → List ℕ
items i = if i == 0x1900 then directory files else []

abbrev files-AreValid : AreValid files
files-AreValid =
    also (omega arith) refl (omega arith) (also (omega arith) refl (omega arith) none_left)

fwcfg_find_file_lem_example : fwcfg_find_file items ramfb_name ≡ selector_of ramfb_name files
fwcfg_find_file_lem_example =
    fwcfg_find_file_lem items ramfb_name refl (omega arith) files-AreValid refl

found : fwcfg_find_file items ramfb_name ≡ 0x259
found = fwcfg_find_file_lem items ramfb_name refl (omega arith) files-AreValid refl

abbrev place : Place
place = record {
  fb_addr = 0x87000000;
  fb = λ _. 7;
  config_addr = 0x80001000;
  dma_addr = 0x80002000;
}

abbrev no_screen : Gfx
no_screen = record {
  surfaces = λ _. none;
  owner = none;
  cursor = record { x = pos 0; y = pos 0; is_shown = true; saved = λ _. 0 };
}

gfx_init_ramfb-Seen_example :
    ((fwcfg_find_file items ramfb_name ≡ 0) × (gfx_init_ramfb true items place no_screen ≡ none))
    ⊎ ((s : Started) × ((gfx_init_ramfb true items place no_screen ≡ some s)
          × Seen (fwcfg_find_file items ramfb_name) place s))
gfx_init_ramfb-Seen_example =
    gfx_init_ramfb-Seen true items place no_screen (omega arith) (omega arith) (omega arith)
