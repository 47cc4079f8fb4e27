-- ===== src/Ramfb/Files.antt =====
-- fwcfg_find_file of platform/virt-riscv/hal/gfx_ramfb.c, against a directory that is written as
-- QEMU's fw_cfg gives it.
use beeros.Prelude.{
  ℕ, zero, suc, ◌-◌, ◌/◌, ◌%◌, ◌^◌, ◌<◌, ◌≡◌, refl, ap, ◌∙◌, sym, Bool, true, not, ◌&&◌, List, [],
  ◌∷◌, ◌++◌, arith, ◌==◌, if◌then◌else◌, length, length-append, list_equal,
}
use beeros.Ramfb.{
  be16, fwcfg_read8, fwcfg_read, entry_size, entry_select, entry_name, name_size, strncmp_equal,
  find_entry, read_count, fwcfg_find_file,
}

-- A file of the directory: its size, its selector and its name.
pub record File : Type 0 where
  pub size : ℕ
  pub selector : ℕ
  pub name : List ℕ

abbrev pub zeros : ℕ → List ℕ
zeros zero = []
zeros (suc n) = 0 ∷ zeros n

abbrev pub be_bytes2 : ℕ → List ℕ
be_bytes2 v = v / 2 ^ 8 % 2 ^ 8 ∷ v % 2 ^ 8 ∷ []

abbrev pub be_bytes4 : ℕ → List ℕ
be_bytes4 v = v / 2 ^ 24 % 2 ^ 8 ∷ v / 2 ^ 16 % 2 ^ 8 ∷ v / 2 ^ 8 % 2 ^ 8 ∷ v % 2 ^ 8 ∷ []

-- The 64 bytes of an entry: size, selector, two reserved bytes, and the name with zeros behind it.
abbrev pub entry_bytes : File → List ℕ
entry_bytes f =
    be_bytes4 f.size
    ++ be_bytes2 f.selector
    ++ zeros 2
    ++ f.name
    ++ zeros (name_size - length f.name)

abbrev pub entries : List File → List ℕ
entries [] = []
entries (f ∷ fs) = entry_bytes f ++ entries fs

abbrev pub directory : List File → List ℕ
directory fs = be_bytes4 (length fs) ++ entries fs

-- The specification: the selector of the first file of that name, 0 without one.
abbrev pub selector_of : List ℕ → List File → ℕ
selector_of name [] = 0
selector_of name (f ∷ fs) = if list_equal f.name name then f.selector else selector_of name fs

-- A string has no zero in it.
abbrev pub no_zero : List ℕ → Bool
no_zero [] = true
no_zero (x ∷ xs) = not (x == 0) && no_zero xs

-- Names fit with their terminator, and selectors have 16 bits.
pub data AreValid : List File → Type 0 where
  none_left : AreValid []
  also :
      {f : File} {fs : List File}
      → length f.name < name_size
      → no_zero f.name ≡ true
      → f.selector < 2 ^ 16
      → AreValid fs
      → AreValid (f ∷ fs)

length-zeros : (n : ℕ) → length (zeros n) ≡ n
length-zeros zero = refl
length-zeros (suc n) = ap suc (length-zeros n)

fwcfg_read-append : (xs rest : List ℕ) → fwcfg_read (length xs) (xs ++ rest) ≡ (xs, rest)
unfolding fwcfg_read fwcfg_read8
fwcfg_read-append [] rest = refl
fwcfg_read-append (x ∷ xs) rest = rw (fwcfg_read-append xs rest) refl

strncmp_equal-names :
    (n : ℕ) (xs ys : List ℕ) (pad : ℕ)
    → length xs < n
    → no_zero xs ≡ true
    → no_zero ys ≡ true
    → strncmp_equal n (xs ++ zeros (suc pad)) ys ≡ list_equal xs ys
unfolding strncmp_equal
strncmp_equal-names zero xs ys pad lt nx ny = absurd (omega arith)
strncmp_equal-names (suc n) [] [] pad lt nx ny = refl
strncmp_equal-names (suc n) [] (y ∷ ys) pad lt nx ny = ground arith
strncmp_equal-names (suc n) (x ∷ xs) [] pad lt nx ny = ground arith
strncmp_equal-names (suc n) (x ∷ xs) (y ∷ ys) pad lt nx ny =
    ground (arith, strncmp_equal-names n xs ys pad (omega arith) (ground arith) (ground arith))

length-entry_bytes : (f : File) → length f.name < name_size → length (entry_bytes f) ≡ entry_size
length-entry_bytes f lt = omega (
  arith,
  length-append f.name (zeros (name_size - length f.name)),
  length-zeros (name_size - length f.name),
)

read_entry :
    (f : File) (rest : List ℕ)
    → length f.name < name_size
    → fwcfg_read entry_size (entry_bytes f ++ rest) ≡ (entry_bytes f, rest)
read_entry f rest lt =
    ap (λ n. fwcfg_read n (entry_bytes f ++ rest)) (sym (length-entry_bytes f lt))
    ∙ fwcfg_read-append (entry_bytes f) rest

entry_bytes-select :
    (f : File) → f.selector < 2 ^ 16 → be16 (entry_select (entry_bytes f)) ≡ f.selector
unfolding be16
entry_bytes-select f lt = omega arith

entry_bytes-name :
    (f : File) (name : List ℕ)
    → length f.name < name_size
    → no_zero f.name ≡ true
    → no_zero name ≡ true
    → strncmp_equal name_size (entry_name (entry_bytes f)) name ≡ list_equal f.name name
entry_bytes-name f name lt nx ny =
    let pad = name_size - length f.name - 1 in
    let e : name_size - length f.name ≡ suc pad = omega arith in
    ap (λ n. strncmp_equal name_size (f.name ++ zeros n) name) e
    ∙ strncmp_equal-names name_size f.name name pad lt nx ny

find_entry-selector :
    {fs : List File} (name : List ℕ)
    → AreValid fs
    → no_zero name ≡ true
    → find_entry (length fs) name (entries fs) ≡ selector_of name fs
unfolding find_entry
find_entry-selector name none_left ny = refl
find_entry-selector name (also {f} {fs} lt nx small valid) ny =
    rw
      (
        read_entry f (entries fs) lt,
        entry_bytes-name f name lt nx ny,
        entry_bytes-select f small,
        find_entry-selector name valid ny,
      )
      refl

read_count-directory :
    (fs : List File) → length fs < 2 ^ 32 → read_count (directory fs) ≡ (length fs, entries fs)
unfolding read_count fwcfg_read8
read_count-directory fs lt = ap (λ n. (n, entries fs)) (omega arith)

-- Where the selector register, which is big-endian, makes a written 0x1900 the directory 0x0019, with
-- fewer than 2^32 files whose names fit with their terminator and whose selectors have 16 bits:
-- fwcfg_find_file answers the selector of the first file that has the name, and 0 if there is none.
pub fwcfg_find_file_lem :
    {fs : List File} (items : ℕ → List ℕ) (name : List ℕ)
    → items 0x1900 ≡ directory fs
    → length fs < 2 ^ 32
    → AreValid fs
    → no_zero name ≡ true
    → fwcfg_find_file items name ≡ selector_of name fs
unfolding fwcfg_find_file be16
fwcfg_find_file_lem {fs} items name listed few valid ny =
    rw (listed, read_count-directory fs few) (find_entry-selector name valid ny)
