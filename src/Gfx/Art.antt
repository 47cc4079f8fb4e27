-- ===== src/Gfx/Art.antt =====
-- kernel/gfx.c: the picture of the mouse cursor.
use beeros.Prelude.{ℕ, zero, suc, Option, none, some, List, [], ◌∷◌}

data Ink : Type 0 where
  skip : Ink
  ink : ℕ → Ink

-- `cursor_art`: '#' is black and '.' white.
cursor_art : List (List Ink)
cursor_art =
    (ink 0 ∷ skip ∷ skip ∷ skip ∷ skip ∷ skip ∷ skip ∷ skip ∷ skip ∷ skip ∷ skip ∷ [])
    ∷ (ink 0 ∷ ink 0 ∷ skip ∷ skip ∷ skip ∷ skip ∷ skip ∷ skip ∷ skip ∷ skip ∷ skip ∷ [])
    ∷ (ink 0 ∷ ink 0xffffff ∷ ink 0 ∷ skip ∷ skip ∷ skip ∷ skip ∷ skip ∷ skip ∷ skip ∷ skip ∷ [])
    ∷ (ink 0
        ∷ ink 0xffffff
        ∷ ink 0xffffff
        ∷ ink 0
        ∷ skip
        ∷ skip
        ∷ skip
        ∷ skip
        ∷ skip
        ∷ skip
        ∷ skip
        ∷ [])
    ∷ (ink 0
        ∷ ink 0xffffff
        ∷ ink 0xffffff
        ∷ ink 0xffffff
        ∷ ink 0
        ∷ skip
        ∷ skip
        ∷ skip
        ∷ skip
        ∷ skip
        ∷ skip
        ∷ [])
    ∷ (ink 0
        ∷ ink 0xffffff
        ∷ ink 0xffffff
        ∷ ink 0xffffff
        ∷ ink 0xffffff
        ∷ ink 0
        ∷ skip
        ∷ skip
        ∷ skip
        ∷ skip
        ∷ skip
        ∷ [])
    ∷ (ink 0
        ∷ ink 0xffffff
        ∷ ink 0xffffff
        ∷ ink 0xffffff
        ∷ ink 0xffffff
        ∷ ink 0xffffff
        ∷ ink 0
        ∷ skip
        ∷ skip
        ∷ skip
        ∷ skip
        ∷ [])
    ∷ (ink 0
        ∷ ink 0xffffff
        ∷ ink 0xffffff
        ∷ ink 0xffffff
        ∷ ink 0xffffff
        ∷ ink 0xffffff
        ∷ ink 0xffffff
        ∷ ink 0
        ∷ skip
        ∷ skip
        ∷ skip
        ∷ [])
    ∷ (ink 0
        ∷ ink 0xffffff
        ∷ ink 0xffffff
        ∷ ink 0xffffff
        ∷ ink 0xffffff
        ∷ ink 0xffffff
        ∷ ink 0xffffff
        ∷ ink 0xffffff
        ∷ ink 0
        ∷ skip
        ∷ skip
        ∷ [])
    ∷ (ink 0
        ∷ ink 0xffffff
        ∷ ink 0xffffff
        ∷ ink 0xffffff
        ∷ ink 0xffffff
        ∷ ink 0xffffff
        ∷ ink 0xffffff
        ∷ ink 0xffffff
        ∷ ink 0xffffff
        ∷ ink 0
        ∷ skip
        ∷ [])
    ∷ (ink 0
        ∷ ink 0xffffff
        ∷ ink 0xffffff
        ∷ ink 0xffffff
        ∷ ink 0xffffff
        ∷ ink 0xffffff
        ∷ ink 0
        ∷ ink 0
        ∷ ink 0
        ∷ ink 0
        ∷ ink 0
        ∷ [])
    ∷ (ink 0
        ∷ ink 0xffffff
        ∷ ink 0xffffff
        ∷ ink 0
        ∷ ink 0xffffff
        ∷ ink 0xffffff
        ∷ ink 0
        ∷ skip
        ∷ skip
        ∷ skip
        ∷ skip
        ∷ [])
    ∷ (ink 0
        ∷ ink 0xffffff
        ∷ ink 0
        ∷ skip
        ∷ ink 0
        ∷ ink 0xffffff
        ∷ ink 0xffffff
        ∷ ink 0
        ∷ skip
        ∷ skip
        ∷ skip
        ∷ [])
    ∷ (ink 0
        ∷ ink 0
        ∷ skip
        ∷ skip
        ∷ ink 0
        ∷ ink 0xffffff
        ∷ ink 0xffffff
        ∷ ink 0
        ∷ skip
        ∷ skip
        ∷ skip
        ∷ [])
    ∷ (ink 0
        ∷ skip
        ∷ skip
        ∷ skip
        ∷ skip
        ∷ ink 0
        ∷ ink 0xffffff
        ∷ ink 0xffffff
        ∷ ink 0
        ∷ skip
        ∷ skip
        ∷ [])
    ∷ (skip ∷ skip ∷ skip ∷ skip ∷ skip ∷ skip ∷ ink 0 ∷ ink 0 ∷ skip ∷ skip ∷ skip ∷ [])
    ∷ []

at_row : ℕ → List (List Ink) → List Ink
at_row r [] = []
at_row zero (row ∷ rows) = row
at_row (suc r) (row ∷ rows) = at_row r rows

at_column : ℕ → List Ink → Option ℕ
at_column c [] = none
at_column zero (skip ∷ row) = none
at_column zero (ink v ∷ row) = some v
at_column (suc c) (a ∷ row) = at_column c row

pub cursor_ink : ℕ → ℕ → Option ℕ
cursor_ink r c = at_column c (at_row r cursor_art)
