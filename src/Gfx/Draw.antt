-- ===== src/Gfx/Draw.antt =====
-- kernel/gfx.c: the drawing functions on surfaces and on the screen, and compositing.
mod Fill
mod Bits
mod Copies
mod Owned
unfoldable pub use beeros.Gfx.Draw.Fill.{
  u32_mod, rect, paint_rect, pixels_of, drawn, gfx_fill_rect_on, gfx_fill_rect, gfx_set_pixel,
}
unfoldable pub use beeros.Gfx.Draw.Bits.{blit_bits_loops, gfx_blit_bits_on}
pub use beeros.Gfx.Draw.Bits.{bit_on, gfx_blit_bits}
unfoldable pub use beeros.Gfx.Draw.Copies.{
  copy_extent, move_row, copy_rows, gfx_copy_rect_on, gfx_blit_pixels_on, blit_line,
  blit_surface_loops, gfx_blit_surface,
}
pub use beeros.Gfx.Draw.Copies.{gfx_copy_rect}
unfoldable pub use beeros.Gfx.Draw.Owned.{
  gfx_own, is_off_screen, gfx_owner_at, owned, present_on, gfx_present, fill_owned_on,
  gfx_fill_owned,
}
