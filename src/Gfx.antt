-- ===== src/Gfx.antt =====
-- kernel/gfx.c: surfaces, drawing, compositing and the mouse cursor, and kernel/gfx_natives.c.
pub mod Paint
pub mod Clip
pub mod Art
pub mod Surface
pub mod Draw
pub mod Region
pub mod Pixels
pub mod Picks
pub mod Owner
pub mod Freed
pub mod Copy
pub mod Cells
pub mod Cursor
pub mod Natives
pub mod Buffers
mod Tests
