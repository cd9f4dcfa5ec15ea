-- ===== src/Vga/Tests.antt =====
-- Runs of the display at concrete inputs, from the tests of src/vga.rs.
use cuddles.Base.{◌≡◌, refl, false, [], ◌∷◌}
use cuddles.Vga.{
  Vga, new, set_mode, is_graphics, put_char_at, put_pixel, get_pixel, scroll, write_crtc_index,
  write_crtc_data, read_crtc_data, start_cell, cursor_cell,
}

text_run :
    let v = put_char_at 1 2 0x41 0x07 new in
    (v.text 82 ≡ 0x0741)
    × ((scroll v).text 2 ≡ 0x0741)
    × ((scroll v).text 1999 ≡ 0x0720)
    × (is_graphics v ≡ false)
    × (put_char_at 25 0 0x41 0x07 v ≡ v)
unfolding new put_char_at scroll is_graphics
text_run = (refl, refl, refl, refl, refl)

-- A frame of four pixels in a graphics mode.
abbrev small_frame : Vga
unfolding new
small_frame = record new { mode = 0x13; fb_w = 2; fb_h = 2; framebuffer = 0 ∷ 0 ∷ 0 ∷ 0 ∷ [] }

pixel_run :
    (get_pixel 1 1 (put_pixel 1 1 0x3C small_frame) ≡ 0x3C)
    × (get_pixel 0 1 (put_pixel 1 1 0x3C small_frame) ≡ 0)
    × (put_pixel 2 0 0x3C small_frame ≡ small_frame)
    × ((set_mode 0x03 small_frame).1.framebuffer ≡ [])
unfolding small_frame new get_pixel put_pixel is_graphics set_mode
pixel_run = (refl, refl, refl, refl)

register_run :
    let v = write_crtc_data 0x50 (write_crtc_index 0x2D new) in
    let w = write_crtc_data 0x01 (write_crtc_index 0x0E v) in
    (read_crtc_data v ≡ 0x50) × (start_cell w ≡ 0x50) × (cursor_cell w ≡ 0x100)
unfolding new write_crtc_data write_crtc_index read_crtc_data start_cell cursor_cell
register_run = (refl, refl, refl)
