-- ===== src/Vga.antt =====
-- The display: src/vga.rs. The text cells and the CRTC registers are functions of the index; the
-- framebuffer is a list, whose length bounds it.
mod Tests
use cuddles.Base.{
  ℕ, ◌+◌, ◌-◌, ◌*◌, ◌^◌, Bool, true, false, ◌&&◌, ◌||◌, List, [], bit_and, bit_or, ◌==◌, ltb, leb,
  if◌then◌else◌, ◌<<<◌, u8, u16, replicate, get_or, set, update,
}

abbrev pub text_cols : ℕ
text_cols = 80

abbrev pub text_rows : ℕ
text_rows = 25

abbrev mode13_w : ℕ
mode13_w = 320

abbrev mode13_h : ℕ
mode13_h = 200

abbrev mode12_w : ℕ
mode12_w = 640

abbrev mode12_h : ℕ
mode12_h = 480

pub record Vga : Type 0 where
  pub crtc_index : ℕ
  pub crtc : ℕ → ℕ
  pub mode : ℕ
  pub text : ℕ → ℕ
  pub framebuffer : List ℕ
  pub fb_w : ℕ
  pub fb_h : ℕ
  pub cursor_row : ℕ
  pub cursor_col : ℕ

unfoldable pub new : Vga
new = record {
  crtc_index = 0;
  crtc = λ i. 0;
  mode = 0x03;
  text = λ i. 0x0720;
  framebuffer = [];
  fb_w = 0;
  fb_h = 0;
  cursor_row = 0;
  cursor_col = 0;
}

pub set_mode : ℕ → Vga → ℕ × Vga
set_mode mode v =
    let graphics = λ (w h : ℕ). record v {
      mode = mode;
      fb_w = w;
      fb_h = h;
      framebuffer = replicate (w * h) 0;
    } in
    let text = record v {
      mode = mode;
      text = λ i. 0x0720;
      fb_w = 0;
      fb_h = 0;
      framebuffer = [];
      cursor_row = 0;
      cursor_col = 0;
    } in
    (
      mode,
      if mode == 0x12
          then graphics mode12_w mode12_h
          else if mode == 0x13
          then graphics mode13_w mode13_h
          else text,
    )

pub is_graphics : Vga → Bool
is_graphics v = v.mode == 0x12 || v.mode == 0x13

pub put_char_at : ℕ → ℕ → ℕ → ℕ → Vga → Vga
put_char_at row col ch attr v =
    if ltb row text_rows && ltb col text_cols
    then record v { text = update v.text (row * text_cols + col) (bit_or (u16 (attr <<< 8)) ch) }
    else v

pub put_pixel : ℕ → ℕ → ℕ → Vga → Vga
put_pixel x y color v =
    if is_graphics v && ltb x v.fb_w && ltb y v.fb_h
    then record v { framebuffer = set v.framebuffer (y * v.fb_w + x) color }
    else v

pub get_pixel : ℕ → ℕ → Vga → ℕ
get_pixel x y v =
    if is_graphics v && ltb x v.fb_w && ltb y v.fb_h
    then get_or v.framebuffer (y * v.fb_w + x) 0
    else 0

pub scroll : Vga → Vga
scroll v = record v {
  text = λ i. if ltb i (text_cols * (text_rows - 1)) then v.text (i + text_cols) else 0x0720;
}

pub write_crtc_index : ℕ → Vga → Vga
write_crtc_index val v = record v { crtc_index = bit_and val 0x1F }

pub write_crtc_data : ℕ → Vga → Vga
write_crtc_data val v = record v { crtc = update v.crtc v.crtc_index val }

pub read_crtc_data : Vga → ℕ
read_crtc_data v = v.crtc v.crtc_index

abbrev start_hi : ℕ
start_hi = 0x0C

abbrev start_lo : ℕ
start_lo = 0x0D

abbrev cursor_hi : ℕ
cursor_hi = 0x0E

abbrev cursor_lo : ℕ
cursor_lo = 0x0F

pub start_cell : Vga → ℕ
start_cell v = bit_or (v.crtc start_hi <<< 8) (v.crtc start_lo)

pub cursor_cell : Vga → ℕ
cursor_cell v = bit_or (v.crtc cursor_hi <<< 8) (v.crtc cursor_lo)
