-- ===== src/Style.antt =====
-- src/hex_view/mod.rs: what is queued for the terminal, the styles of the bytes, and how a byte is
-- drawn. Commands of crossterm are values here, and queueing one does not fail.
use tofu_hex_editor.Prelude.{
  ℕ, ◌/◌, ◌%◌, Bool, ◌&&◌, ◌||◌, Option, none, some, List, [], ◌∷◌, ◌++◌, replicate, leb, ltb, ◌==◌,
  if◌then◌else◌,
}
use tofu_hex_editor.Printing.{hex_digit}

pub data Color : Type 0 where
  reset black white blue red cyan green yellow dark_red dark_grey dark_yellow dark_magenta : Color
  ansi_value : ℕ → Color
  rgb : ℕ → ℕ → ℕ → Color

-- `attributes` is a set of bits; 0 is the empty set.
pub record ContentStyle : Type 0 where
  pub foreground_color : Option Color
  pub background_color : Option Color
  pub attributes : ℕ

pub data ClearType : Type 0 where
  all current_line until_new_line : ClearType

-- The commands that are queued; a text is the list of its characters.
pub data Command : Type 0 where
  print : List ℕ → Command
  print_styled_content : ContentStyle → List ℕ → Command
  set_foreground_color set_background_color : Color → Command
  set_attributes : ℕ → Command
  move_to : ℕ → ℕ → Command
  clear : ClearType → Command
  scroll_up scroll_down : ℕ → Command

abbrev pub color_null : Color
color_null = ansi_value 150

abbrev pub color_ascii_printable : Color
color_ascii_printable = cyan

abbrev pub color_ascii_whitespace : Color
color_ascii_whitespace = green

abbrev pub color_ascii_other : Color
color_ascii_other = rgb 232 52 210

abbrev pub color_nonascii : Color
color_nonascii = yellow

pub data Priority : Type 0 where
  basic mark selection cursor : Priority

pub record PrioritizedStyle : Type 0 where
  pub style : ContentStyle
  pub priority : Priority

pub record StylingCommand : Type 0 where
  pub start : Option PrioritizedStyle
  pub mid : Option PrioritizedStyle
  pub end : Option PrioritizedStyle

-- `StylingCommand::default`
abbrev pub default : StylingCommand
default = record { start = none; mid = none; end = none }

abbrev style_of : Option PrioritizedStyle → Option ContentStyle
style_of none = none
style_of (some p) = some p.style

abbrev pub start_style : StylingCommand → Option ContentStyle
start_style s = style_of s.start

abbrev pub mid_style : StylingCommand → Option ContentStyle
mid_style s = style_of s.mid

abbrev pub end_style : StylingCommand → Option ContentStyle
end_style s = style_of s.end

abbrev pub with_start_style : StylingCommand → PrioritizedStyle → StylingCommand
with_start_style s style = record s { start = some style }

abbrev pub with_mid_to_end : StylingCommand → StylingCommand
with_mid_to_end s = record { start = s.start; mid = none; end = s.mid }

abbrev pub take_end_only : StylingCommand → StylingCommand
take_end_only s = record { start = none; mid = none; end = s.end }

abbrev pub with_mid_style : StylingCommand → PrioritizedStyle → StylingCommand
with_mid_style s style = record s { mid = some style }

abbrev pub with_end_style : StylingCommand → PrioritizedStyle → StylingCommand
with_end_style s style = record s { end = some style }

-- A command for a part of a style that is there.
abbrev pub queue_color : (Color → Command) → Option Color → List Command
queue_color command none = []
queue_color command (some color) = command color ∷ []

unfoldable pub queue_style : ContentStyle → List Command
queue_style style =
    queue_color set_foreground_color style.foreground_color
    ++ queue_color set_background_color style.background_color
    ++ (if style.attributes == 0 then [] else set_attributes style.attributes ∷ [])

-- `if let Some(cmd) = … { queue_style(stdout, cmd)? }`
unfoldable pub queue_if : Option ContentStyle → List Command
unfolding queue_style
queue_if none = []
queue_if (some style) = queue_style style

-- `u8::is_ascii_graphic` and `u8::is_ascii_whitespace`
abbrev pub is_ascii_graphic : ℕ → Bool
is_ascii_graphic byte = leb 0x21 byte && leb byte 0x7e

abbrev pub is_ascii_whitespace : ℕ → Bool
is_ascii_whitespace byte = byte == 0x20 || byte == 0x9 || byte == 0xa || byte == 0xc || byte == 0xd

unfoldable pub get_byte_color : ℕ → Color
get_byte_color byte =
    if byte == 0
    then color_null
    else if is_ascii_graphic byte
    then color_ascii_printable
    else if is_ascii_whitespace byte
    then color_ascii_whitespace
    else if ltb byte 0x80
    then color_ascii_other
    else color_nonascii

abbrev default_content_style : ContentStyle
default_content_style = record { foreground_color = none; background_color = none; attributes = 0 }

-- `start_style().unwrap_or(&default_content_style)`
abbrev or_default : Option ContentStyle → ContentStyle
or_default none = default_content_style
or_default (some style) = style

unfoldable pub colorize_byte : ℕ → StylingCommand → StylingCommand
unfolding get_byte_color
colorize_byte byte style_cmd =
    let start = or_default (start_style style_cmd) in
    with_start_style style_cmd (record {
      style = record {
        foreground_color = some (get_byte_color byte);
        background_color = start.background_color;
        attributes = start.attributes;
      };
      priority = basic;
    })

-- None is the panic of `debug_assert!` or of the slice: a release build only has the latter.
unfoldable pub make_padding : ℕ → Option (List ℕ)
make_padding len = if ltb 64 len then none else some (replicate len 32)

abbrev pub byte_ascii_repr : ℕ → List ℕ
byte_ascii_repr byte = if is_ascii_graphic byte || byte == 0x20 then byte ∷ [] else b'.' ∷ []

unfoldable pub draw_hex_byte : ℕ → StylingCommand → List Command
unfolding colorize_byte queue_if
draw_hex_byte byte style =
    let style_cmd = colorize_byte byte style in
    queue_if (start_style style_cmd)
    ++ print (hex_digit (byte / 16) ∷ []) ∷ queue_if (mid_style style_cmd)
    ++ print (hex_digit (byte % 16) ∷ []) ∷ queue_if (end_style style_cmd)
    ++ print (32 ∷ []) ∷ []

unfoldable pub draw_ascii_byte : ℕ → StylingCommand → List Command
unfolding colorize_byte queue_if
draw_ascii_byte byte style =
    let style_cmd = colorize_byte byte style in
    queue_if (start_style style_cmd)
    ++ print (byte_ascii_repr byte) ∷ queue_if (end_style style_cmd)

unfoldable pub draw : List ℕ → StylingCommand → List Command
unfolding queue_if
draw c style = queue_if (start_style style) ++ print c ∷ queue_if (end_style style)
