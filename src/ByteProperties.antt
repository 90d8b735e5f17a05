-- ===== src/ByteProperties.antt =====
-- src/hex_view/byte_properties.rs: the lines beside the hexadecimal dump that show the bytes at the
-- main cursor as numbers and as characters.
pub mod Chars
pub mod Decoding
use Prim.Native.String.{String}
use tofu_hex_editor.Prelude.{
  ℕ, zero, suc, ◌+◌, ◌-◌, ◌*◌, ◌/◌, ◌%◌, Bool, Option, none, some, ◌>>=◌, List, [], ◌∷◌, ◌++◌,
  length, take, replicate, ltb, leb, ◌==◌, if◌then◌else◌,
}
use tofu_hex_editor.Prelude.Int.{ℤ, pos, negsuc}
use tofu_hex_editor.Printing.{codes, decimal}
use tofu_hex_editor.Modes.Command.{byte_len}
use tofu_hex_editor.Style.{
  Color, reset, blue, red, dark_magenta, ansi_value, Command, StylingCommand, default,
  with_start_style, basic, draw, draw_hex_byte, colorize_byte, make_padding, is_ascii_graphic,
}
use tofu_hex_editor.ByteProperties.Chars.{utf8_into_char, utf16_into_char, be_bytes}

abbrev style_with : Color → StylingCommand
style_with color = with_start_style default (record {
  style = record { foreground_color = some color; background_color = some reset; attributes = 0 };
  priority = basic;
})

abbrev pub bin_zero_style : StylingCommand
bin_zero_style = style_with (ansi_value 150)

abbrev pub bin_one_style : StylingCommand
bin_one_style = style_with blue

abbrev pub invalid_data_style : StylingCommand
invalid_data_style = style_with red

abbrev pub default_style : StylingCommand
default_style = style_with dark_magenta

abbrev pub default_value_style : StylingCommand
default_value_style = style_with (ansi_value 150)

-- The lowest `width` binary digits of a number, as `{:08b}` prints a byte.
abbrev pub binary : ℕ → ℕ → List ℕ
binary zero n = []
binary (suc width) n = binary width (n / 2) ++ (b'0' + n % 2) ∷ []

unfoldable pub draw_bits : List ℕ → List Command
draw_bits [] = []
draw_bits (c ∷ digits) =
    (if c == b'0' then draw (b'0' ∷ []) bin_zero_style else draw (b'1' ∷ []) bin_one_style)
    ++ draw_bits digits

unfoldable pub format_binary_byte : ℕ → List Command
unfolding draw_bits
format_binary_byte byte = draw_bits (binary 8 byte)

abbrev pub signed_decimal : ℕ → ℤ → List ℕ
signed_decimal fuel (pos n) = decimal fuel n
signed_decimal fuel (negsuc n) = b'-' ∷ decimal fuel (suc n)

-- A word of `2 * half` values as a signed integer.
abbrev pub as_signed : ℕ → ℕ → ℤ
as_signed half n = if ltb n half then pos n else negsuc (2 * half - n - 1)

-- Zeros before the bytes, to make them four.
abbrev pub bytes_to_4_byte_vec : List ℕ → List ℕ
bytes_to_4_byte_vec bytes = replicate (4 - length bytes) 0 ++ take 4 bytes

abbrev draw_all : (ℕ → List Command) → List ℕ → List Command
draw_all f [] = []
draw_all f (byte ∷ bytes) = f byte ++ draw_all f bytes

abbrev pub first_byte : List ℕ → ℕ
first_byte [] = 0
first_byte (byte ∷ bytes) = byte

-- `BytePropertiesFormatter`; its `data` has at most four bytes.
pub record Formatter : Type 0 where
  pub bytes : List ℕ
  pub line : ℕ

-- None is the failed assertion.
abbrev pub new : List ℕ → Option Formatter
new bytes = if ltb 4 (length bytes) then none else some (record { bytes = bytes; line = 0 })

abbrev pub height : ℕ
height = 5

abbrev pub are_all_printed : Formatter → Bool
are_all_printed f = ltb (height - 1) f.line

abbrev value_hex : ℕ → List Command
value_hex byte = draw_hex_byte byte (colorize_byte byte default_value_style)

-- A literal, and the padding behind it.
abbrev pub padded : List ℕ → StylingCommand → ℕ → Option (List Command)
padded literal style len =
    if ltb 12 len
    then none
    else make_padding (12 - len) >>= λ p. some (draw literal style ++ draw p default_style)

-- `debug` is the form `{:x?}` of a character, which the standard library prints.
module _ (debug : ℕ → List ℕ) where
  abbrev pub format_char : ℕ → List ℕ
  format_char c = if is_ascii_graphic c then c ∷ [] else debug c

  -- The lines 2 to 4: two values with a label before each.
  abbrev pub labelled :
      String → Option (List Command) → String → List Command → Option (List Command)
  labelled first value second rest = value >>= λ shown.
      some (draw (codes first) default_style ++ shown ++ draw (codes second) default_style ++ rest)

  abbrev pub utf8_value : Option ℕ → Option (List Command)
  utf8_value (some c) = padded (format_char c) default_value_style (byte_len (format_char c))
  utf8_value none = padded (0xfffd ∷ []) invalid_data_style 1

  abbrev pub utf16_value : Option ℕ → List Command
  utf16_value (some c) = draw (format_char c) default_value_style
  utf16_value none = draw (0xfffd ∷ []) invalid_data_style

  -- What the line with this number shows; none is a panic.
  unfoldable pub line_of : ℕ → List ℕ → Option (List Command)
  line_of zero bytes = some (
      draw (codes "hex u8: ") default_style
      ++ value_hex (first_byte bytes)
      ++ draw (codes "          hex u32: ") default_style
      ++ draw_all value_hex bytes)
  line_of (suc zero) bytes = some (
      draw (codes "bin u8: ") default_style
      ++ format_binary_byte (first_byte bytes)
      ++ draw (codes "     bin u32: ") default_style
      ++ draw_all (λ byte. format_binary_byte byte ++ draw (32 ∷ []) default_style) bytes)
  line_of (suc (suc zero)) bytes =
      let literal = decimal 3 (first_byte bytes) in
      labelled "dec u8: " (padded literal default_value_style (length literal)) " dec u32: "
        (draw (decimal 10 (be_bytes (bytes_to_4_byte_vec bytes))) default_value_style)
  line_of (suc (suc (suc zero))) bytes =
      let literal = signed_decimal 3 (as_signed 0x80 (first_byte bytes)) in
      labelled "dec i8: " (padded literal default_value_style (length literal)) " dec i32: " (
        draw (signed_decimal 10 (as_signed 0x80000000 (be_bytes (bytes_to_4_byte_vec bytes))))
          default_value_style)
  line_of (suc (suc (suc (suc zero)))) bytes =
      labelled " utf-8: " (utf8_value (utf8_into_char bytes)) "  utf-16: "
        (utf16_value (utf16_into_char bytes))
  line_of n bytes = some []

  unfoldable pub draw_line : Formatter → Option (List Command × Formatter)
  unfolding line_of
  draw_line f =
      line_of f.line f.bytes >>= λ commands. some (commands, record f { line = f.line + 1 })
