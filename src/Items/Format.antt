-- ===== src/Items/Format.antt =====
-- headers/secs.h: the formats of SECS-II items and their codes.
use sc_open.Prelude.{ℕ, Option, none, some, ◌==◌, if◌then◌else◌}

-- The widths of the integers, in bytes.
pub data Width : Type 0 where
  one two four eight : Width

abbrev pub width : Width → ℕ
width one = 1
width two = 2
width four = 4
width eight = 8

-- The formats of the items that hold data.
pub data Format : Type 0 where
  ascii binary boolean : Format
  unsigned signed : Width → Format
  float_4 float_8 : Format

abbrev pub list_code : ℕ
list_code = 0x00

abbrev pub code : Format → ℕ
code ascii = 0x40
code binary = 0x20
code boolean = 0x24
code (unsigned one) = 0xA4
code (unsigned two) = 0xA8
code (unsigned four) = 0xB0
code (unsigned eight) = 0xA0
code (signed one) = 0x64
code (signed two) = 0x68
code (signed four) = 0x70
code (signed eight) = 0x60
code float_4 = 0x90
code float_8 = 0x80

-- The tests of secs_decode() for the format, in their order; the list stands in front of them.
unfoldable pub format_of : ℕ → Option Format
format_of c =
    if c == code ascii
    then some ascii
    else if c == code boolean
    then some boolean
    else if c == code binary
    then some binary
    else if c == code (unsigned one)
    then some (unsigned one)
    else if c == code (unsigned two)
    then some (unsigned two)
    else if c == code (unsigned four)
    then some (unsigned four)
    else if c == code (unsigned eight)
    then some (unsigned eight)
    else if c == code (signed one)
    then some (signed one)
    else if c == code (signed two)
    then some (signed two)
    else if c == code (signed four)
    then some (signed four)
    else if c == code (signed eight)
    then some (signed eight)
    else if c == code float_4
    then some float_4
    else if c == code float_8
    then some float_8
    else none

-- The bytes of an element.
abbrev pub element_size : Format → ℕ
element_size ascii = 1
element_size binary = 1
element_size boolean = 1
element_size (unsigned w) = width w
element_size (signed w) = width w
element_size float_4 = 4
element_size float_8 = 8
