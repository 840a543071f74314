-- ===== src/StringLiteral.antt =====
-- `encode_string_literal` of lib/util/string.cpp and `decode_string_literal` of
-- lib/frontend/lexer.l. A string is the list of its bytes as unsigned numbers. `isprint` is that of
-- the "C" locale.
pub mod Bytes
pub mod RoundTrip
use enlightenedc.Prelude.{
  ℕ, zero, suc, ◌+◌, ◌-◌, ◌*◌, ◌/◌, ◌%◌, ◌^◌, Bool, true, false, ◌&&◌, Option, none, some, List, [],
  ◌∷◌, ◌++◌, leb, ltb, ◌==◌, if◌then◌else◌, match_option, length,
}

abbrev pub backslash : ℕ
backslash = 92

abbrev pub quote : ℕ
quote = 34

-- The letter after the backslash, for the bytes that have an escape of their own.
unfoldable pub short_escape : ℕ → Option ℕ
short_escape c =
    if c == 92
    then some 92
    else (if c == 34
        then some 34
        else (if c == 39
            then some 39
            else (if c == 7
                then some b'a'
                else (if c == 8
                    then some b'b'
                    else (if c == 12
                        then some b'f'
                        else (if c == 10
                            then some b'n'
                            else (if c == 13
                                then some b'r'
                                else (if c == 9
                                    then some b't'
                                    else (if c == 11 then some b'v' else none)))))))))

unfoldable pub is_print : ℕ → Bool
is_print c = leb 32 c && leb c 126

-- A digit of `%02X`.
unfoldable pub hex_digit : ℕ → ℕ
hex_digit d = if ltb d 10 then b'0' + d else b'A' + (d - 10)

unfoldable pub encode_char : ℕ → List ℕ
unfolding short_escape is_print hex_digit
encode_char c =
    match_option (short_escape c)
      (if is_print c
        then c ∷ []
        else backslash ∷ (b'x' ∷ (hex_digit (c / 16) ∷ (hex_digit (c % 16) ∷ []))))
      (λ letter. backslash ∷ (letter ∷ []))

unfoldable pub encode_string_literal : List ℕ → List ℕ
unfolding encode_char
encode_string_literal [] = []
encode_string_literal (c ∷ raw) = encode_char c ++ encode_string_literal raw

unfoldable pub hex_value : ℕ → Option ℕ
hex_value c =
    if leb b'0' c && leb c b'9'
    then some (c - b'0')
    else (if leb b'a' c && leb c b'f'
        then some (10 + (c - b'a'))
        else (if leb b'A' c && leb c b'F' then some (10 + (c - b'A')) else none))

-- The byte that a letter after a backslash stands for.
unfoldable pub unescape : ℕ → Option ℕ
unescape esc =
    if esc == b'a'
    then some 7
    else (if esc == b'b'
        then some 8
        else (if esc == b'f'
            then some 12
            else (if esc == b'n'
                then some 10
                else (if esc == b'r'
                    then some 13
                    else (if esc == b't'
                        then some 9
                        else (if esc == b'v'
                            then some 11
                            else (if esc == 92
                                then some 92
                                else (if esc == 34
                                    then some 34
                                    else (if esc == 39
                                        then some 39
                                        else (if esc == 63 then some 63 else none))))))))))

-- The loop over hexadecimal digits: the `int` value, whether there was a digit, and what is left.
-- The digit goes into four bits that are 0.
unfoldable pub hex_digits : ℕ → Bool → List ℕ → ℕ × Bool × List ℕ
unfolding hex_value
hex_digits value found [] = (value, found, [])
hex_digits value found (c ∷ p) =
    match_option (hex_value c) (value, found, c ∷ p)
      (λ v. hex_digits ((value * 16 + v) % 2 ^ 32) true p)

unfoldable pub is_octal : ℕ → Bool
is_octal c = leb b'0' c && leb c b'7'

-- The loop over octal digits, of which `room` more may come.
unfoldable pub octal_digits : ℕ → ℕ → List ℕ → ℕ × List ℕ
unfolding is_octal
octal_digits zero value p = (value, p)
octal_digits (suc room) value [] = (value, [])
octal_digits (suc room) value (c ∷ p) = elim (is_octal c) [
  | true ↦ octal_digits room (value * 8 + (c - b'0')) p
  | false ↦ (value, c ∷ p)
]

-- `static_cast<char>(value)` and the rest; a `\x` without a digit adds nothing.
unfoldable pub push_hex : (List ℕ → List ℕ) → ℕ × Bool × List ℕ → List ℕ
push_hex again (value, true, p) = (value % 256) ∷ again p
push_hex again (value, false, p) = again p

unfoldable pub push_octal : (List ℕ → List ℕ) → ℕ × List ℕ → List ℕ
push_octal again (value, p) = (value % 256) ∷ again p

-- The cases after a backslash, where `again` is the loop.
unfoldable pub decode_escape : (List ℕ → List ℕ) → List ℕ → List ℕ
unfolding unescape hex_digits is_octal octal_digits push_hex push_octal
decode_escape again [] = []
decode_escape again (esc ∷ p) =
    match_option (unescape esc)
      (if esc == b'x'
        then push_hex again (hex_digits 0 false p)
        else (if is_octal esc
            then push_octal again (octal_digits 2 (esc - b'0') p)
            else esc ∷ again p))
      (λ c. c ∷ again p)

-- The loop; each round takes at least one byte, so that fuel above the length is enough.
unfoldable pub decode_loop : ℕ → List ℕ → List ℕ
unfolding decode_escape
decode_loop zero p = []
decode_loop (suc fuel) [] = []
decode_loop (suc fuel) (c ∷ p) = elim (c == backslash) [
  | true ↦ decode_escape (decode_loop fuel) p
  | false ↦ c ∷ decode_loop fuel p
]

unfoldable pub has_backslash : List ℕ → Bool
has_backslash [] = false
has_backslash (c ∷ text) = elim (c == backslash) [ true ↦ true | false ↦ has_backslash text ]

-- `text + 1` up to `text + len - 1`.
unfoldable pub without_last : List ℕ → List ℕ
without_last [] = []
without_last (c ∷ []) = []
without_last (c ∷ (d ∷ text)) = c ∷ without_last (d ∷ text)

unfoldable pub strip : List ℕ → List ℕ
unfolding without_last
strip [] = []
strip (c ∷ text) = without_last text

unfoldable pub decode_string_literal : List ℕ → List ℕ
unfolding strip has_backslash decode_loop
decode_string_literal text =
    if has_backslash text then decode_loop (suc (length text)) (strip text) else strip text
