-- ===== src/StringLiteral/RoundTrip.antt =====
-- Decoding what was encoded.
use enlightenedc.Prelude.{
  ℕ, zero, suc, ◌+◌, ◌*◌, ◌/◌, ◌%◌, ◌^◌, ◌<◌, ◌≡◌, refl, sym, ap, ◌∙◌, true, false, some,
  match_option, List, [], ◌∷◌, ◌++◌, ◌==◌, length, length-append, Bool-cases, inl, inr, arith,
}
use enlightenedc.StringLiteral.{
  quote, short_escape, is_print, hex_digit, encode_char, encode_string_literal, hex_value, unescape,
  hex_digits, push_hex, decode_escape, decode_loop, has_backslash, without_last, strip,
  decode_string_literal,
}
use enlightenedc.StringLiteral.Bytes.{
  Bytes, ambiguous, starts_hex, written_hex, decode_loop-encode, hex_value-hex_digit,
  hex_digits_stop, starts_hex-encode,
}

decode_loop_plain :
    (fuel : ℕ) (p : List ℕ) → has_backslash p ≡ false → length p < fuel → decode_loop fuel p ≡ p
unfolding decode_loop has_backslash
decode_loop_plain zero p h l = elim l [ ]
decode_loop_plain (suc fuel) [] h l = refl
decode_loop_plain (suc fuel) (c ∷ p) h l = elim (Bool-cases (c == 92)) [
  | inl e ↦ let bad = rw (e, has_backslash) at h in cc
  | inr e ↦
      rw (e, decode_loop)
        (ap (λ k. c ∷ k) (decode_loop_plain fuel p (rw (e, has_backslash) at h) (omega (arith, l))))
]

has_backslash_left : (p q : List ℕ) → has_backslash (p ++ q) ≡ false → has_backslash p ≡ false
unfolding has_backslash
has_backslash_left [] q h = refl
has_backslash_left (c ∷ p) q h = elim (Bool-cases (c == 92)) [
  | inl e ↦ let bad = rw (e, has_backslash) at h in cc
  | inr e ↦ rw (e, has_backslash) (has_backslash_left p q (rw (e, has_backslash) at h))
]

without_last-append : (p : List ℕ) (c : ℕ) → without_last (p ++ (c ∷ [])) ≡ p
unfolding without_last
without_last-append [] c = refl
without_last-append (b ∷ []) c = refl
without_last-append (b ∷ (d ∷ p)) c = ap (λ k. b ∷ k) (without_last-append (d ∷ p) c)

-- A literal of the encoded bytes between quotes.
abbrev pub quoted : List ℕ → List ℕ
quoted p = quote ∷ (p ++ (quote ∷ []))

decode_quoted :
    (p : List ℕ) → decode_string_literal (quoted p) ≡ decode_loop (suc (length (quoted p))) p
unfolding decode_string_literal strip has_backslash
decode_quoted p = elim (Bool-cases (has_backslash (p ++ (quote ∷ [])))) [
  | inl e ↦ rw (e, without_last-append p quote) refl
  | inr e ↦
      rw (e, without_last-append p quote)
        (sym (
          decode_loop_plain (suc (length (quoted p))) p (has_backslash_left p (quote ∷ []) e)
            (omega (arith, length-append p (quote ∷ [])))))
]

-- A string of bytes that is encoded, put between quotes and decoded comes back, unless a byte that
-- is written as `\xHH` is followed by a hexadecimal digit.
pub decode_string_literal-encode :
    (raw : List ℕ)
    → Bytes raw
    → ambiguous raw ≡ false
    → decode_string_literal (quoted (encode_string_literal raw)) ≡ raw
decode_string_literal-encode raw b a =
    decode_quoted (encode_string_literal raw)
    ∙ decode_loop-encode (suc (length (quoted (encode_string_literal raw)))) raw b a
        (omega (arith, length-append (encode_string_literal raw) (quote ∷ [])))

-- A hexadecimal digit is written as it is.
encode_digit : (d : ℕ) {v : ℕ} → hex_value d ≡ some v → encode_char d ≡ d ∷ []
unfolding hex_value encode_char short_escape is_print
encode_digit d h = ground (arith, h)

encode_hex :
    (c : ℕ)
    → written_hex c ≡ true
    → encode_char c ≡ 92 ∷ (b'x' ∷ (hex_digit (c / 16) ∷ (hex_digit (c % 16) ∷ [])))
unfolding written_hex encode_char
encode_hex c h = ground (arith, h)

-- A string of hexadecimal digits, and the number that it continues.
abbrev pub Digits : List ℕ → Type 0
Digits [] = Unit {0}
Digits (d ∷ ds) = ((v : ℕ) × (hex_value d ≡ some v)) × Digits ds

unfoldable pub read_hex : ℕ → List ℕ → ℕ
read_hex value [] = value
read_hex value (d ∷ ds) = match_option (hex_value d) value (λ v. read_hex (value * 16 + v) ds)

encode_run :
    (ds rest : List ℕ)
    → Digits ds
    → encode_string_literal (ds ++ rest) ≡ ds ++ encode_string_literal rest
unfolding encode_string_literal
encode_run [] rest h = refl
encode_run (d ∷ ds) rest ((v, e), h) =
    rw (encode_digit d e) (ap (λ l. d ∷ l) (encode_run ds rest h))

hex_digits_run :
    (value : ℕ) (ds e : List ℕ)
    → Digits ds
    → starts_hex e ≡ false
    → hex_digits (value % 2 ^ 32) true (ds ++ e) ≡ (read_hex value ds % 2 ^ 32, true, e)
unfolding hex_digits read_hex
hex_digits_run value [] e h stop = hex_digits_stop (value % 2 ^ 32) true e stop
hex_digits_run value (d ∷ ds) e ((v, at), h) stop =
    let step : (value % 2 ^ 32 * 16 + v) % 2 ^ 32 ≡ (value * 16 + v) % 2 ^ 32 = omega arith in
    rw (at, step) (hex_digits_run (value * 16 + v) ds e h stop)

read_run :
    (c : ℕ) (ds e : List ℕ)
    → c < 256
    → Digits ds
    → starts_hex e ≡ false
    → hex_digits 0 false (hex_digit (c / 16) ∷ (hex_digit (c % 16) ∷ (ds ++ e)))
      ≡ (read_hex c ds % 2 ^ 32, true, e)
unfolding hex_digits
read_run c ds e b h stop =
    rw (hex_value-hex_digit (c / 16) (omega arith), hex_value-hex_digit (c % 16) (omega arith))
      (ap (λ v. hex_digits v true (ds ++ e)) (omega arith) ∙ hex_digits_run c ds e h stop)

decode_run :
    (fuel c : ℕ) (ds e : List ℕ)
    → c < 256
    → Digits ds
    → starts_hex e ≡ false
    → decode_loop (suc fuel) (92 ∷ (b'x' ∷ (hex_digit (c / 16) ∷ (hex_digit (c % 16) ∷ (ds ++ e)))))
      ≡ read_hex c ds % 256 ∷ decode_loop fuel e
unfolding decode_loop decode_escape unescape push_hex
decode_run fuel c ds e b h stop =
    rw (read_run c ds e b h stop) (ap (λ k. k ∷ decode_loop fuel e) (omega arith))

-- A byte that is written as `\xHH`, the hexadecimal digits that follow it, as many as there are, and
-- the rest of the string, in which no such byte is followed by a hexadecimal digit: the byte and all
-- the digits are decoded to one byte, of the low eight bits of the number that they spell, and the
-- rest comes back.
pub decode_string_literal-greedy :
    (c : ℕ) (ds rest : List ℕ)
    → c < 256
    → written_hex c ≡ true
    → Digits ds
    → Bytes rest
    → starts_hex rest ≡ false
    → ambiguous rest ≡ false
    → decode_string_literal (quoted (encode_string_literal (c ∷ (ds ++ rest))))
      ≡ read_hex c ds % 256 ∷ rest
unfolding encode_string_literal
decode_string_literal-greedy c ds rest b w h bytes stop clear =
    decode_quoted (encode_string_literal (c ∷ (ds ++ rest)))
    ∙ rw (encode_hex c w, encode_run ds rest h)
        (decode_run _ c ds (encode_string_literal rest) b h (starts_hex-encode rest stop)
          ∙ ap (λ l. read_hex c ds % 256 ∷ l)
              (decode_loop-encode _ rest bytes clear (
                omega (
                  arith,
                  length-append (ds ++ encode_string_literal rest) (quote ∷ []),
                  length-append ds (encode_string_literal rest),
                ))))
