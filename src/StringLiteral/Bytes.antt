-- ===== src/StringLiteral/Bytes.antt =====
-- The loop of the decoder over encoded bytes.
use enlightenedc.Prelude.{
  ℕ, zero, suc, ◌+◌, ◌*◌, ◌/◌, ◌%◌, ◌^◌, ◌≤◌, ◌<◌, ◌≡◌, ◌≢◌, refl, ap, ◌∙◌, Bool, true, false, ◌&&◌,
  none, some, List, [], ◌∷◌, ◌++◌, if◌then◌else◌, match_option, length, length-append, Option-cases,
  Bool-cases, inl, inr, arith, ==_ne, not,
}
use enlightenedc.StringLiteral.{
  short_escape, is_print, hex_digit, encode_char, encode_string_literal, hex_value, unescape,
  hex_digits, push_hex, decode_escape, decode_loop,
}

-- Whether a byte is written as `\xHH`.
unfoldable pub written_hex : ℕ → Bool
unfolding short_escape is_print
written_hex c = match_option (short_escape c) (not (is_print c)) (λ letter. false)

-- Whether what is written of a string starts with a hexadecimal digit.
unfoldable pub starts_hex : List ℕ → Bool
unfolding hex_value
starts_hex [] = false
starts_hex (c ∷ p) = match_option (hex_value c) false (λ v. true)

-- Whether a byte written as `\xHH` is followed by a byte that is a hexadecimal digit.
unfoldable pub ambiguous : List ℕ → Bool
unfolding written_hex starts_hex
ambiguous [] = false
ambiguous (c ∷ raw) = if written_hex c && starts_hex raw then true else ambiguous raw

abbrev pub Bytes : List ℕ → Type 0
Bytes [] = Unit {0}
Bytes (c ∷ raw) = (c < 256) × Bytes raw

pub unescape-short_escape :
    (c : ℕ) {letter : ℕ} → short_escape c ≡ some letter → unescape letter ≡ some c
unfolding short_escape unescape
unescape-short_escape c h = ground arith

pub plain_not_backslash : (c : ℕ) → short_escape c ≡ none → c ≢ 92
unfolding short_escape
plain_not_backslash c h e = ground (arith, h, e)

pub hex_value-hex_digit : (d : ℕ) → d < 16 → hex_value (hex_digit d) ≡ some d
unfolding hex_value hex_digit
hex_value-hex_digit d h = ground arith

pub hex_digits_stop :
    (value : ℕ) (found : Bool) (p : List ℕ)
    → starts_hex p ≡ false
    → hex_digits value found p ≡ (value, found, p)
unfolding starts_hex hex_digits
hex_digits_stop value found [] h = refl
hex_digits_stop value found (c ∷ p) h = elim (Option-cases (hex_value c)) [
  | inl e ↦ rw e refl
  | inr (v, e) ↦ let bad = rw e at h in cc
]

-- The two digits of a byte.
pub hex_digits_byte :
    (c : ℕ) (p : List ℕ)
    → c < 256
    → starts_hex p ≡ false
    → hex_digits 0 false (hex_digit (c / 16) ∷ (hex_digit (c % 16) ∷ p)) ≡ (c, true, p)
unfolding hex_digits
hex_digits_byte c p b h =
    rw (hex_value-hex_digit (c / 16) (omega arith), hex_value-hex_digit (c % 16) (omega arith))
      (rw (hex_digits_stop (((0 * 16 + c / 16) % 2 ^ 32 * 16 + c % 16) % 2 ^ 32) true p h)
        (ap (λ v. (v, true, p)) (omega arith)))

pub decode_short :
    (fuel c letter : ℕ) (e : List ℕ)
    → short_escape c ≡ some letter
    → decode_loop (suc fuel) (encode_char c ++ e) ≡ c ∷ decode_loop fuel e
unfolding encode_char decode_loop decode_escape
decode_short fuel c letter e h = rw (h, unescape-short_escape c h) refl

pub decode_plain :
    (fuel c : ℕ) (e : List ℕ)
    → short_escape c ≡ none
    → is_print c ≡ true
    → decode_loop (suc fuel) (encode_char c ++ e) ≡ c ∷ decode_loop fuel e
unfolding encode_char decode_loop
decode_plain fuel c e h p = rw (h, p) (rw (==_ne c 92 (plain_not_backslash c h), decode_loop) refl)

pub decode_hex :
    (fuel c : ℕ) (e : List ℕ)
    → c < 256
    → short_escape c ≡ none
    → is_print c ≡ false
    → starts_hex e ≡ false
    → decode_loop (suc fuel) (encode_char c ++ e) ≡ c ∷ decode_loop fuel e
unfolding encode_char decode_loop decode_escape unescape push_hex
decode_hex fuel c e b h p s =
    rw (h, p) (rw (hex_digits_byte c e b s) (ap (λ v. v ∷ decode_loop fuel e) (omega (arith, b))))

-- One byte is decoded to itself.
pub decode_char :
    (fuel c : ℕ) (e : List ℕ)
    → c < 256
    → (written_hex c ≡ true → starts_hex e ≡ false)
    → decode_loop (suc fuel) (encode_char c ++ e) ≡ c ∷ decode_loop fuel e
unfolding written_hex
decode_char fuel c e b safe = elim (Option-cases (short_escape c)) [
  | inr (letter, h) ↦ decode_short fuel c letter e h
  | inl h ↦ elim (Bool-cases (is_print c)) [
    | inl p ↦ decode_plain fuel c e h p
    | inr p ↦ decode_hex fuel c e b h p (safe (rw (h, p) refl))
  ]
]

pub starts_hex-encode :
    (raw : List ℕ) → starts_hex raw ≡ false → starts_hex (encode_string_literal raw) ≡ false
unfolding starts_hex encode_string_literal encode_char
starts_hex-encode [] h = refl
starts_hex-encode (c ∷ raw) h = elim (Option-cases (short_escape c)) [
  | inr (letter, e) ↦ rw e refl
  | inl e ↦ elim (Bool-cases (is_print c)) [ inl p ↦ rw (e, p) h | inr p ↦ rw (e, p) refl ]
]

pub length-encode_char : (c : ℕ) → 1 ≤ length (encode_char c)
unfolding encode_char
length-encode_char c = elim (Option-cases (short_escape c)) [
  | inr (letter, e) ↦ rw e (omega arith)
  | inl e ↦ elim (Bool-cases (is_print c)) [
    | inl p ↦ rw (e, p) (omega arith)
    | inr p ↦ rw (e, p) (omega arith)
  ]
]

pub ambiguous_tail : (c : ℕ) (raw : List ℕ) → ambiguous (c ∷ raw) ≡ false → ambiguous raw ≡ false
unfolding ambiguous
ambiguous_tail c raw h = ground (arith, h)

pub ambiguous_head :
    (c : ℕ) (raw : List ℕ)
    → ambiguous (c ∷ raw) ≡ false
    → written_hex c ≡ true
    → starts_hex raw ≡ false
unfolding ambiguous
ambiguous_head c raw h w = ground (arith, h, w)

pub decode_loop-encode :
    (fuel : ℕ) (raw : List ℕ)
    → Bytes raw
    → ambiguous raw ≡ false
    → length (encode_string_literal raw) < fuel
    → decode_loop fuel (encode_string_literal raw) ≡ raw
unfolding encode_string_literal decode_loop
decode_loop-encode zero raw b a h = elim h [ ]
decode_loop-encode (suc fuel) [] b a h = refl
decode_loop-encode (suc fuel) (c ∷ raw) (b, bs) a h =
    decode_char fuel c (encode_string_literal raw) b
      (λ w. starts_hex-encode raw (ambiguous_head c raw a w))
    ∙ ap (λ l. c ∷ l)
        (decode_loop-encode fuel raw bs (ambiguous_tail c raw a) (
          omega (
            arith,
            h,
            length-append (encode_char c) (encode_string_literal raw),
            length-encode_char c,
          )))
