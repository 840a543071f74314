-- ===== src/Examples/Text.antt =====
-- Strings that are encoded and decoded, and a graph that is walked.
use enlightenedc.Prelude.{
  ℕ, zero, suc, ◌%◌, ◌≤◌, ◌<◌, ◌≡◌, ◌↔◌, refl, true, some, List, [], ◌∷◌, arith,
}
use enlightenedc.StringLiteral.{
  encode_string_literal, decode_string_literal, short_escape, is_print, hex_value,
}
use enlightenedc.StringLiteral.Bytes.{ambiguous, written_hex, starts_hex}
use enlightenedc.StringLiteral.RoundTrip.{
  quoted, decode_string_literal-encode, read_hex, decode_string_literal-greedy,
}
use enlightenedc.Cfg.Walker.{State, walk_function, contains}
use enlightenedc.Cfg.Unvisited.{count}
use enlightenedc.Cfg.Visits.{Reaches}
use enlightenedc.Cfg.Order.{nothing, walk_function-Reaches}

-- A tab, a quote, the byte 1 and the letter `z`.
abbrev line : List ℕ
line = 9 ∷ (34 ∷ (1 ∷ (b'z' ∷ [])))

encode_example : decode_string_literal (quoted (encode_string_literal line)) ≡ line
unfolding ambiguous written_hex starts_hex short_escape is_print hex_value
encode_example = decode_string_literal-encode line (omega arith) refl

-- The byte 1, the digits `AB` and the letter `z`.
greedy_example :
    decode_string_literal (quoted (encode_string_literal (1 ∷ (b'A' ∷ (b'B' ∷ (b'z' ∷ []))))))
    ≡ read_hex 1 (b'A' ∷ (b'B' ∷ [])) % 256 ∷ (b'z' ∷ [])
unfolding ambiguous written_hex starts_hex short_escape is_print hex_value
greedy_example =
    decode_string_literal-greedy 1 (b'A' ∷ (b'B' ∷ [])) (b'z' ∷ []) (omega arith) refl
      ((10, refl), ((11, refl), tt)) (omega arith) refl refl

-- Two branches that meet again, and a loop back.
unfoldable diamond : ℕ → List ℕ
diamond zero = 1 ∷ (2 ∷ [])
diamond (suc zero) = 3 ∷ []
diamond (suc (suc zero)) = 3 ∷ []
diamond (suc (suc (suc zero))) = 0 ∷ []
diamond (suc (suc (suc (suc b)))) = []

diamond_below : (b y : ℕ) → contains (diamond b) y ≡ true → y < 4
unfolding diamond contains
diamond_below zero y h = ground (arith, h)
diamond_below (suc zero) y h = ground (arith, h)
diamond_below (suc (suc zero)) y h = ground (arith, h)
diamond_below (suc (suc (suc zero))) y h = ground (arith, h)
diamond_below (suc (suc (suc (suc b)))) y h = ground (arith, h)

walk_example :
    (st' : State) × (walk_function diamond 4 true 0 nothing ≡ some st')
    × ((x : ℕ)
        → ((Reaches diamond 0 x) ↔ (count x st'.preorder ≡ 1))
          × (count x st'.preorder ≤ 1)
          × (count x st'.postorder ≡ count x st'.preorder))
walk_example = walk_function-Reaches diamond 4 0 nothing diamond_below (omega arith)
