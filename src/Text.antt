-- ===== src/Text.antt =====
-- What the program does with texts by JavaScript's library: `Number.parseInt(s, 10)`, and the last word
-- of `s.trim().split(/\s+/)`.
use sorosense.Base.{
  ℕ, get_or, ◌+◌, ◌-◌, ◌*◌, String, Bool, Option, none, some, leb, nat_beq, ◌&&◌, ◌||◌,
  if◌then◌else◌, ◌==◌, string_key,
}
use mathlib.Core.Option
use sorosense.Int.{ℤ, pos, ◌-ℤ◌}
use Prim.Native.Char.{code}
use Prim.Native.String as Str

-- What `\s` matches.
abbrev pub is_space : ℕ → Bool
is_space n =
    (leb 9 n && leb n 13)
    || nat_beq n 32
    || nat_beq n 160
    || nat_beq n 5_760
    || (leb 8_192 n && leb n 8_202)
    || nat_beq n 8_232
    || nat_beq n 8_233
    || nat_beq n 8_239
    || nat_beq n 8_287
    || nat_beq n 12_288
    || nat_beq n 65_279

abbrev is_digit : ℕ → Bool
is_digit n = leb 48 n && leb n 57

-- The digits at the start of a text, after `seen`.
abbrev digits : Option ℕ → String → Option ℕ
digits seen String.[] = seen
digits seen (String.◌∷◌ c s) =
    let rest = digits (some (10 * get_or seen 0 + (code c - 48))) s in
    if is_digit (code c) then rest else seen

-- The digits after a sign.
abbrev signed : String → Option ℤ
signed String.[] = none
signed (String.◌∷◌ c s) =
    if nat_beq (code c) 45
    then Option.map (λ n. pos 0 -ℤ pos n) (digits none s)
    else Option.map pos
        (if nat_beq (code c) 43 then digits none s else digits none (String.◌∷◌ c s))

-- `none` is NaN.
unfoldable pub parse_int : String → Option ℤ
parse_int String.[] = none
parse_int (String.◌∷◌ c s) =
    let rest = parse_int s in if is_space (code c) then rest else signed (String.◌∷◌ c s)

-- The last word of a text, with the word `word` before it and the words up to `last` behind.
abbrev word_after : String → String → String → String
word_after last word String.[] = if word == "" then last else word
word_after last word (String.◌∷◌ c s) =
    let next = word_after (if word == "" then last else word) "" s in
    let same = word_after last (Str.◌++◌ word (String.◌∷◌ c String.[])) s in
    if is_space (code c) then next else same

unfoldable pub last_word : String → String
last_word s = word_after "" "" s
