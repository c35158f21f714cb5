-- ===== src/Prelude/Text.antt =====
-- The functions of Go's packages strings, strconv and unicode that the program uses, on texts.
use Prim.Native.Nat.{ℕ, zero, suc, ◌-◌, ◌/◌, ◌%◌}
use Prim.Native.Char.{code}
use Prim.Native.String.{String, ◌++◌ as append, len, slice}
use mathlib.Core.Bool.{Bool, true, ◌&&◌, ◌||◌}
use mathlib.Core.List.{List, [], ◌∷◌}
use text.Mathlib.Text.{◌==◌, starts_with, find?}
use ergo_agent.Prelude.Tests.{ltb, leb, eqb, if◌then◌else◌}
use ergo_agent.Prelude.Dict.{is_some}

abbrev pub codes : String → List ℕ
codes String.[] = []
codes (String.◌∷◌ c s) = code c ∷ codes s

abbrev pub contains_text : String → String → Bool
contains_text s t = is_some (find? s t)

abbrev pub has_prefix : String → String → Bool
has_prefix s t = starts_with s t

abbrev pub ends_text : String → String → Bool
ends_text s t = leb (len t) (len s) && slice s (len s - len t) (len s) == t

-- unicode.IsSpace
abbrev pub is_space : ℕ → Bool
is_space c =
    (leb 9 c && leb c 13)
    || eqb c 32
    || eqb c 133
    || eqb c 160
    || eqb c 5760
    || (leb 8192 c && leb c 8202)
    || eqb c 8232
    || eqb c 8233
    || eqb c 8239
    || eqb c 8287
    || eqb c 12288

abbrev pub are_spaces : List ℕ → Bool
are_spaces [] = true
are_spaces (c ∷ cs) = is_space c && are_spaces cs

-- strings.TrimSpace(s) == ""
abbrev pub is_blank : String → Bool
is_blank s = are_spaces (codes s)

-- strings.Join
abbrev pub join : String → List String → String
join separator [] = ""
join separator (s ∷ []) = s
join separator (s ∷ t ∷ texts) = append s (append separator (join separator (t ∷ texts)))

-- string([]rune(s)[:n])
abbrev pub take_runes : ℕ → String → String
take_runes zero s = ""
take_runes (suc n) String.[] = ""
take_runes (suc n) (String.◌∷◌ c s) = String.◌∷◌ c (take_runes n s)

abbrev pub digit : ℕ → String
digit zero = "0"
digit (suc zero) = "1"
digit (suc (suc zero)) = "2"
digit (suc (suc (suc zero))) = "3"
digit (suc (suc (suc (suc zero)))) = "4"
digit (suc (suc (suc (suc (suc zero))))) = "5"
digit (suc (suc (suc (suc (suc (suc zero)))))) = "6"
digit (suc (suc (suc (suc (suc (suc (suc zero))))))) = "7"
digit (suc (suc (suc (suc (suc (suc (suc (suc zero)))))))) = "8"
digit n = "9"

-- The digits of a number below 10 ^ fuel.
abbrev pub digits_within : ℕ → ℕ → String
digits_within zero n = ""
digits_within (suc fuel) n =
    let front = digits_within fuel (n / 10) in
    if ltb n 10 then digit n else append front (digit (n % 10))

-- strconv.Itoa of a number that is not negative; an int has 19 digits at most.
abbrev pub decimal : ℕ → String
decimal n = digits_within 20 n
