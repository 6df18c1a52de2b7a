-- ===== src/Common/Text.antt =====
-- Go's text operations on native strings: a text is the list of its code points.
use Prim.Native.Nat.{ℕ, zero, suc, ◌-◌, ◌/◌, ◌%◌}
use Prim.Native.Char.{Char, code, len_utf8}
use Prim.Native.String.{String, [], ◌∷◌, ◌++◌, count}
use mathlib.Core.Bool.{Bool, true, false, ◌||◌, ◌&&◌}
use mathlib.Core.Option.{Option, none, some}
use mathlib.Core.List.{List}
use text.Mathlib.Text.{◌==◌}
use cloud_agent.Common.Logic.{nat_eq, leb, if◌then◌else◌}
use cloud_agent.Common.Int.{ℤ, pos, negsuc}

-- `strings.CutPrefix(s, p)`: the text behind the prefix, if it is one
unfoldable pub cut_prefix : String → String → Option String
cut_prefix s [] = some s
cut_prefix [] (_ ∷ _) = none
cut_prefix (c ∷ s) (d ∷ p) =
    let rest = cut_prefix s p in if nat_eq (code c) (code d) then rest else none

-- `strings.HasPrefix`
unfoldable pub has_prefix : String → String → Bool
unfolding cut_prefix
has_prefix s p = elim (cut_prefix s p) [ none ↦ false | some _ ↦ true ]

-- `strings.TrimSuffix(s, p)`
unfoldable pub trim_suffix : String → String → String
trim_suffix [] p = []
trim_suffix (c ∷ s) p = let rest = trim_suffix s p in if (c ∷ s) == p then [] else c ∷ rest

-- `strings.Contains(s, p)`
unfoldable pub contains : String → String → Bool
unfolding has_prefix
contains [] p = p == ""
contains (c ∷ s) p = has_prefix (c ∷ s) p || contains s p

-- `strings.ToLower`, by the mapping of one code point
unfoldable pub to_lower : (Char → Char) → String → String
to_lower lower [] = []
to_lower lower (c ∷ s) = lower c ∷ to_lower lower s

-- the character at a position of a table, and "0" behind its end
unfoldable pub char_at : String → ℕ → Char
char_at [] n = "0"
char_at (c ∷ s) zero = c
char_at (c ∷ s) (suc n) = char_at s n

digit : ℕ → String
unfolding char_at
digit n = char_at "0123456789" n ∷ []

-- The decimal digits of a number, the last ones in `acc`; the fuel `n + 1` is above their count.
digits_from : ℕ → ℕ → String → String
digits_from zero n acc = acc
digits_from (suc f) n acc =
    let rest = digits_from f (n / 10) (digit (n % 10) ++ acc) in
    if leb n 9 then digit n ++ acc else rest

-- `%d`
unfoldable pub decimal : ℤ → String
unfolding digits_from digit
decimal (pos n) = digits_from (suc n) n ""
decimal (negsuc n) = "-" ++ digits_from (suc (suc n)) (suc n) ""

joined : List String → String
joined List.[] = ""
joined (List.◌∷◌ s ss) = " " ++ s ++ joined ss

-- `%v` of a slice of texts
unfoldable pub show_list : List String → String
unfolding joined
show_list List.[] = "[]"
show_list (List.◌∷◌ s ss) = "[" ++ s ++ joined ss ++ "]"

-- `io.ReadAll(io.LimitReader(s, n))`: the code points whose bytes all lie in the first `n`
unfoldable pub take_bytes : ℕ → String → String
take_bytes n [] = []
take_bytes n (c ∷ s) =
    let rest = take_bytes (n - len_utf8 c) s in if leb (len_utf8 c) n then c ∷ rest else []

-- `if value == "" { missing = append(missing, name) }`, in front of what is appended later
unfoldable pub missing_if : String → String → List String → List String
missing_if value name rest = if value == "" then List.◌∷◌ name rest else rest

-- `unicode.IsSpace`
unfoldable pub is_space : Char → Bool
is_space c =
    let n = code c in
    (leb 9 n && leb n 13)
    || nat_eq n 32
    || nat_eq n 0x85
    || nat_eq n 0xa0
    || nat_eq n 0x1680
    || (leb 0x2000 n && leb n 0x200a)
    || nat_eq n 0x2028
    || nat_eq n 0x2029
    || nat_eq n 0x202f
    || nat_eq n 0x205f
    || nat_eq n 0x3000

trim_left : String → String
trim_left [] = []
trim_left (c ∷ s) = let rest = trim_left s in if is_space c then rest else c ∷ s

trim_right : String → String
trim_right [] = []
trim_right (c ∷ s) = let rest = trim_right s in if is_space c && rest == "" then [] else c ∷ rest

-- `strings.TrimSpace`
unfoldable pub trim_space : String → String
unfolding trim_left trim_right is_space
trim_space s = trim_right (trim_left s)

-- the text with `new` for each `old`, behind `skip` characters that a match has taken
unfoldable pub replaced : String → String → ℕ → String → String
unfolding has_prefix
replaced old new skip [] = []
replaced old new (suc skip) (c ∷ s) = replaced old new skip s
replaced old new zero (c ∷ s) =
    let matched = replaced old new (count old - 1) s in
    let kept = replaced old new zero s in
    if has_prefix (c ∷ s) old then new ++ matched else c ∷ kept

-- `strings.ReplaceAll(s, old, new)`, for an `old` that is not empty
unfoldable pub replace_all : String → String → String → String
replace_all s old new = replaced old new zero s
