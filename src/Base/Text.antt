-- ===== src/Base/Text.antt =====
-- The functions of Go's package `strings` that the program calls.
use Prim.Native.Char.{Char, code}
use Prim.Native.Nat.{◌-◌}
use Prim.Native.String.{String, [], ◌∷◌, ◌++◌, char_at}
use mathlib.Core.Bool.{Bool, ◌&&◌, ◌||◌}
use mathlib.Core.List.{List}
use mathlib.Core.Option.{Option, none, some}
use text.Mathlib.Text.{starts_with}
use consul_ecs.Base.Tests.{leb, nat_eq, if◌then◌else◌}

-- `strings.ToLower` on ASCII letters; every other character stays.
lower_char : Char → Char
lower_char c =
    if leb b'A' (code c) && leb (code c) b'Z'
    then char_at "abcdefghijklmnopqrstuvwxyz" (code c - b'A')
    else c

unfoldable pub to_lower : String → String
unfolding lower_char
to_lower [] = []
to_lower (c ∷ s) = lower_char c ∷ to_lower s

unfoldable pub char_eq : Char → Char → Bool
char_eq c d = nat_eq (code c) (code d)

-- `strings.Split(s, sep)` for a separator of one character: never empty.
unfoldable pub split : Char → String → List String
unfolding char_eq
split sep [] = List.◌∷◌ [] List.[]
split sep (c ∷ s) = elim (split sep s) [
  | List.[] ↦ List.[]
  | List.◌∷◌ x xs ↦ if char_eq c sep then List.◌∷◌ [] (List.◌∷◌ x xs) else List.◌∷◌ (c ∷ x) xs
]

-- `s[:strings.LastIndex(s, sep)]`, if `sep` occurs.
unfoldable pub before_last : Char → String → Option String
unfolding char_eq
before_last sep [] = none
before_last sep (c ∷ s) = elim (before_last sep s) [
  | some t ↦ some (c ∷ t)
  | none ↦ if char_eq c sep then some [] else none
]

-- `s` without the prefix `p`, if it has it.
unfoldable pub strip_prefix : String → String → Option String
unfolding char_eq
strip_prefix [] s = some s
strip_prefix (a ∷ p) [] = none
strip_prefix (a ∷ p) (c ∷ s) = let rest = strip_prefix p s in if char_eq a c then rest else none

-- `strings.Replace(s, old, new, 1)` for a nonempty `old`.
unfoldable pub replace_first : String → String → String → String
unfolding strip_prefix
replace_first old new [] = []
replace_first old new (c ∷ s) =
    let later = replace_first old new s in
    elim (strip_prefix old (c ∷ s)) [ some rest ↦ new ++ rest | none ↦ c ∷ later ]

-- `strings.Join(xs, sep)`
unfoldable pub join : String → List String → String
join sep List.[] = []
join sep (List.◌∷◌ x List.[]) = x
join sep (List.◌∷◌ x (List.◌∷◌ y ys)) = x ++ sep ++ join sep (List.◌∷◌ y ys)

-- What `%q` prints, for texts of printable characters.
unfoldable pub escape : String → String
unfolding char_eq
escape [] = []
escape (c ∷ s) =
    let rest = escape s in if char_eq c "\"" || char_eq c "\\" then "\\" ++ (c ∷ rest) else c ∷ rest

unfoldable pub quote : String → String
unfolding escape
quote s = "\"" ++ escape s ++ "\""

-- `strings.Contains(s, t)`
unfoldable pub contains_text : String → String → Bool
contains_text [] t = starts_with [] t
contains_text (c ∷ s) t = starts_with (c ∷ s) t || contains_text s t

-- `strings.Trim(s, c)` for a cutset of one character.
unfoldable pub trim_left : Char → String → String
unfolding char_eq
trim_left c [] = []
trim_left c (d ∷ s) = let rest = trim_left c s in if char_eq c d then rest else d ∷ s

unfoldable pub trim_right : Char → String → String
unfolding char_eq
trim_right c [] = []
trim_right c (d ∷ s) = elim (trim_right c s) [
  | [] ↦ if char_eq c d then [] else d ∷ []
  | e ∷ t ↦ d ∷ e ∷ t
]

unfoldable pub trim : Char → String → String
unfolding trim_left trim_right
trim c s = trim_right c (trim_left c s)
