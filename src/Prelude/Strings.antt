-- ===== src/Prelude/Strings.antt =====
-- Text as the list of its code points, with the methods of Python's `str` that the code calls.
use Prim.Native.Nat.{ℕ, zero, suc, ◌+◌, ◌/◌, ◌%◌}
use Prim.Native.Char.{code}
use Prim.Native.String.{String}
use mathlib.Core.Bool.{Bool, true, false, ◌&&◌, ◌||◌}
use mathlib.Core.List.{List, [], ◌∷◌, ◌++◌, reverse}
use mathlib.Core.Option.{Option, none, some}
use gitlab_reviewer.Prelude.Int.{ℤ, pos, negsuc}
use gitlab_reviewer.Prelude.Tests.{ltb, leb, ◌==◌, if◌then◌else◌}

abbrev pub Text : Type 0
Text = List ℕ

abbrev pub codes : String → Text
codes String.[] = []
codes (String.◌∷◌ c s) = code c ∷ codes s

-- `str.isspace` of one character.
abbrev pub is_space : ℕ → Bool
is_space c =
    (leb 9 c && leb c 13)
    || (leb 28 c && leb c 32)
    || c == 0x85
    || c == 0xA0
    || c == 0x1680
    || (leb 0x2000 c && leb c 0x200A)
    || c == 0x2028
    || c == 0x2029
    || c == 0x202F
    || c == 0x205F
    || c == 0x3000

-- Drops the leading characters that pass the test.
unfoldable pub drop_while : (ℕ → Bool) → Text → Text
drop_while p [] = []
drop_while p (c ∷ cs) = let rest = drop_while p cs in if p c then rest else c ∷ cs

-- `s[:k]`
unfoldable pub take : ℕ → Text → Text
take zero s = []
take (suc k) [] = []
take (suc k) (c ∷ s) = c ∷ take k s

-- `s.rstrip(chars)`
unfoldable pub rstrip_by : (ℕ → Bool) → Text → Text
unfolding drop_while
rstrip_by p s = reverse (drop_while p (reverse s))

-- `s.strip(chars)`
unfoldable pub strip_by : (ℕ → Bool) → Text → Text
unfolding rstrip_by drop_while
strip_by p s = drop_while p (rstrip_by p s)

-- `s.strip()`
unfoldable pub strip : Text → Text
unfolding strip_by
strip s = strip_by is_space s

-- `s or None`
abbrev pub or_none : Text → Option Text
or_none [] = none
or_none (c ∷ cs) = some (c ∷ cs)

-- `s1 == s2`
abbrev pub text_eq : Text → Text → Bool
text_eq [] [] = true
text_eq [] (d ∷ ds) = false
text_eq (c ∷ cs) [] = false
text_eq (c ∷ cs) (d ∷ ds) = c == d && text_eq cs ds

-- `str(n)`: `suc n` rounds are more than the number has digits.
unfoldable pub decimal_from : ℕ → ℕ → Text → Text
decimal_from zero n done = done
decimal_from (suc fuel) n done =
    let more = decimal_from fuel (n / 10) ((48 + n % 10) ∷ done) in
    if ltb n 10 then (48 + n) ∷ done else more

unfoldable pub decimal : ℕ → Text
unfolding decimal_from
decimal n = decimal_from (suc n) n []

-- `sep.join(lines)`
unfoldable pub join : Text → List Text → Text
join sep [] = []
join sep (l ∷ []) = l
join sep (l ∷ m ∷ ls) = l ++ (sep ++ join sep (m ∷ ls))

abbrev pub is_slash : ℕ → Bool
is_slash c = c == 47

-- `text.split(sep)` for a separator of one character; the first argument is the piece being read.
unfoldable pub split_from : ℕ → Text → Text → List Text
split_from sep piece [] = piece ∷ []
split_from sep piece (c ∷ cs) =
    let inside = split_from sep (piece ++ c ∷ []) cs in
    let after = piece ∷ split_from sep [] cs in if c == sep then after else inside

unfoldable pub split : ℕ → Text → List Text
split sep text = split_from sep [] text

-- `text[:n]`
abbrev pub cut : ℕ → Text → Text
cut zero t = []
cut (suc n) [] = []
cut (suc n) (c ∷ cs) = c ∷ cut n cs

-- `text.endswith(suffix)`, the tests on reversed texts.
abbrev pub prefixed : Text → Text → Bool
prefixed [] s = true
prefixed (p ∷ ps) [] = false
prefixed (p ∷ ps) (c ∷ cs) = p == c && prefixed ps cs

abbrev pub ends_with : Text → Text → Bool
ends_with suffix text = prefixed (reverse suffix) (reverse text)

-- `str(i)`
unfoldable pub decimal_int : ℤ → Text
unfolding decimal decimal_from
decimal_int (pos n) = decimal n
decimal_int (negsuc n) = 45 ∷ decimal (suc n)
