-- ===== src/Base/Text.antt =====
-- Texts as lists of code points, and the methods of Python's `str` that the program uses on them.
use Prim.Native.Nat.{ℕ, zero, suc, ◌+◌, ◌*◌, ◌-◌, ◌/◌, ◌%◌}
use Prim.Native.String.{String}
use Prim.Native.Char.{code}
use mathlib.Core.Path.{◌≡◌, refl}
use mathlib.Core.Bool.{Bool, true, false, ◌&&◌, ◌||◌}
use mathlib.Core.Option.{Option, none, some}
use mathlib.Core.List.{List, [], ◌∷◌, ◌++◌, reverse}
use native.Mathlib.Omega.{arith}
use prxref.Base.Tests.{◌==◌, leb, ltb, if◌then◌else◌}

abbrev pub Text : Type 0
Text = List ℕ

-- A literal.
abbrev pub codes : String → Text
codes String.[] = []
codes (String.◌∷◌ c s) = code c ∷ codes s

unfoldable pub text_eq : Text → Text → Bool
text_eq [] [] = true
text_eq (x ∷ xs) (y ∷ ys) = x == y && text_eq xs ys
text_eq _ _ = false

-- `s[len(p):]` if `s.startswith(p)`
unfoldable pub drop_prefix : Text → Text → Option Text
drop_prefix [] s = some s
drop_prefix (p ∷ ps) [] = none
drop_prefix (p ∷ ps) (c ∷ s) = if p == c then drop_prefix ps s else none

unfoldable pub starts_with : Text → Text → Bool
unfolding drop_prefix
starts_with p s = elim (drop_prefix p s) [ none ↦ false | some r ↦ true ]

unfoldable pub ends_with : Text → Text → Bool
unfolding starts_with
ends_with p s = starts_with (reverse p) (reverse s)

-- `p in s`
unfoldable pub contains : Text → Text → Bool
unfolding starts_with
contains p [] = starts_with p []
contains p (c ∷ s) = starts_with p (c ∷ s) || contains p s

-- What stands before and after the first occurrence of a separator.
unfoldable pub split_at : Text → Text → Option (Text × Text)
unfolding drop_prefix
split_at sep [] = elim (drop_prefix sep []) [ none ↦ none | some r ↦ some ([], r) ]
split_at sep (c ∷ s) =
    let later = split_at sep s in
    elim (drop_prefix sep (c ∷ s)) [
      | some r ↦ some ([], r)
      | none ↦ elim later [ none ↦ none | some (a, b) ↦ some (c ∷ a, b) ]
    ]

-- `s.split(sep)[0]`
unfoldable pub before : Text → Text → Text
unfolding split_at
before sep s = elim (split_at sep s) [ none ↦ s | some (a, b) ↦ a ]

unfoldable pub is_digit : ℕ → Bool
is_digit c = leb b'0' c && leb c b'9'

-- The digits that a text begins with, as a number, and the rest.
unfoldable pub take_digits : ℕ → Text → ℕ × Text
unfolding is_digit
take_digits n [] = (n, [])
take_digits n (c ∷ s) =
    let more = take_digits (n * 10 + (c - b'0')) s in if is_digit c then more else (n, c ∷ s)

-- `(\d+)` at the head of a text
unfoldable pub number : Text → Option (ℕ × Text)
unfolding take_digits
number [] = none
number (c ∷ s) = if is_digit c then some (take_digits 0 (c ∷ s)) else none

-- The digits of a number before `out`, on fuel for each of them.
unfoldable pub digits : ℕ → ℕ → Text → Text
digits zero n out = out
digits (suc fuel) n out =
    let more = digits fuel (n / 10) ((b'0' + n % 10) ∷ out) in
    if ltb n 10 then (b'0' + n) ∷ out else more

-- `str(n)`
unfoldable pub show_number : ℕ → Text
unfolding digits
show_number n = digits (suc n) n []

pub drop_prefix-append : (p s : Text) → drop_prefix p (p ++ s) ≡ some s
unfolding drop_prefix
drop_prefix-append [] s = refl
drop_prefix-append (c ∷ p) s = ground (arith, drop_prefix-append p s)

pub text_eq→eq : (s t : Text) → text_eq s t ≡ true → s ≡ t
unfolding text_eq
text_eq→eq [] [] h = refl
text_eq→eq [] (y ∷ t) h = ground arith
text_eq→eq (x ∷ s) [] h = ground arith
text_eq→eq (x ∷ s) (y ∷ t) h = ground (arith, text_eq→eq s t)

pub text_eq_refl : (s : Text) → text_eq s s ≡ true
unfolding text_eq
text_eq_refl [] = refl
text_eq_refl (x ∷ s) = ground (arith, text_eq_refl s)
