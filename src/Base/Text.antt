-- ===== src/Base/Text.antt =====
-- The methods of Python's `str` that the program uses. Case is changed on ASCII letters only.
use Prim.Native.Nat.{ℕ, zero, suc, ◌/◌, ◌%◌}
use Prim.Native.Char.{Char, code}
use Prim.Native.String.{String}
use mathlib.Core.Path.{◌≡◌, refl, ap}
use native.Mathlib.Omega.{arith}
use mathlib.Core.Bool.{Bool, true, false, ◌&&◌, ◌||◌}
use mathlib.Core.Option.{Option, none, some}
use mathlib.Core.List.{List, [], ◌∷◌}
use quality_flow.Base.Tests.{leb, ltb, ◌==ℕ◌, if◌then◌else◌}

-- `str.isspace` of one character
abbrev pub is_space : ℕ → Bool
is_space n =
    n ==ℕ 32
    || (leb 9 n && leb n 13)
    || (leb 28 n && leb n 31)
    || n ==ℕ 0x85
    || n ==ℕ 0xa0
    || n ==ℕ 0x1680
    || (leb 0x2000 n && leb n 0x200a)
    || n ==ℕ 0x2028
    || n ==ℕ 0x2029
    || n ==ℕ 0x202f
    || n ==ℕ 0x205f
    || n ==ℕ 0x3000

abbrev pub is_empty : String → Bool
is_empty String.[] = true
is_empty (String.◌∷◌ _ _) = false

abbrev pub is_slash : Char → Bool
is_slash c = code c ==ℕ 47

unfoldable pub lstrip : String → String
lstrip String.[] = String.[]
lstrip (String.◌∷◌ c s) = let rest = lstrip s in if is_space (code c) then rest else String.◌∷◌ c s

unfoldable pub rstrip : String → String
rstrip String.[] = String.[]
rstrip (String.◌∷◌ c s) =
    let rest = rstrip s in
    if is_space (code c) && is_empty rest then String.[] else String.◌∷◌ c rest

unfoldable pub strip : String → String
unfolding lstrip rstrip
strip s = rstrip (lstrip s)

infixr 65 ◌<>◌
unfoldable pub ◌<>◌ : String → String → String
String.[] <> t = t
String.◌∷◌ c s <> t = String.◌∷◌ c (s <> t)

-- One character at the end, as a list of characters grows before it is joined.
abbrev pub push : String → Char → String
push s c = s <> String.◌∷◌ c String.[]

abbrev case_pairs : List (Char × Char)
case_pairs =
    ("A", "a")
    ∷ ("B", "b")
    ∷ ("C", "c")
    ∷ ("D", "d")
    ∷ ("E", "e")
    ∷ ("F", "f")
    ∷ ("G", "g")
    ∷ ("H", "h")
    ∷ ("I", "i")
    ∷ ("J", "j")
    ∷ ("K", "k")
    ∷ ("L", "l")
    ∷ ("M", "m")
    ∷ ("N", "n")
    ∷ ("O", "o")
    ∷ ("P", "p")
    ∷ ("Q", "q")
    ∷ ("R", "r")
    ∷ ("S", "s")
    ∷ ("T", "t")
    ∷ ("U", "u")
    ∷ ("V", "v")
    ∷ ("W", "w")
    ∷ ("X", "x")
    ∷ ("Y", "y")
    ∷ ("Z", "z")
    ∷ []

lower_char : List (Char × Char) → Char → Char
lower_char [] c = c
lower_char ((u, l) ∷ ps) c = if code u ==ℕ code c then l else lower_char ps c

upper_char : List (Char × Char) → Char → Char
upper_char [] c = c
upper_char ((u, l) ∷ ps) c = if code l ==ℕ code c then u else upper_char ps c

unfoldable pub lower : String → String
unfolding lower_char
lower String.[] = String.[]
lower (String.◌∷◌ c s) = String.◌∷◌ (lower_char case_pairs c) (lower s)

unfoldable pub upper : String → String
unfolding upper_char
upper String.[] = String.[]
upper (String.◌∷◌ c s) = String.◌∷◌ (upper_char case_pairs c) (upper s)

digit_text : ℕ → String
digit_text n =
    if n ==ℕ 0
    then "0"
    else if n ==ℕ 1
    then "1"
    else if n ==ℕ 2
    then "2"
    else if n ==ℕ 3
    then "3"
    else if n ==ℕ 4
    then "4"
    else if n ==ℕ 5
    then "5"
    else if n ==ℕ 6
    then "6"
    else if n ==ℕ 7
    then "7"
    else if n ==ℕ 8
    then "8"
    else "9"

-- The digits of a number before a text. The fuel is more than the number, and each step divides it
-- by ten.
decimal_digits : ℕ → ℕ → String → String
unfolding digit_text
decimal_digits zero n acc = acc
decimal_digits (suc fuel) n acc =
    let rest = decimal_digits fuel (n / 10) (digit_text (n % 10) <> acc) in
    if leb n 9 then digit_text n <> acc else rest

-- `str(n)`
unfoldable pub decimal : ℕ → String
unfolding decimal_digits
decimal n = decimal_digits (suc n) n ""

-- `str(x or "")` where `x` is a text or `None`
abbrev pub or_empty : Option String → String
or_empty none = ""
or_empty (some s) = s

-- `s or None`
abbrev pub or_none : String → Option String
or_none String.[] = none
or_none (String.◌∷◌ c s) = some (String.◌∷◌ c s)

-- `a or b` on texts
abbrev pub or_else : String → String → String
or_else String.[] b = b
or_else (String.◌∷◌ c s) b = String.◌∷◌ c s

pub append-nil : (s : String) → s <> String.[] ≡ s
unfolding ◌<>◌
append-nil String.[] = refl
append-nil (String.◌∷◌ c s) = ap (String.◌∷◌ c) (append-nil s)

pub append_assoc : (s t u : String) → (s <> t) <> u ≡ s <> (t <> u)
unfolding ◌<>◌
append_assoc String.[] t u = refl
append_assoc (String.◌∷◌ c s) t u = ap (String.◌∷◌ c) (append_assoc s t u)

pub is_empty-append : (s t : String) → is_empty t ≡ false → is_empty (s <> t) ≡ false
unfolding ◌<>◌
is_empty-append String.[] t h = h
is_empty-append (String.◌∷◌ c s) t h = refl

-- Nothing is stripped from a text whose end is not blank, whatever stands before it.
pub rstrip-append : (s t : String) → rstrip t ≡ t → is_empty t ≡ false → rstrip (s <> t) ≡ s <> t
unfolding ◌<>◌ rstrip
rstrip-append String.[] t h e = h
rstrip-append (String.◌∷◌ c s) t h e =
    rw (rstrip-append s t h e, is_empty-append s t e) (ground arith)

strip-example : strip "  a b " ≡ "a b"
unfolding strip
strip-example = refl

upper-example : upper "Abort" ≡ "ABORT"
unfolding upper
upper-example = refl

decimal-example : decimal 1205 ≡ "1205"
unfolding decimal ◌<>◌
decimal-example = refl

-- Texts are compared by their characters.
unfoldable pub text_ltb : String → String → Bool
text_ltb s String.[] = false
text_ltb String.[] (String.◌∷◌ c t) = true
text_ltb (String.◌∷◌ c s) (String.◌∷◌ d t) =
    ltb (code c) (code d) || (code c ==ℕ code d && text_ltb s t)
