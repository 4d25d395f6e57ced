-- ===== src/Js.antt =====
-- What the program uses of JavaScript's numbers: `Number(text)` and `String(n)` on decimal integer
-- literals. Fractions, exponents, hexadecimal and surrounding spaces are outside the model, and
-- so are integers past 2 ^ 53.
pub mod RoundTrip
use Prim.Native.Char.{Char, code}
use Prim.Native.String
use z1mak_cv_queue.Prelude.{
  Bool, Option, String, false, if◌then◌else◌, leb, ltb, none, some, suc, true, zero, ℕ, ◌%◌, ◌&&◌,
  ◌*◌, ◌+◌, ◌-◌, ◌/◌, ◌==◌,
}
use z1mak_cv_queue.Prelude.Int.{negsuc, pos, ℤ}

pub data Number : Type 0 where
  finite : ℤ → Number
  infinity : Number
  nan : Number

abbrev is_digit : ℕ → Bool
is_digit c = leb 48 c && leb c 57

parse_digits : ℕ → String → Option ℕ
parse_digits n String.[] = some n
parse_digits n (String.◌∷◌ c rest) =
    let more = parse_digits (n * 10 + (code c - 48)) rest in
    if is_digit (code c) then more else none

abbrev negate : ℕ → ℤ
negate zero = pos 0
negate (suc n) = negsuc n

abbrev or_nan : Option ℤ → Number
or_nan none = nan
or_nan (some n) = finite n

negative : String → Number
unfolding parse_digits
negative String.[] = nan
negative (String.◌∷◌ c rest) =
    or_nan (elim (parse_digits 0 (String.◌∷◌ c rest)) [ none ↦ none | some n ↦ some (negate n) ])

-- `Number(text)`; the empty text is 0.
unfoldable pub number_of : String → Number
unfolding parse_digits negative
number_of String.[] = finite (pos 0)
number_of (String.◌∷◌ c rest) =
    if code c == 45
    then negative rest
    else or_nan (elim (parse_digits 0 (String.◌∷◌ c rest)) [ none ↦ none | some n ↦ some (pos n) ])

digit : ℕ → Char
digit zero = "0"
digit (suc zero) = "1"
digit (suc (suc zero)) = "2"
digit (suc (suc (suc zero))) = "3"
digit (suc (suc (suc (suc zero)))) = "4"
digit (suc (suc (suc (suc (suc zero))))) = "5"
digit (suc (suc (suc (suc (suc (suc zero)))))) = "6"
digit (suc (suc (suc (suc (suc (suc (suc zero))))))) = "7"
digit (suc (suc (suc (suc (suc (suc (suc (suc zero)))))))) = "8"
digit _ = "9"

print_digits : ℕ → ℕ → String → String
print_digits zero n acc = acc
print_digits (suc f) n acc =
    let rest = print_digits f (n / 10) (String.◌∷◌ (digit (n % 10)) acc) in
    if ltb n 10 then String.◌∷◌ (digit n) acc else rest

-- `String(n)`
unfoldable pub print : ℤ → String
unfolding print_digits digit
print (pos n) = print_digits (suc n) n ""
print (negsuc n) = String.◌∷◌ "-" (print_digits (suc (suc n)) (suc n) "")

abbrev pub is_finite : Number → Bool
is_finite (finite n) = true
is_finite _ = false

-- A field that redis/keys.types.ts declares a numeric string; a text that is no integer literal
-- is outside the model.
abbrev pub to_int : Number → ℤ
to_int (finite n) = n
to_int _ = pos 0
