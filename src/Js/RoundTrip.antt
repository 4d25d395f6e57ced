-- ===== src/Js/RoundTrip.antt =====
-- `Number(String(n))` is `n`.
use Prim.Native.Char.{Char, code}
use z1mak_cv_queue.Prelude.{
  Bool, Bool-cases, String, arith, inl, inr, ltb, refl, some, suc, true, truthy, zero, ℕ, ◌%◌, ◌&&◌,
  ◌*◌, ◌+◌, ◌-◌, ◌/◌, ◌<◌, ◌≡◌,
}
use z1mak_cv_queue.Prelude.Int.{negsuc, pos, ℤ}
use z1mak_cv_queue.Js.{
  digit, finite, is_digit, negative, number_of, parse_digits, print, print_digits,
}

code-digit : (n : ℕ) → n < 10 → code (digit n) ≡ 48 + n
unfolding digit
code-digit zero h = refl
code-digit (suc zero) h = refl
code-digit (suc (suc zero)) h = refl
code-digit (suc (suc (suc zero))) h = refl
code-digit (suc (suc (suc (suc zero)))) h = refl
code-digit (suc (suc (suc (suc (suc zero))))) h = refl
code-digit (suc (suc (suc (suc (suc (suc zero)))))) h = refl
code-digit (suc (suc (suc (suc (suc (suc (suc zero))))))) h = refl
code-digit (suc (suc (suc (suc (suc (suc (suc (suc zero)))))))) h = refl
code-digit (suc (suc (suc (suc (suc (suc (suc (suc (suc zero))))))))) h = refl
code-digit (suc (suc (suc (suc (suc (suc (suc (suc (suc (suc n)))))))))) h = absurd (omega arith)

parse-digit :
    (a n : ℕ) (s : String)
    → n < 10
    → parse_digits a (String.◌∷◌ (digit n) s) ≡ parse_digits (a * 10 + n) s
unfolding parse_digits
parse-digit a n s h = ground (arith, code-digit n h)

parse-print :
    (f n : ℕ) (s : String) → n < f → parse_digits 0 (print_digits f n s) ≡ parse_digits n s
unfolding print_digits
parse-print zero n s h = absurd (omega arith)
parse-print (suc f) n s h = elim (Bool-cases (ltb n 10)) [
  | inl small ↦ rw small (ground (arith, parse-digit 0 n s))
  | inr big ↦ rw big (
      ground (
        arith,
        parse-print f (n / 10) (String.◌∷◌ (digit (n % 10)) s),
        parse-digit (n / 10) (n % 10) s,
      ))
]

parse-number : (s : String) (n : ℕ) → parse_digits 0 s ≡ some n → number_of s ≡ finite (pos n)
unfolding number_of
parse-number String.[] n h = ground arith
parse-number (String.◌∷◌ c s) n h = ground arith

parse-negative :
    (s : String) (n : ℕ) → parse_digits 0 s ≡ some (suc n) → negative s ≡ finite (negsuc n)
unfolding negative parse_digits
parse-negative String.[] n h = ground arith
parse-negative (String.◌∷◌ c s) n h = ground arith

number-minus : (s : String) → number_of (String.◌∷◌ "-" s) ≡ negative s
unfolding number_of
number-minus s = refl

-- Printing an integer and reading it back gives the integer.
pub number-print : (n : ℤ) → number_of (print n) ≡ finite n
unfolding print parse_digits
number-print (pos n) = parse-number _ n (parse-print (suc n) n "" (omega arith))
number-print (negsuc n) =
    rw number-minus (parse-negative _ n (parse-print (suc (suc n)) (suc n) "" (omega arith)))

truthy_digits :
    (f n : ℕ) (c : Char) (s : String) → truthy (print_digits f n (String.◌∷◌ c s)) ≡ true
unfolding print_digits
truthy_digits zero n c s = refl
truthy_digits (suc f) n c s = elim (Bool-cases (ltb n 10)) [
  | inl small ↦ rw small
  | inr big ↦ rw big (truthy_digits f (n / 10) (digit (n % 10)) (String.◌∷◌ c s))
]

truthy_top : (f n : ℕ) → truthy (print_digits (suc f) n "") ≡ true
unfolding print_digits
truthy_top f n = elim (Bool-cases (ltb n 10)) [
  | inl small ↦ rw small
  | inr big ↦ rw big (truthy_digits f (n / 10) (digit (n % 10)) "")
]

-- A printed number is not the empty text, which stands for a missing limit.
pub truthy-print : (n : ℤ) → truthy (print n) ≡ true
unfolding print
truthy-print (pos n) = truthy_top n n
truthy-print (negsuc n) = refl

abbrev pub only_digits : String → Bool
only_digits String.[] = true
only_digits (String.◌∷◌ c s) = is_digit (code c) && only_digits s

parse-only_digits : (a k : ℕ) (s : String) → parse_digits a s ≡ some k → only_digits s ≡ true
unfolding parse_digits
parse-only_digits a k String.[] h = refl
parse-only_digits a k (String.◌∷◌ c s) h =
    ground (arith, parse-only_digits (a * 10 + (code c - 48)) k s)

pub print-only_digits : (n : ℕ) → only_digits (print (pos n)) ≡ true
unfolding print parse_digits
print-only_digits n =
    parse-only_digits 0 n (print_digits (suc n) n "") (parse-print (suc n) n "" (omega arith))
