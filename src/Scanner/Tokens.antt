-- ===== src/Scanner/Tokens.antt =====
-- A scanner over a list of words and numbers, which shows that what is relied on can be met.
use Prim.Native.String.{String}
use operating_systems_simula.Prelude.{
  ℕ, ◌^◌, ◌%◌, ◌<◌, ◌≡◌, refl, ap, Option, none, some, List, [], ◌∷◌, arith,
}
use operating_systems_simula.Scanner.{Scanner, Printer}

pub data Token : Type 0 where
  letters : String → Token
  digits : ℕ → Token

abbrev pub read_word : List Token → Option String × List Token
read_word [] = (none, [])
read_word (letters w ∷ f) = (some w, f)
read_word (digits n ∷ f) = (none, f)

-- A number that is too large for `w` bits is read modulo the word.
abbrev pub read_bits : ℕ → List Token → Option ℕ × List Token
read_bits w [] = (none, [])
read_bits w (letters v ∷ f) = (none, letters v ∷ f)
read_bits w (digits n ∷ f) = (some (n % 2 ^ w), f)

abbrev pub read_number : List Token → Option ℕ × List Token
read_number = read_bits 32

value : Option ℕ × List Token → ℕ
value (none, f) = 0
value (some n, f) = n

pub read_number_below : (f g : List Token) (n : ℕ) → read_number f ≡ (some n, g) → n < 2 ^ 32
unfolding value
read_number_below [] g n e = absurd cc
read_number_below (letters w ∷ f) g n e = absurd cc
read_number_below (digits m ∷ f) g n e =
    let same : m % 2 ^ 32 ≡ n = ap value e in omega (arith, same)

abbrev pub tokens : Scanner
tokens = record {
  File = List Token;
  word = read_word;
  number = read_number;
  int = read_number;
  long = read_bits 64;
  number_below = read_number_below;
}

pub read_number-digits :
    (n : ℕ) (f : List Token) → n < 2 ^ 32 → read_number (digits n ∷ f) ≡ (some n, f)
read_number-digits n f h = let e : n % 2 ^ 32 ≡ n = omega arith in ap (λ m. (some m, f)) e

pub read_long-digits :
    (n : ℕ) (f : List Token) → n < 2 ^ 64 → read_bits 64 (digits n ∷ f) ≡ (some n, f)
read_long-digits n f h = let e : n % 2 ^ 64 ≡ n = omega arith in ap (λ m. (some m, f)) e

abbrev pub token_printer : Printer tokens
token_printer = record {
  IsWord = λ w. Unit {0};
  put_word = λ w f. letters w ∷ f;
  put_number = λ n f. digits n ∷ f;
  word_read = λ w f h. refl;
  number_read = read_number-digits;
  int_read = λ n f h. read_number-digits n f (omega (arith, h));
  long_read = read_long-digits;
}
