-- ===== src/Scanner.antt =====
-- What the program reads its files with: `fscanf` of the C library, as the interface that src/loader.c
-- and src/os.c use, and what is relied on of it.
pub mod Tokens
use Prim.Native.String.{String}
use operating_systems_simula.Prelude.{
  ℕ, suc, ◌^◌, ◌<◌, ◌≡◌, Bool, true, false, Option, none, some, List, [], ◌∷◌,
}

-- A file at a place, and the conversions `%s`, `%u`, `%d` and `%lu` there. Where a conversion fails it
-- stores nothing; what it has read is gone. A `%u` stores an `unsigned int`, a `%d` an `int` by its bit
-- pattern, a `%lu` an `unsigned long`. Each skips the white space before it, so the `\n` at the end of a
-- format changes no value that is read.
pub record Scanner : Type 1 where
  pub File : Type 0
  pub word : File → Option String × File
  pub number : File → Option ℕ × File
  pub int : File → Option ℕ × File
  pub long : File → Option ℕ × File
  pub number_below : (f g : File) (n : ℕ) → number f ≡ (some n, g) → n < 2 ^ 32

-- The bytes of a text.
abbrev pub bytes : String → ℕ
bytes String.[] = 0
bytes (String.◌∷◌ c s) = suc (bytes s)

-- `%s` stores at the end of the word a zero byte.
abbrev pub stored : String → ℕ
stored s = suc (bytes s)

-- Files that are written as words and numbers with white space between them, and what `fscanf` reads of
-- them. `IsWord` says which words are fit: those with no white space in them that are not empty.
pub record Printer (sc : Scanner) : Type 1 where
  pub IsWord : String → Type 0
  pub put_word : String → sc.File → sc.File
  pub put_number : ℕ → sc.File → sc.File
  pub word_read : (w : String) (f : sc.File) → IsWord w → sc.word (put_word w f) ≡ (some w, f)
  pub number_read : (n : ℕ) (f : sc.File) → n < 2 ^ 32 → sc.number (put_number n f) ≡ (some n, f)
  pub int_read : (n : ℕ) (f : sc.File) → n < 2 ^ 31 → sc.int (put_number n f) ≡ (some n, f)
  pub long_read : (n : ℕ) (f : sc.File) → n < 2 ^ 64 → sc.long (put_number n f) ≡ (some n, f)

-- A format of conversions of numbers, with what the variables hold before: the first one that fails is the
-- last one that is tried.
abbrev pub scan_then {ℓ} :
    {File : Type ℓ} → Option ℕ × File → ℕ → List ℕ → (File → List ℕ × File) → List ℕ × File
scan_then (none, g) old olds more = (old ∷ olds, g)
scan_then (some n, g) old olds more = (n ∷ (more g).0, (more g).1)

module _ (sc : Scanner) where
  unfoldable pub numbers : sc.File → List ℕ → List ℕ × sc.File
  numbers f [] = ([], f)
  numbers f (old ∷ olds) = scan_then (sc.number f) old olds (λ g. numbers g olds)

  unfoldable pub ints : sc.File → List ℕ → List ℕ × sc.File
  ints f [] = ([], f)
  ints f (old ∷ olds) = scan_then (sc.int f) old olds (λ g. ints g olds)
