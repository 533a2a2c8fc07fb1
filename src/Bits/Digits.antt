-- ===== src/Bits/Digits.antt =====
-- `bit_and` and `bit_or` digit by digit, and on numbers put together from a high and a low part.
use Prim.Native.Nat.{min, max, digits, bitwise, bit_and-bitwise, bit_or-bitwise}
use native.Mathlib.Nat.{pow-suc}
use operating_systems_simula.Prelude.{
  ℕ, zero, suc, ◌+◌, ◌-◌, ◌*◌, ◌/◌, ◌%◌, ◌^◌, ◌≤◌, ◌<◌, ◌≡◌, refl, sym, ◌∙◌, ap, arith, bit_and,
  bit_or,
}

-- Any fuel from the first number on gives the same digits.
enough_fuel :
    (base : ℕ → ℕ) (op : ℕ → ℕ → ℕ) (m n x y : ℕ)
    → x ≤ m
    → x ≤ n
    → digits base op m x y ≡ digits base op n x y
enough_fuel base op zero zero x y a b = refl
enough_fuel base op (suc m) zero zero y a b = refl
enough_fuel base op (suc m) zero (suc x) y a b = absurd (omega arith)
enough_fuel base op zero (suc n) zero y a b = refl
enough_fuel base op zero (suc n) (suc x) y a b = absurd (omega arith)
enough_fuel base op (suc m) (suc n) zero y a b = refl
enough_fuel base op (suc m) (suc n) (suc x) y a b =
    ap (λ high. high * 2 + op (suc x % 2) (y % 2))
      (enough_fuel base op m n (suc x / 2) (y / 2) (omega arith) (omega arith))

last_digit :
    (base : ℕ → ℕ) (op : ℕ → ℕ → ℕ) (x y : ℕ)
    → bitwise base op (suc x) y ≡ bitwise base op (suc x / 2) (y / 2) * 2 + op (suc x % 2) (y % 2)
last_digit base op x y =
    ap (λ high. high * 2 + op (suc x % 2) (y % 2))
      (enough_fuel base op x (suc x / 2) (suc x / 2) (y / 2) (omega arith) (omega arith))

pub bit_and_last : (x y : ℕ) → bit_and x y ≡ bit_and (x / 2) (y / 2) * 2 + min (x % 2) (y % 2)
bit_and_last zero y = omega (arith, bit_and-bitwise 0 y, bit_and-bitwise 0 (y / 2))
bit_and_last (suc x) y =
    bit_and-bitwise (suc x) y
    ∙ last_digit (λ _. 0) min x y
    ∙ ap (λ high. high * 2 + min (suc x % 2) (y % 2)) (sym (bit_and-bitwise (suc x / 2) (y / 2)))

pub bit_or_last : (x y : ℕ) → bit_or x y ≡ bit_or (x / 2) (y / 2) * 2 + max (x % 2) (y % 2)
bit_or_last zero y = omega (arith, bit_or-bitwise 0 y, bit_or-bitwise 0 (y / 2))
bit_or_last (suc x) y =
    bit_or-bitwise (suc x) y
    ∙ last_digit (λ d. d) max x y
    ∙ ap (λ high. high * 2 + max (suc x % 2) (y % 2)) (sym (bit_or-bitwise (suc x / 2) (y / 2)))

-- An operation that works digit by digit acts on the parts of `hi * 2 ^ k + lo`.
module _ (op digit : ℕ → ℕ → ℕ) (zeros : op 0 0 ≡ 0)
    (last : (x y : ℕ) → op x y ≡ op (x / 2) (y / 2) * 2 + digit (x % 2) (y % 2)) where
  op-parts :
      (k hi lo hi' lo' : ℕ)
      → lo < 2 ^ k
      → lo' < 2 ^ k
      → op (hi * 2 ^ k + lo) (hi' * 2 ^ k + lo') ≡ op hi hi' * 2 ^ k + op lo lo'
  op-parts zero hi lo hi' lo' h h' =
      let a : lo ≡ 0 = omega arith in
      let b : lo' ≡ 0 = omega arith in
      let c : hi * 1 + 0 ≡ hi = omega arith in
      let d : hi' * 1 + 0 ≡ hi' = omega arith in rw (a, b, c, d) (omega (arith, zeros))
  op-parts (suc k) hi lo hi' lo' h h' =
      let p : 2 ^ suc k ≡ 2 ^ k * 2 = pow-suc 2 k in
      let a : (hi * 2 ^ suc k + lo) / 2 ≡ hi * 2 ^ k + lo / 2 = rw p (omega arith) in
      let b : (hi' * 2 ^ suc k + lo') / 2 ≡ hi' * 2 ^ k + lo' / 2 = rw p (omega arith) in
      let c : (hi * 2 ^ suc k + lo) % 2 ≡ lo % 2 = rw p (omega arith) in
      let d : (hi' * 2 ^ suc k + lo') % 2 ≡ lo' % 2 = rw p (omega arith) in
      let ih : op (hi * 2 ^ k + lo / 2) (hi' * 2 ^ k + lo' / 2)
          ≡ op hi hi' * 2 ^ k + op (lo / 2) (lo' / 2) =
        op-parts k hi (lo / 2) hi' (lo' / 2) (omega (arith, p)) (omega (arith, p)) in
      last (hi * 2 ^ suc k + lo) (hi' * 2 ^ suc k + lo')
      ∙ rw (a, b, c, d, ih, p) (omega (arith, last lo lo'))

pub bit_and-parts :
    (k hi lo hi' lo' : ℕ)
    → lo < 2 ^ k
    → lo' < 2 ^ k
    → bit_and (hi * 2 ^ k + lo) (hi' * 2 ^ k + lo') ≡ bit_and hi hi' * 2 ^ k + bit_and lo lo'
bit_and-parts = op-parts bit_and min refl bit_and_last

pub bit_or-parts :
    (k hi lo hi' lo' : ℕ)
    → lo < 2 ^ k
    → lo' < 2 ^ k
    → bit_or (hi * 2 ^ k + lo) (hi' * 2 ^ k + lo') ≡ bit_or hi hi' * 2 ^ k + bit_or lo lo'
bit_or-parts = op-parts bit_or max refl bit_or_last

pub bit_and-zero_left : (y : ℕ) → bit_and 0 y ≡ 0
bit_and-zero_left y = bit_and-bitwise 0 y

pub bit_or-zero_left : (y : ℕ) → bit_or 0 y ≡ y
bit_or-zero_left y = bit_or-bitwise 0 y

below-half : (k x : ℕ) → x < 2 ^ suc k → x / 2 < 2 ^ k
below-half k x h = let p : 2 ^ suc k ≡ 2 ^ k * 2 = pow-suc 2 k in omega arith

pub bit_and-zero_right : (k x : ℕ) → x < 2 ^ k → bit_and x 0 ≡ 0
bit_and-zero_right zero x h = let e : x ≡ 0 = omega arith in rw e
bit_and-zero_right (suc k) x h =
    omega (arith, bit_and_last x 0, bit_and-zero_right k (x / 2) (below-half k x h))

pub bit_or-zero_right : (k x : ℕ) → x < 2 ^ k → bit_or x 0 ≡ x
bit_or-zero_right zero x h = let e : x ≡ 0 = omega arith in rw e
bit_or-zero_right (suc k) x h =
    omega (arith, bit_or_last x 0, bit_or-zero_right k (x / 2) (below-half k x h))

-- A mask of `k` ones keeps a number of `k` digits.
pub bit_and-ones : (k x : ℕ) → x < 2 ^ k → bit_and x (2 ^ k - 1) ≡ x
bit_and-ones zero x h = let e : x ≡ 0 = omega arith in rw e
bit_and-ones (suc k) x h =
    let p : 2 ^ suc k ≡ 2 ^ k * 2 = pow-suc 2 k in
    let half : (2 ^ suc k - 1) / 2 ≡ 2 ^ k - 1 = rw p (omega arith) in
    let odd : (2 ^ suc k - 1) % 2 ≡ 1 = rw p (omega arith) in
    bit_and_last x (2 ^ suc k - 1)
    ∙ rw (half, odd, bit_and-ones k (x / 2) (below-half k x h)) (omega arith)
