-- ===== src/Prelude/Perms.antt =====
-- Permutations of appended lists.
use mathlib.Core.Path.{subst}
use mathlib.Core.List.{List, Perm, ◌++◌, append_assoc}
use mathlib.Core.List.Perm
use mathlib.Core.List.Permᴰ

module _ {ℓ} {A : Type ℓ} where
  pub swap_front : (xs ys zs : List A) → Perm (xs ++ (ys ++ zs)) (ys ++ (xs ++ zs))
  swap_front xs ys zs =
      subst (λ l. Perm l (ys ++ (xs ++ zs))) (append_assoc xs ys zs)
        (subst (λ l. Perm ((xs ++ ys) ++ zs) l) (append_assoc ys xs zs)
          (Perm.append_right zs ∣ Permᴰ.append_comm xs ys ∣₁))

  -- Two steps that each account for what comes in, `a`, and what goes out, `f`, account together.
  pub account :
      (a a' f f' xs ys zs : List A)
      → Perm (a ++ xs) (f ++ ys)
      → Perm (a' ++ ys) (f' ++ zs)
      → Perm ((a ++ a') ++ xs) ((f ++ f') ++ zs)
  account a a' f f' xs ys zs first rest =
      rw (append_assoc a a' xs, append_assoc f f' zs)
        (Perm.trans (swap_front a a' xs) (
          Perm.trans (Perm.append_left a' first)
            (Perm.trans (swap_front a' f ys) (Perm.append_left f rest))))
