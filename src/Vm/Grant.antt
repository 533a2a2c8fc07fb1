-- ===== src/Vm/Grant.antt =====
-- `alloc_pages_range`: which frames it takes, and when it fails.
use operating_systems_simula.Prelude.{
  ℕ, zero, suc, ◌+◌, ◌≡◌, ◌≢◌, refl, sym, ◌∙◌, ap, inl, inr, ◌⊎◌, Bool, true, false, List, [], ◌∷◌,
  ◌++◌, arith, subst, true-ne-false, leb, length,
}
use operating_systems_simula.Memphy.{Memphy, get_freefp, put_usedfp}
use operating_systems_simula.Vm.{Grab, grab_loop, alloc_pages_range}

-- The first list turned round, then the second.
abbrev pub back_onto : List ℕ → List ℕ → List ℕ
back_onto [] m = m
back_onto (x ∷ l) m = back_onto l (x ∷ m)

-- From `g` to `out` up to `n` frames were taken, all of them if `code` is `true`.
pub record Granted (n : ℕ) (g : Grab) (code : Bool) (out : Grab) : Type 0 where
  pub enough : code ≡ leb n (length g.mram.free_fp_list + length g.active_mswp.free_fp_list)
  pub ram_free :
      back_onto out.frm_lst out.mram.free_fp_list ≡ back_onto g.frm_lst g.mram.free_fp_list
  pub swap_free :
      back_onto out.frm_lst_swap out.active_mswp.free_fp_list
      ≡ back_onto g.frm_lst_swap g.active_mswp.free_fp_list
  pub ram_used :
      (used : List ℕ)
      → g.mram.used_fp_list ≡ g.frm_lst ++ used
      → out.mram.used_fp_list ≡ out.frm_lst ++ used
  pub swap_used :
      (used : List ℕ)
      → g.active_mswp.used_fp_list ≡ g.frm_lst_swap ++ used
      → out.active_mswp.used_fp_list ≡ out.frm_lst_swap ++ used
  pub all :
      code ≡ true
      → length out.frm_lst + length out.frm_lst_swap ≡ length g.frm_lst + length g.frm_lst_swap + n
  pub stays_empty : g.mram.free_fp_list ≡ [] → out.mram.free_fp_list ≡ []
  pub ram_first : (out.frm_lst_swap ≡ g.frm_lst_swap) ⊎ (out.mram.free_fp_list ≡ [])

cons_ne_nil : (x : ℕ) (l : List ℕ) → x ∷ l ≢ []
cons_ne_nil x l e = cc

abbrev from_ram : Grab → ℕ → List ℕ → Grab
from_ram g fpn rest = record g {
  mram = put_usedfp (record (g.mram) { free_fp_list = rest }) fpn;
  frm_lst = fpn ∷ g.frm_lst;
}

abbrev from_swap : Grab → ℕ → List ℕ → Grab
from_swap g fpn rest = record g {
  active_mswp = put_usedfp (record (g.active_mswp) { free_fp_list = rest }) fpn;
  frm_lst_swap = fpn ∷ g.frm_lst_swap;
}

grab_loop-from_ram :
    (n : ℕ) (g : Grab) (fpn : ℕ) (rest : List ℕ)
    → g.mram.free_fp_list ≡ fpn ∷ rest
    → grab_loop (suc n) g ≡ grab_loop n (from_ram g fpn rest)
unfolding grab_loop get_freefp
grab_loop-from_ram n g fpn rest e = rw e refl

grab_loop-from_swap :
    (n : ℕ) (g : Grab) (fpn : ℕ) (rest : List ℕ)
    → g.mram.free_fp_list ≡ []
    → g.active_mswp.free_fp_list ≡ fpn ∷ rest
    → grab_loop (suc n) g ≡ grab_loop n (from_swap g fpn rest)
unfolding grab_loop get_freefp
grab_loop-from_swap n g fpn rest e f = rw (e, f) refl

grab_loop-none :
    (n : ℕ) (g : Grab)
    → g.mram.free_fp_list ≡ []
    → g.active_mswp.free_fp_list ≡ []
    → grab_loop (suc n) g ≡ (false, g)
unfolding grab_loop get_freefp
grab_loop-none n g e f = rw (e, f) refl

leb_shift_left : (n a b : ℕ) → leb n (a + b) ≡ leb (suc n) (suc a + b)
leb_shift_left n a b = ground arith

leb_shift_right : (n a b : ℕ) → leb n (a + b) ≡ leb (suc n) (a + suc b)
leb_shift_right n a b = ground arith

Granted-from_ram :
    (n : ℕ) (g : Grab) (fpn : ℕ) (rest : List ℕ) (code : Bool) (out : Grab)
    → g.mram.free_fp_list ≡ fpn ∷ rest
    → Granted n (from_ram g fpn rest) code out
    → Granted (suc n) g code out
unfolding put_usedfp
Granted-from_ram n g fpn rest code out e h = record {
  enough = h.enough ∙ rw e (leb_shift_left n (length rest) (length g.active_mswp.free_fp_list));
  ram_free = h.ram_free ∙ ap (back_onto g.frm_lst) (sym e);
  swap_free = h.swap_free;
  ram_used = λ used u. h.ram_used used (ap (λ l. fpn ∷ l) u);
  swap_used = h.swap_used;
  all = λ c. omega (arith, h.all c);
  stays_empty = λ z. absurd (cons_ne_nil fpn rest (sym e ∙ z));
  ram_first = h.ram_first;
}

Granted-from_swap :
    (n : ℕ) (g : Grab) (fpn : ℕ) (rest : List ℕ) (code : Bool) (out : Grab)
    → g.mram.free_fp_list ≡ []
    → g.active_mswp.free_fp_list ≡ fpn ∷ rest
    → Granted n (from_swap g fpn rest) code out
    → Granted (suc n) g code out
unfolding put_usedfp
Granted-from_swap n g fpn rest code out e f h = record {
  enough = h.enough ∙ rw f (leb_shift_right n (length g.mram.free_fp_list) (length rest));
  ram_free = h.ram_free;
  swap_free = h.swap_free ∙ ap (back_onto g.frm_lst_swap) (sym f);
  ram_used = h.ram_used;
  swap_used = λ used u. h.swap_used used (ap (λ l. fpn ∷ l) u);
  all = λ c. omega (arith, h.all c);
  stays_empty = h.stays_empty;
  ram_first = inr (h.stays_empty e);
}

Granted-none :
    (n : ℕ) (g : Grab)
    → g.mram.free_fp_list ≡ []
    → g.active_mswp.free_fp_list ≡ []
    → Granted (suc n) g false g
Granted-none n g e f = record {
  enough = rw (e, f) (ground arith);
  ram_free = refl;
  swap_free = refl;
  ram_used = λ used u. u;
  swap_used = λ used u. u;
  all = λ c. absurd (true-ne-false (sym c));
  stays_empty = λ z. z;
  ram_first = inl refl;
}

-- The loop, with the two lists of free frames as arguments.
grab_loop-Granted :
    (n : ℕ) (ram swap : List ℕ) (g : Grab)
    → g.mram.free_fp_list ≡ ram
    → g.active_mswp.free_fp_list ≡ swap
    → Granted n g (grab_loop n g).0 (grab_loop n g).1
unfolding grab_loop put_usedfp
grab_loop-Granted zero ram swap g e f = record {
  enough = ground arith;
  ram_free = refl;
  swap_free = refl;
  ram_used = λ used u. u;
  swap_used = λ used u. u;
  all = λ c. omega arith;
  stays_empty = λ z. z;
  ram_first = inl refl;
}
grab_loop-Granted (suc n) (fpn ∷ rest) swap g e f =
    subst (λ r. Granted (suc n) g r.0 r.1) (sym (grab_loop-from_ram n g fpn rest e))
      (Granted-from_ram n g fpn rest _ _ e
        (grab_loop-Granted n rest swap (from_ram g fpn rest) refl f))
grab_loop-Granted (suc n) [] (fpn ∷ rest) g e f =
    subst (λ r. Granted (suc n) g r.0 r.1) (sym (grab_loop-from_swap n g fpn rest e f))
      (Granted-from_swap n g fpn rest _ _ e f
        (grab_loop-Granted n [] rest (from_swap g fpn rest) e refl))
grab_loop-Granted (suc n) [] [] g e f =
    subst (λ r. Granted (suc n) g r.0 r.1) (sym (grab_loop-none n g e f)) (Granted-none n g e f)

-- `alloc_pages_range` succeeds where the two devices together have enough free frames. It takes the
-- frames off the heads of the free lists and lists them as used: none is lost or taken twice, swap
-- is taken only where RAM has run out, and a success takes as many as were asked for.
pub alloc_pages_range-Granted :
    (mram mswp : Memphy) (req : ℕ)
    → Granted req
        (record { mram = mram; active_mswp = mswp; frm_lst = []; frm_lst_swap = [] })
        (alloc_pages_range mram mswp req).0
        (alloc_pages_range mram mswp req).1
unfolding alloc_pages_range
alloc_pages_range-Granted mram mswp req =
    grab_loop-Granted req mram.free_fp_list mswp.free_fp_list
      (record { mram = mram; active_mswp = mswp; frm_lst = []; frm_lst_swap = [] }) refl refl
