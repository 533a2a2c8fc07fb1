-- ===== src/Vm/Delist.antt =====
-- `delist_pgn_node` of src/mm.c on a list that `enlist_pgn_node` has built.
use operating_systems_simula.Prelude.{
  ℕ, suc, ◌+◌, ◌≡◌, refl, ◌∙◌, ap, Option, none, some, List, [], ◌∷◌, ◌++◌, arith, length,
  length-append,
}
use operating_systems_simula.Vm.{enlist_pgn_node}

-- `while (pnode != NULL && pnode->pg_next != NULL)`, from a node on.
unfoldable pub last_pgn : ℕ → List ℕ → ℕ
last_pgn pgn [] = pgn
last_pgn pgn (next ∷ rest) = last_pgn next rest

-- The page number of the last node, with the place of that node, which is freed. The list is not
-- changed: the node before still leads there. `none` is -1.
unfoldable pub delist_pgn_node : List ℕ → Option (ℕ × ℕ)
unfolding last_pgn
delist_pgn_node [] = none
delist_pgn_node (pgn ∷ rest) = some (last_pgn pgn rest, length rest)

-- Pages enlisted one after another.
unfoldable pub enlist_all : List ℕ → List ℕ → List ℕ
enlist_all [] plist = plist
enlist_all (pgn ∷ pgns) plist = enlist_all pgns (enlist_pgn_node plist pgn)

last_pgn-last : (pgn : ℕ) (ps : List ℕ) (q : ℕ) → last_pgn pgn (ps ++ (q ∷ [])) ≡ q
unfolding last_pgn
last_pgn-last pgn [] q = refl
last_pgn-last pgn (p ∷ ps) q = last_pgn-last p ps q

delist-last : (ps : List ℕ) (q : ℕ) → delist_pgn_node (ps ++ (q ∷ [])) ≡ some (q, length ps)
unfolding delist_pgn_node last_pgn
delist-last [] q = refl
delist-last (p ∷ ps) q =
    ap (λ l. some (last_pgn p (ps ++ (q ∷ [])), l)) (length-append ps (q ∷ []) ∙ omega arith)
    ∙ ap (λ l. some (l, suc (length ps))) (last_pgn-last p ps q)

enlist_all-tail :
    (pgns ps : List ℕ) (q : ℕ)
    → (rs : List ℕ) × (enlist_all pgns (ps ++ (q ∷ [])) ≡ rs ++ (q ∷ []))
      × (length rs ≡ length pgns + length ps)
unfolding enlist_all enlist_pgn_node
enlist_all-tail [] ps q = (ps, refl, omega arith)
enlist_all-tail (pgn ∷ pgns) ps q =
    let (rs, e, l) = enlist_all-tail pgns (pgn ∷ ps) q in (rs, e, omega (arith, l))

-- Of pages enlisted one after another `delist_pgn_node` gives the oldest, and frees its node, which
-- stays the last of the list.
pub delist_pgn_node-oldest :
    (oldest : ℕ) (pgns : List ℕ)
    → delist_pgn_node (enlist_all pgns (enlist_pgn_node [] oldest)) ≡ some (oldest, length pgns)
unfolding enlist_pgn_node
delist_pgn_node-oldest oldest pgns =
    let (rs, e, l) = enlist_all-tail pgns [] oldest in
    ap delist_pgn_node e ∙ delist-last rs oldest ∙ ap (λ n. some (oldest, n)) (omega (arith, l))
