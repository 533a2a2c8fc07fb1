-- ===== src/Loader/RoundTrip.antt =====
-- `load` on the files of Loader/Print.antt: programs are read back, and words that are no opcode are not.
use Prim.Native.String.{String}
use operating_systems_simula.Prelude.{
  ℕ, suc, ◌+◌, ◌%◌, ◌^◌, ◌<◌, ◌≡◌, refl, ap, ◌∙◌, none, some, List, [], ◌∷◌, arith, length, Bool,
  true, false, Bool-cases, inl, inr, ltb, if◌then◌else◌,
}
use operating_systems_simula.Cpu.{Inst}
use operating_systems_simula.Scanner.{Scanner, Printer, stored}
use operating_systems_simula.Loader.{
  Exit, done, exits, fault, ◌>>=◌, get_opcode, decode, scan_opcode, load_text, Before, load_code,
  load, opcode_places,
}
use operating_systems_simula.Loader.Print.{
  name_of, name_of-fits, fill, filled, IsInst, AreInsts, print_operands, print_text, print, Names,
  numbers_two, decode-print,
}

-- An end of the program that is not a return passes through what follows.
stopped->>= {ℓ κ} :
    {A : Type ℓ} {B : Type κ} (b : Bool) (k : A → Exit B)
    → ((if b then fault else exits) >>= k) ≡ (if b then fault else exits)
stopped->>= true k = refl
stopped->>= false k = refl

module _ (sc : Scanner) (pr : Printer sc) (names : Names sc pr) where
  -- One round of the loop of `load` over one printed instruction.
  load_text-cons :
      (n : ℕ) (before : ℕ → Inst) (i : ℕ) (opcode : String) (ins : Inst) (f : sc.File)
      → IsInst ins
      → load_text sc
          (suc n)
          before
          i
          opcode
          (pr.put_word (name_of ins.opcode) (print_operands sc pr ins.opcode ins f))
        ≡ (load_text sc n before (i + 1) (name_of ins.opcode) f >>= λ text.
            done (fill ins.opcode (before i) ins ∷ text))
  unfolding load_text scan_opcode
  load_text-cons n before i opcode ins f v =
      rw
        (
          pr.word_read (name_of ins.opcode) (print_operands sc pr ins.opcode ins f)
              (names.is_word ins.opcode v.known),
          name_of-fits ins.opcode,
          decode-print sc pr (before i) ins f v,
        )
        refl

  load_text-print :
      (before : ℕ → Inst) (i : ℕ) (opcode : String) (text : List Inst) (f : sc.File)
      → AreInsts text
      → load_text sc (length text) before i opcode (print_text sc pr text f)
        ≡ done (filled before i text)
  unfolding load_text print_text filled AreInsts
  load_text-print before i opcode [] f v = refl
  load_text-print before i opcode (ins ∷ text) f v =
      load_text-cons (length text) before i opcode ins (print_text sc pr text f) v.0
      ∙ ap (λ r. r >>= λ rest. done (fill ins.opcode (before i) ins ∷ rest))
          (load_text-print before (i + 1) (name_of ins.opcode) text f v.1)

  -- A word that is no opcode, behind any number of instructions.
  load_text-unknown :
      (n : ℕ) (before : ℕ → Inst) (i : ℕ) (opcode : String) (text : List Inst) (w : String)
      (f : sc.File)
      → AreInsts text
      → pr.IsWord w
      → get_opcode w ≡ none
      → load_text sc (length text + suc n) before i opcode (print_text sc pr text (pr.put_word w f))
        ≡ (if ltb opcode_places (stored w) then fault else exits)
  unfolding load_text print_text AreInsts scan_opcode decode
  load_text-unknown n before i opcode [] w f v fit no_name =
      let e : 0 + suc n ≡ suc n = omega arith in
      rw (e, pr.word_read w f fit)
        (elim (Bool-cases (ltb opcode_places (stored w))) [
          | inl long ↦ rw long refl
          | inr fits ↦ rw (fits, no_name) refl
        ])
  load_text-unknown n before i opcode (ins ∷ text) w f v fit no_name =
      let e : suc (length text) + suc n ≡ suc (length text + suc n) = omega arith in
      rw e (
        load_text-cons (length text + suc n) before i opcode ins
          (print_text sc pr text (pr.put_word w f)) v.0
        ∙ ap (λ r. r >>= λ rest. done (fill ins.opcode (before i) ins ∷ rest))
            (load_text-unknown n before (i + 1) (name_of ins.opcode) text w f v.1 fit no_name)
        ∙ stopped->>= (ltb opcode_places (stored w)) _)

  -- A process whose file was printed is loaded with its number, its priority and its program, where the
  -- operands that an opcode does not have are what `malloc` has left.
  pub load-print :
      (before : Before) (pid priority : ℕ) (text : List Inst) (f : sc.File)
      → priority < 2 ^ 32
      → length text < 2 ^ 32
      → AreInsts text
      → load sc before pid (some (print sc pr priority text f))
        ≡ done (
          (pid + 1) % 2 ^ 32,
          record (before.proc) {
            pid = pid;
            priority = priority;
            code = record { text = filled before.insts 0 text; size = length text };
            pc = 0;
          },
        )
  unfolding load load_code print
  load-print before pid priority text f p l v =
      rw
        (
          numbers_two sc pr priority (length text) before.proc.priority before.proc.code.size
              (print_text sc pr text f) p l,
          load_text-print before.insts 0 before.opcode text f v,
        )
        refl

  -- A word that is no opcode ends the program, wherever it stands behind the instructions of the file
  -- that announces it; but a word of ten bytes or more is written behind the array `opcode`.
  pub load-unknown :
      (before : Before) (pid priority n : ℕ) (text : List Inst) (w : String) (f : sc.File)
      → priority < 2 ^ 32
      → length text + suc n < 2 ^ 32
      → AreInsts text
      → pr.IsWord w
      → get_opcode w ≡ none
      → load sc before pid (
          some (
            pr.put_number priority
              (pr.put_number (length text + suc n) (print_text sc pr text (pr.put_word w f)))))
        ≡ (if ltb opcode_places (stored w) then fault else exits)
  unfolding load load_code
  load-unknown before pid priority n text w f p l v fit no_name =
      rw
        (
          numbers_two sc pr priority (length text + suc n) before.proc.priority
              before.proc.code.size (print_text sc pr text (pr.put_word w f)) p l,
          load_text-unknown n before.insts 0 before.opcode text w f v fit no_name,
        )
        (elim (Bool-cases (ltb opcode_places (stored w))) [
          | inl long ↦ rw long refl
          | inr fits ↦ rw fits refl
        ])
