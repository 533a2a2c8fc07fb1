-- ===== src/Loader/Print.antt =====
-- Program files, and what `load` makes of them.
use Prim.Native.String.{String}
use operating_systems_simula.Prelude.{
  ℕ, ◌+◌, ◌^◌, ◌<◌, ◌≡◌, ◌≢◌, refl, ap, ◌∙◌, some, List, [], ◌∷◌, length, false, ltb,
}
use operating_systems_simula.Cpu.{Opcode, calc, alloc, free, read, write, other, Inst}
use operating_systems_simula.Scanner.{Scanner, Printer, scan_then, numbers, stored}
use operating_systems_simula.Loader.{done, get_opcode, operands, decode, opcode_places}

unfoldable pub name_of : Opcode → String
name_of calc = "calc"
name_of alloc = "alloc"
name_of free = "free"
name_of read = "read"
name_of write = "write"
name_of other = "other"

pub get_opcode-name_of : (op : Opcode) → op ≢ other → get_opcode (name_of op) ≡ some op
unfolding get_opcode name_of
get_opcode-name_of calc ne = refl
get_opcode-name_of alloc ne = refl
get_opcode-name_of free ne = refl
get_opcode-name_of read ne = refl
get_opcode-name_of write ne = refl
get_opcode-name_of other ne = absurd (ne refl)

pub name_of-fits : (op : Opcode) → ltb opcode_places (stored (name_of op)) ≡ false
unfolding name_of
name_of-fits calc = refl
name_of-fits alloc = refl
name_of-fits free = refl
name_of-fits read = refl
name_of-fits write = refl
name_of-fits other = refl

-- The instruction that is read into `before`: operands that the opcode does not have stay.
unfoldable pub fill : Opcode → Inst → Inst → Inst
fill calc before ins = record before { opcode = calc }
fill alloc before ins = record before { opcode = alloc; arg_0 = ins.arg_0; arg_1 = ins.arg_1 }
fill free before ins = record before { opcode = free; arg_0 = ins.arg_0 }
fill read before ins = record ins { opcode = read }
fill write before ins = record ins { opcode = write }
fill other before ins = before

unfoldable pub filled : (ℕ → Inst) → ℕ → List Inst → List Inst
filled before i [] = []
filled before i (ins ∷ text) = fill ins.opcode (before i) ins ∷ filled before (i + 1) text

-- An instruction of one of the five opcodes, with operands that are words.
pub record IsInst (ins : Inst) : Type 0 where
  pub known : ins.opcode ≢ other
  pub arg_0 : ins.arg_0 < 2 ^ 32
  pub arg_1 : ins.arg_1 < 2 ^ 32
  pub arg_2 : ins.arg_2 < 2 ^ 32

unfoldable pub AreInsts : List Inst → Type 0
AreInsts [] = Unit {0}
AreInsts (ins ∷ text) = IsInst ins × AreInsts text

module _ (sc : Scanner) (pr : Printer sc) where
  unfoldable pub print_operands : Opcode → Inst → sc.File → sc.File
  print_operands calc ins f = f
  print_operands alloc ins f = pr.put_number ins.arg_0 (pr.put_number ins.arg_1 f)
  print_operands free ins f = pr.put_number ins.arg_0 f
  print_operands read ins f =
      pr.put_number ins.arg_0 (pr.put_number ins.arg_1 (pr.put_number ins.arg_2 f))
  print_operands write ins f =
      pr.put_number ins.arg_0 (pr.put_number ins.arg_1 (pr.put_number ins.arg_2 f))
  print_operands other ins f = f

  unfoldable pub print_text : List Inst → sc.File → sc.File
  unfolding name_of print_operands
  print_text [] f = f
  print_text (ins ∷ text) f =
      pr.put_word (name_of ins.opcode) (print_operands ins.opcode ins (print_text text f))

  -- The file of a process: its priority, the number of its instructions, and these.
  unfoldable pub print : ℕ → List Inst → sc.File → sc.File
  unfolding print_text
  print priority text f = pr.put_number priority (pr.put_number (length text) (print_text text f))

  -- The five names are words.
  pub record Names : Type 0 where
    pub is_word : (op : Opcode) → op ≢ other → pr.IsWord (name_of op)

  -- The first conversion of a format that succeeds.
  numbers-cons :
      (a x : ℕ) (xs : List ℕ) (f : sc.File)
      → a < 2 ^ 32
      → numbers sc (pr.put_number a f) (x ∷ xs) ≡ (a ∷ (numbers sc f xs).0, (numbers sc f xs).1)
  unfolding numbers
  numbers-cons a x xs f h = ap (λ o. scan_then o x xs (λ g. numbers sc g xs)) (pr.number_read a f h)

  pub numbers_two :
      (a b x y : ℕ) (f : sc.File)
      → a < 2 ^ 32
      → b < 2 ^ 32
      → numbers sc (pr.put_number a (pr.put_number b f)) (x ∷ y ∷ []) ≡ (a ∷ b ∷ [], f)
  unfolding numbers
  numbers_two a b x y f h k =
      numbers-cons a x (y ∷ []) (pr.put_number b f) h
      ∙ ap (λ o. (a ∷ o.0, o.1)) (numbers-cons b y [] f k)

  numbers_three :
      (a b c x y z : ℕ) (f : sc.File)
      → a < 2 ^ 32
      → b < 2 ^ 32
      → c < 2 ^ 32
      → numbers sc (pr.put_number a (pr.put_number b (pr.put_number c f))) (x ∷ y ∷ z ∷ [])
        ≡ (a ∷ b ∷ c ∷ [], f)
  numbers_three a b c x y z f h k l =
      numbers-cons a x (y ∷ z ∷ []) (pr.put_number b (pr.put_number c f)) h
      ∙ ap (λ o. (a ∷ o.0, o.1)) (numbers_two b c y z f k l)

  operands-print :
      (op : Opcode) (before ins : Inst) (f : sc.File)
      → op ≢ other
      → IsInst ins
      → operands sc op before (print_operands op ins f) ≡ some (fill op before ins, f)
  unfolding operands print_operands fill numbers
  operands-print calc before ins f ne v = refl
  operands-print alloc before ins f ne v =
      rw (numbers_two ins.arg_0 ins.arg_1 before.arg_0 before.arg_1 f v.arg_0 v.arg_1) refl
  operands-print free before ins f ne v = rw (numbers-cons ins.arg_0 before.arg_0 [] f v.arg_0) refl
  operands-print read before ins f ne v =
      rw
        (numbers_three ins.arg_0 ins.arg_1 ins.arg_2 before.arg_0 before.arg_1 before.arg_2 f
          v.arg_0 v.arg_1 v.arg_2)
        refl
  operands-print write before ins f ne v =
      rw
        (numbers_three ins.arg_0 ins.arg_1 ins.arg_2 before.arg_0 before.arg_1 before.arg_2 f
          v.arg_0 v.arg_1 v.arg_2)
        refl
  operands-print other before ins f ne v = absurd (ne refl)

  pub decode-print :
      (before ins : Inst) (f : sc.File)
      → IsInst ins
      → decode sc (name_of ins.opcode) before (print_operands ins.opcode ins f)
        ≡ done (fill ins.opcode before ins, f)
  unfolding decode
  decode-print before ins f v =
      rw (get_opcode-name_of ins.opcode v.known, operands-print ins.opcode before ins f v.known v)
        refl
