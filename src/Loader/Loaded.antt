-- ===== src/Loader/Loaded.antt =====
-- What `load` returns, whatever the file holds.
use Prim.Native.String.{String}
use operating_systems_simula.Prelude.{
  ℕ, zero, suc, ◌+◌, ◌%◌, ◌^◌, ◌<◌, ◌≡◌, ◌≢◌, refl, sym, ap, subst, Option, none, some, List, [],
  ◌∷◌, arith, length, get_or,
}
use operating_systems_simula.Cpu.{Opcode, calc, alloc, free, read, write, other, Inst, Pcb}
use operating_systems_simula.Scanner.{Scanner, scan_then, numbers}
use operating_systems_simula.Loader.{
  Exit, done, exits, fault, ◌>>=◌, operands, or_exit, get_opcode, decode, scan_opcode, load_text,
  Before, load_code, load,
}

>>=-eq-done {ℓ κ} :
    {A : Type ℓ} {B : Type κ} (m : Exit A) (f : A → Exit B) {b : B}
    → (m >>= f) ≡ done b
    → (a : A) × (m ≡ done a) × (f a ≡ done b)
>>=-eq-done (done a) f h = (a, refl, h)
>>=-eq-done exits f h = cc
>>=-eq-done fault f h = cc

done-injective {ℓ} : {A : Type ℓ} (d : A) (a b : A) → done a ≡ done b → a ≡ b
done-injective {A = A} d a b e = ap from e
  where
    from : Exit A → A
    from (done x) = x
    from exits = d
    from fault = d

or_exit-done {ℓ} : {A : Type ℓ} (o : Option A) (a : A) → or_exit o ≡ done a → o ≡ some a
or_exit-done none a e = absurd cc
or_exit-done (some b) a e = ap some (done-injective a b a e)

-- Every instruction has one of the five opcodes.
unfoldable pub Known : List Inst → Type 0
Known [] = Unit {0}
Known (ins ∷ text) = (ins.opcode ≢ other) × Known text

pub Known-get_or :
    (text : List Inst) (i : ℕ) (d : Inst)
    → Known text
    → i < length text
    → (get_or text i d).opcode ≢ other
unfolding Known
Known-get_or [] i d k h = absurd (omega arith)
Known-get_or (ins ∷ text) zero d k h = k.0
Known-get_or (ins ∷ text) (suc i) d k h = Known-get_or text i d k.1 (omega arith)

scan_then-below {ℓ} :
    {File : Type ℓ} (out : Option ℕ × File) (old : ℕ) (olds : List ℕ) (more : File → List ℕ × File)
    (i : ℕ)
    → ((n : ℕ) → out ≡ (some n, out.1) → n < 2 ^ 32)
    → ((j : ℕ) → get_or (old ∷ olds) j 0 < 2 ^ 32)
    → ((g : File) (j : ℕ) → get_or (more g).0 j 0 < 2 ^ 32)
    → get_or (scan_then out old olds more).0 i 0 < 2 ^ 32
scan_then-below (none, g) old olds more i b h r = h i
scan_then-below (some n, g) old olds more zero b h r = b n refl
scan_then-below (some n, g) old olds more (suc i) b h r = r g i

module _ (sc : Scanner) where
  opcode_of : Option (Inst × sc.File) → Opcode
  opcode_of none = calc
  opcode_of (some (ins, f)) = ins.opcode

  operands-known :
      (op : Opcode) (before ins : Inst) (f g : sc.File)
      → operands sc op before f ≡ some (ins, g)
      → ins.opcode ≢ other
  unfolding operands opcode_of
  operands-known calc before ins f g e x = cc (ap opcode_of e)
  operands-known alloc before ins f g e x = cc (ap opcode_of e)
  operands-known free before ins f g e x = cc (ap opcode_of e)
  operands-known read before ins f g e x = cc (ap opcode_of e)
  operands-known write before ins f g e x = cc (ap opcode_of e)
  operands-known other before ins f g e x = cc

  decode-known :
      (opcode : String) (before : Inst) (f : sc.File) (out : Inst × sc.File)
      → decode sc opcode before f ≡ done out
      → out.0.opcode ≢ other
  unfolding decode
  decode-known opcode before f out e =
      let (op, _, e') = >>=-eq-done (or_exit (get_opcode opcode)) _ e in
      operands-known op before out.0 f out.1 (or_exit-done (operands sc op before f) out e')

  load_text-Known :
      (n : ℕ) (before : ℕ → Inst) (i : ℕ) (opcode : String) (f : sc.File) (text : List Inst)
      → load_text sc n before i opcode f ≡ done text
      → (length text ≡ n) × Known text
  unfolding load_text Known
  load_text-Known zero before i opcode f text e =
      let same : [] ≡ text = done-injective [] [] text e in rw (← same) (refl, tt)
  load_text-Known (suc n) before i opcode f text e =
      let (opcode', _, e₁) = >>=-eq-done (scan_opcode sc opcode (sc.word f).0) _ e in
      let (out, d, e₂) = >>=-eq-done (decode sc opcode' (before i) (sc.word f).1) _ e₁ in
      let (rest, r, e₃) = >>=-eq-done (load_text sc n before (i + 1) opcode' out.1) _ e₂ in
      let (len, known) = load_text-Known n before (i + 1) opcode' out.1 rest r in
      let same : out.0 ∷ rest ≡ text = done-injective [] _ text e₃ in
      rw (← same) (ap suc len, (decode-known opcode' (before i) (sc.word f).1 out d, known))

  numbers-below :
      (f : sc.File) (olds : List ℕ) (i : ℕ)
      → ((j : ℕ) → get_or olds j 0 < 2 ^ 32)
      → get_or (numbers sc f olds).0 i 0 < 2 ^ 32
  unfolding numbers
  numbers-below f [] i h = omega arith
  numbers-below f (old ∷ olds) i h =
      scan_then-below (sc.number f) old olds (λ g. numbers sc g olds) i
        (λ n e. sc.number_below f (sc.number f).1 n e) h
        (λ g j. numbers-below g olds j (λ k. h (suc k)))

-- A process as `load` leaves it: at the first instruction of a program whose instructions are all
-- there and have one of the five opcodes.
pub record IsLoaded (pid : ℕ) (proc : Pcb) : Type 0 where
  pub named : proc.pid ≡ pid
  pub start : proc.pc ≡ 0
  pub whole : length proc.code.text ≡ proc.code.size
  pub word : proc.code.size < 2 ^ 32
  pub known : Known proc.code.text

module _ (sc : Scanner) (before : Before) (pid : ℕ) where
  load_code-IsLoaded :
      (head : List ℕ × sc.File) (proc : Pcb)
      → get_or head.0 1 0 < 2 ^ 32
      → load_code sc before pid head ≡ done proc
      → IsLoaded pid proc
  unfolding load_code
  load_code-IsLoaded (head, f) proc small e =
      let (text, t, e') =
        >>=-eq-done (load_text sc (get_or head 1 0) before.insts 0 before.opcode f) _ e in
      let (len, known) =
        load_text-Known sc (get_or head 1 0) before.insts 0 before.opcode f text t in
      subst (IsLoaded pid) (done-injective before.proc _ proc e')
        (record { named = refl; start = refl; whole = len; word = small; known = known })

  pub load-IsLoaded :
      (file : Option sc.File) (next : ℕ) (proc : Pcb)
      → before.proc.priority < 2 ^ 32
      → before.proc.code.size < 2 ^ 32
      → load sc before pid file ≡ done (next, proc)
      → (next ≡ (pid + 1) % 2 ^ 32) × IsLoaded pid proc
  unfolding load
  load-IsLoaded none next proc p s e = absurd cc
  load-IsLoaded (some file) next proc p s e =
      let olds : List ℕ = before.proc.priority ∷ before.proc.code.size ∷ [] in
      let (proc', l, e') = >>=-eq-done (load_code sc before pid (numbers sc file olds)) _ e in
      let same : ((pid + 1) % 2 ^ 32, proc') ≡ (next, proc) = done-injective (pid, proc') _ _ e' in
      (
        sym (ap (λ o. o.0) same),
        subst (IsLoaded pid) (ap (λ o. o.1) same) (
            load_code-IsLoaded (numbers sc file olds) proc'
              (numbers-below sc file olds 1 (small p s)) l),
      )
    where
      small :
          before.proc.priority < 2 ^ 32
          → before.proc.code.size < 2 ^ 32
          → (j : ℕ) → get_or (before.proc.priority ∷ before.proc.code.size ∷ []) j 0 < 2 ^ 32
      small p s zero = p
      small p s (suc zero) = s
      small p s (suc (suc j)) = omega arith
