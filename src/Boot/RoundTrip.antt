-- ===== src/Boot/RoundTrip.antt =====
-- `read_config` on the files of Boot/Print.antt, and on a name that is too long.
use Prim.Native.String.{String, ◌++◌ as str_append}
use operating_systems_simula.Prelude.{
  ℕ, suc, ◌+◌, ◌^◌, ◌<◌, ◌≡◌, refl, ap, ◌∙◌, true, some, List, [], ◌∷◌, arith, length, ltb, lt→ltb,
  subst, inl, inr, Bool-cases,
}
use operating_systems_simula.Scanner.{Scanner, Printer, stored, ints}
use operating_systems_simula.Loader.{done, fault, ◌>>=◌}
use operating_systems_simula.Boot.{
  Before, entry, path_places, paging_max_mmswp, entry_start, read_entries, read_sizes, read_config,
}
use operating_systems_simula.Boot.Print.{
  Line, Setup, entries_of, config_of, AreInts, IsLine, AreLines, IsSetup, print_ints, print_line,
  print_lines, print_config, ints-print,
}

module _ (sc : Scanner) (pr : Printer sc) where
  entry_start-print :
      (before : Before) (i : ℕ) (l : Line) (f : sc.File)
      → IsLine sc pr l
      → entry_start sc before i (sc.long (print_line sc pr l f))
        ≡ done (record { path = str_append "input/proc/" l.name; job = l.job }, f)
  unfolding print_line entry
  entry_start-print before i l f v =
      rw
        (
          pr.long_read l.job.start_time (pr.put_word l.name (pr.put_number l.job.prio f))
              v.start_time,
          pr.word_read l.name (pr.put_number l.job.prio f) v.is_word,
          v.name_fits,
          pr.long_read l.job.prio f v.prio,
          v.path_fits,
        )
        refl

  read_entries-print :
      (before : Before) (i : ℕ) (ls : List Line) (f : sc.File)
      → AreLines sc pr ls
      → read_entries sc (length ls) before i (print_lines sc pr ls f) ≡ done (entries_of ls)
  unfolding read_entries print_lines entries_of AreLines
  read_entries-print before i [] f v = refl
  read_entries-print before i (l ∷ ls) f v =
      rw
        (
          entry_start-print before i l (print_lines sc pr ls f) v.0,
          read_entries-print before (i + 1) ls f v.1,
        )
        refl

  read_sizes-print :
      (ns : List ℕ) (f : sc.File)
      → AreInts ns
      → read_sizes sc (length ns) (print_ints sc pr ns f) ≡ (ns, f)
  unfolding read_sizes print_ints AreInts ints
  read_sizes-print [] f v = refl
  read_sizes-print (n ∷ ns) f v =
      rw (pr.int_read n (print_ints sc pr ns f) v.0, read_sizes-print ns f v.1) refl

  -- A line whose path is too long, behind any number of lines that fit.
  read_entries-long :
      (n : ℕ) (before : Before) (i : ℕ) (ls : List Line) (l : Line) (f : sc.File)
      → AreLines sc pr ls
      → pr.IsWord l.name
      → l.job.start_time < 2 ^ 64
      → l.job.prio < 2 ^ 64
      → ltb path_places (stored (str_append "input/proc/" l.name)) ≡ true
      → read_entries sc (length ls + suc n) before i (print_lines sc pr ls (print_line sc pr l f))
        ≡ fault
  unfolding read_entries print_lines AreLines print_line entry
  read_entries-long n before i [] l f v fit start prio long =
      let e : 0 + suc n ≡ suc n = omega arith in
      let word = pr.word_read l.name (pr.put_number l.job.prio f) fit in
      let first =
        pr.long_read l.job.start_time (pr.put_word l.name (pr.put_number l.job.prio f)) start in
      elim (Bool-cases (ltb path_places (stored l.name))) [
        | inl name_long ↦ rw (e, first, word, name_long) refl
        | inr fits ↦ rw (e, first, word, fits, pr.long_read l.job.prio f prio, long) refl
      ]
  read_entries-long n before i (k ∷ ls) l f v fit start prio long =
      let e : suc (length ls) + suc n ≡ suc (length ls + suc n) = omega arith in
      rw
        (
          e,
          entry_start-print before i k (print_lines sc pr ls (print_line sc pr l f)) v.0,
          read_entries-long n before (i + 1) ls l f v.1 fit start prio long,
        )
        refl

  -- What is read before the lines, `count` of which are announced.
  head-print :
      (before : Before) (s : Setup) (count : ℕ) (f : sc.File)
      → IsSetup sc pr s
      → count < 2 ^ 31
      → read_config sc before (
          some (
            print_ints sc pr
              (s.time_slot ∷ s.num_cpus ∷ count ∷ [])
              (print_ints sc pr (s.memramsz ∷ []) (print_ints sc pr s.memswpsz f))))
        ≡ (read_entries sc count before 0 f >>= λ entries. done (record {
          time_slot = s.time_slot;
          num_cpus = s.num_cpus;
          num_processes = count;
          memramsz = s.memramsz;
          memswpsz = s.memswpsz;
          entries = entries;
        }))
  unfolding read_config AreInts
  head-print before s count f v few =
      let tail : sc.File = print_ints sc pr s.memswpsz f in
      let sizes : read_sizes sc paging_max_mmswp tail ≡ (s.memswpsz, f) =
        subst (λ n. read_sizes sc n tail ≡ (s.memswpsz, f)) v.swaps
          (read_sizes-print s.memswpsz f v.sizes) in
      rw
        (
          ints-print sc pr (s.time_slot ∷ s.num_cpus ∷ count ∷ []) (0 ∷ 0 ∷ 0 ∷ [])
              (print_ints sc pr (s.memramsz ∷ []) tail) refl (v.time_slot, (v.num_cpus, (few, tt))),
          ints-print sc pr (s.memramsz ∷ []) (0 ∷ []) tail refl (v.memramsz, tt),
          sizes,
          lt→ltb count (2 ^ 31) few,
        )
        refl

  -- A file that was printed of a set-up is read back: the three numbers, the sizes of the memories and
  -- for every process its start, its priority and its path, where the numbers are no larger than their
  -- types hold, there are four swaps, and each name and its path fit in their hundred bytes.
  pub read_config-print :
      (before : Before) (s : Setup) (f : sc.File)
      → IsSetup sc pr s
      → read_config sc before (some (print_config sc pr s f)) ≡ done (config_of s)
  unfolding print_config
  read_config-print before s f v =
      head-print before s (length s.lines) (print_lines sc pr s.lines f) v v.few
      ∙ ap (λ r. r >>= λ entries. done (record (config_of s) { entries = entries }))
          (read_entries-print before 0 s.lines f v.lines)

  -- A path of a hundred bytes or more is written behind its memory, wherever its line stands behind
  -- the lines that fit.
  pub read_config-long :
      (before : Before) (s : Setup) (l : Line) (n : ℕ) (f : sc.File)
      → IsSetup sc pr s
      → length s.lines + suc n < 2 ^ 31
      → pr.IsWord l.name
      → l.job.start_time < 2 ^ 64
      → l.job.prio < 2 ^ 64
      → ltb path_places (stored (str_append "input/proc/" l.name)) ≡ true
      → read_config sc before (
          some (
            print_ints sc pr (s.time_slot ∷ s.num_cpus ∷ (length s.lines + suc n) ∷ []) (
              print_ints sc pr
                (s.memramsz ∷ [])
                (print_ints sc pr s.memswpsz (print_lines sc pr s.lines (print_line sc pr l f))))))
        ≡ fault
  read_config-long before s l n f v few fit start prio long =
      head-print before s (length s.lines + suc n)
        (print_lines sc pr s.lines (print_line sc pr l f)) v few
      ∙ rw (read_entries-long n before 0 s.lines l f v.lines fit start prio long) refl
