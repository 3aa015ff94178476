-- ===== src/Fs/Fd/Counted.antt =====
-- The reference counts of `file_table`: every call keeps `f_count` equal to the number of
-- descriptors that stand for the file.
use lambda_linux_kernel.Prelude.{
  ℕ, ◌+◌, ◌%◌, ◌^◌, ◌≤◌, ◌<◌, ◌≡◌, inl, inr, true, Option, none, some, ◌==◌, if◌then◌else◌, get_or,
  set, length, length-set, get_or-set_self, get_or-set_ne, get_or-set_cases, arith, bit_or,
  Bool-cases, ◌∙◌, sym,
}
use native.Mathlib.Decide.{ℕ_discrete}
use lambda_linux_kernel.Fs.Fd.{
  File, Fds, nr_open, nr_file, unused, file, fd_of, clear_cloexec, set_fd, set_file, set_count,
  attach,
}
use lambda_linux_kernel.Fs.Fd.Refs.{refs, refs-le-length, refs-set-none, refs-set-some}

-- `others f` references to the file `f` are held by other processes.
pub record IsCounted (others : ℕ → ℕ) (s : Fds) : Type 0 where
  pub slots : length s.filp ≡ nr_open
  pub table : length s.files ≡ nr_file
  pub few : (f : ℕ) → others f ≤ 1000
  pub known : (fd f : ℕ) → fd_of s fd ≡ some f → f < nr_file
  pub counts : (f : ℕ) → f < nr_file → (file s f).count ≡ refs s.filp f + others f

pub file-set_count :
    (s : Fds) (f n g : ℕ)
    → f < length s.files
    → n < 2 ^ 16
    → (file (set_count f n s) g).count ≡ (if f == g then n else (file s g).count)
file-set_count s f n g lt small = elim (ℕ_discrete f g) [
  | yes e ↦
      let hit : (f == g) ≡ true = ground arith in
      let small' : n % 2 ^ 16 ≡ n = omega arith in
      rw (← e) (rw (get_or-set_self s.files f _ unused lt) (rw small' (ground arith)))
  | no ne ↦ rw (get_or-set_ne s.files _ unused ne) (ground arith)
]

module _ (others : ℕ → ℕ) where
  -- The entries of `filp` after one of them is set.
  known-set :
      (s : Fds) (fd : ℕ) (o : Option ℕ)
      → IsCounted others s
      → ((f : ℕ) → o ≡ some f → f < nr_file)
      → (i f : ℕ) → get_or (set s.filp fd o) i none ≡ some f
      → f < nr_file
  known-set s fd o v ok i f h = elim (get_or-set_cases s.filp fd i o none) [
    | inl e ↦ ok f (sym e ∙ h)
    | inr e ↦ v.known i f (sym e ∙ h)
  ]

  pub clear_cloexec-IsCounted :
      (s : Fds) (fd : ℕ) → IsCounted others s → IsCounted others (clear_cloexec fd s)
  clear_cloexec-IsCounted s fd v = record {
    slots = v.slots;
    table = v.table;
    few = v.few;
    known = v.known;
    counts = v.counts;
  }

  pub attach-IsCounted :
      (s : Fds) (fd f : ℕ)
      → IsCounted others s
      → fd < nr_open
      → fd_of s fd ≡ none
      → f < nr_file
      → IsCounted others (attach fd f s)
  unfolding attach
  attach-IsCounted s fd f v lt free in_table = record {
    slots = length-set s.filp fd (some f) ∙ v.slots;
    table = length-set s.files f _ ∙ v.table;
    few = v.few;
    known = known-set s fd (some f) v (λ g e. ground arith);
    counts = λ g lt_g. ground (
      arith,
      file-set_count (set_fd fd (some f) s) f ((file s f).count + 1) g,
      v.table,
      v.slots,
      v.few f,
      refs-le-length s.filp f,
      refs-set-some s.filp fd f g free,
      v.counts f in_table,
      v.counts g lt_g,
    );
  }

  -- Dropping the reference of a descriptor.
  pub detach-IsCounted :
      (s : Fds) (fd f n : ℕ)
      → IsCounted others s
      → fd_of s fd ≡ some f
      → n + 1 ≡ (file s f).count
      → IsCounted others (set_count f n (set_fd fd none s))
  detach-IsCounted s fd f n v held less = record {
    slots = length-set s.filp fd none ∙ v.slots;
    table = length-set s.files f _ ∙ v.table;
    few = v.few;
    known = known-set s fd none v (λ g e. ground arith);
    counts = λ g lt_g. ground (
      arith,
      file-set_count (set_fd fd none s) f n g,
      v.table,
      v.slots,
      v.few f,
      refs-le-length s.filp f,
      refs-set-none s.filp fd f g held,
      v.counts f (v.known fd f held),
      v.known fd f held,
      v.counts g lt_g,
    );
  }

  -- A write to a file that leaves its count alone.
  pub same_count-IsCounted :
      (s : Fds) (f : ℕ) (w : File)
      → IsCounted others s
      → w.count ≡ (file s f).count
      → IsCounted others (set_file f w s)
  same_count-IsCounted s f w v same = record {
    slots = v.slots;
    table = length-set s.files f w ∙ v.table;
    few = v.few;
    known = v.known;
    counts = λ g lt_g. counted g (v.counts g lt_g) (ℕ_discrete f g);
  }
    where
      counted :
          (g : ℕ)
          → (file s g).count ≡ refs s.filp g + others g
          → Dec (f ≡ g)
          → (get_or (set s.files f w) g unused).count ≡ refs s.filp g + others g
      counted g h (no ne) = rw (get_or-set_ne s.files w unused ne) h
      counted g h (yes e) = elim (get_or-set_cases s.files f g w unused) [
        | inl new ↦ rw new (rw e at same ∙ h)
        | inr old ↦ rw old h
      ]

  pub set_cloexec-IsCounted :
      (s : Fds) (fd arg : ℕ)
      → IsCounted others s
      → IsCounted others (
          if arg % 2 == 1
          then record s { close_on_exec = bit_or s.close_on_exec (2 ^ fd) }
          else clear_cloexec fd s)
  set_cloexec-IsCounted s fd arg v = elim (Bool-cases (arg % 2 == 1)) [
    | inl e ↦ rw e (record {
      slots = v.slots;
      table = v.table;
      few = v.few;
      known = v.known;
      counts = v.counts;
    })
    | inr e ↦ rw e (clear_cloexec-IsCounted s fd v)
  ]
