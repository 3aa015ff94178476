-- ===== src/Fs/Fd/Descriptors.antt =====
-- What `dupfd` and `sys_close` do to the descriptors of a process.
use lambda_linux_kernel.Prelude.{
  List, [], ◌∷◌, Option, get_or, length, length-set, refl, ℕ, zero, suc, ◌+◌, ◌-◌, ◌≤◌, ◌<◌, ◌≡◌,
  ◌≢◌, ◌⊎◌, inl, inr, true, false, none, some, ◌==◌, leb, if◌then◌else◌, is_some, get_or-set_self,
  get_or-set_ne, arith, Bool-cases, Option-cases, ◌∙◌, sym,
}
use lambda_linux_kernel.Prelude.Int.{ℤ, pos}
use lambda_linux_kernel.Fs.Fd.{
  Fds, returns, nr_open, file, fd_of, clear_cloexec, set_fd, set_count, free_fd, drop_file,
  sys_close, attach, dupfd, after, sys_dup2, iputs, emfile, ebadf, einval,
}
use lambda_linux_kernel.Fs.Fd.Refs.{
  refs, refs_positive, free_fd_bounds, free_fd_free, free_fd_lowest,
}
use lambda_linux_kernel.Fs.Fd.Counted.{IsCounted}

-- The descriptors from `arg` up to `to` are all taken.
abbrev pub AllTaken : Fds → ℕ → ℕ → Type 0
AllTaken s arg to = (i : ℕ) → arg ≤ i → i < to → is_some (fd_of s i) ≡ true

-- What a successful `dupfd` gives.
pub record IsDup (s : Fds) (fd arg f to : ℕ) (s' : Fds) : Type 0 where
  pub low : arg ≤ to
  pub high : to < nr_open
  pub was_free : fd_of s to ≡ none
  pub lowest : AllTaken s arg to
  pub both : (fd_of s' to ≡ some f) × (fd_of s' fd ≡ some f)
  pub rest : (i : ℕ) → i ≢ to → fd_of s' i ≡ fd_of s i

-- With counted references, an open descriptor and an argument in range, dupfd either returns
-- -EMFILE, leaves everything as it was and all descriptors from the argument on are taken, or it
-- returns the lowest free one from there on, which then stands for the same file, and leaves all
-- other descriptors as they were.
pub dupfd-IsDup :
    (others : ℕ → ℕ) (s : Fds) (fd arg f : ℕ)
    → IsCounted others s
    → fd < nr_open
    → fd_of s fd ≡ some f
    → arg < nr_open
    → ((dupfd fd arg s ≡ returns emfile s []) × AllTaken s arg nr_open)
      ⊎ ((to : ℕ) × (s' : Fds) × (dupfd fd arg s ≡ returns (pos to) s' []) × IsDup s fd arg f to s')
unfolding dupfd attach
dupfd-IsDup others s fd arg f v lt held small = elim (Bool-cases (leb nr_open to)) [
  | inl full ↦ inl (
    rw (in_range, held) (rw (small_arg, full)),
    λ i lo hi. free_fd_lowest (nr_open - arg) s.filp arg i lo (ground arith),
  )
  | inr room ↦
      let free = free_fd_free (nr_open - arg) s.filp arg (ground arith) in
      let ne : to ≢ fd = λ e. ground arith in
      inr (
        to,
        attach to f (clear_cloexec to s),
        rw (in_range, held) (rw (small_arg, room)),
        record {
          low = (free_fd_bounds (nr_open - arg) s.filp arg).0;
          high = ground arith;
          was_free = free;
          lowest = free_fd_lowest (nr_open - arg) s.filp arg;
          both = (
            get_or-set_self s.filp to (some f) none (ground (arith, v.slots)),
            get_or-set_ne s.filp (some f) none ne ∙ held,
          );
          rest = λ i other. get_or-set_ne s.filp (some f) none (λ e. other (sym e));
        },
      )
]
  where
    to : ℕ
    to = free_fd (nr_open - arg) s.filp arg

    in_range : leb nr_open fd ≡ false
    in_range = ground arith

    small_arg : leb nr_open arg ≡ false
    small_arg = ground arith

drop_file_lem :
    (f c : ℕ) (t : Fds)
    → (file t f).count ≡ c
    → 0 < c
    → drop_file f t
      ≡ returns (pos 0) (set_count f (c - 1) t) (if c == 1 then iputs (file t f).inode else [])
unfolding drop_file
drop_file_lem f zero t e h = absurd (omega arith)
drop_file_lem f (suc zero) t e h = rw e
drop_file_lem f (suc (suc c)) t e h =
    let more : ((file t f).count == 0) ≡ false = ground arith in
    let many : ((file t f).count == 1) ≡ false = ground arith in
    let two : (suc (suc c) == 1) ≡ false = ground arith in rw (more, many, two) (rw e)

-- With counted references, closing an open descriptor returns 0, leaves it free, and gives the
-- inode of its file to iput exactly if no other descriptor of any process stands for the file;
-- the other descriptors stay as they were.
pub sys_close_lem :
    (others : ℕ → ℕ) (s : Fds) (fd f : ℕ)
    → IsCounted others s
    → fd < nr_open
    → fd_of s fd ≡ some f
    → (s' : Fds) × (sys_close fd s
        ≡ returns (pos 0) s' (if refs s.filp f + others f == 1 then iputs (file s f).inode else []))
      × (fd_of s' fd ≡ none)
      × ((i : ℕ) → i ≢ fd → fd_of s' i ≡ fd_of s i)
      × (length s'.filp ≡ nr_open)
unfolding sys_close
sys_close_lem others s fd f v lt held =
    let in_range : leb nr_open fd ≡ false = ground arith in
    let n = refs s.filp f + others f in
    let t = set_fd fd none (clear_cloexec fd s) in
    let counted : (file t f).count ≡ n = v.counts f (v.known fd f held) in
    (
      set_count f (n - 1) t,
      rw (in_range, held)
          (drop_file_lem f n t counted (omega (arith, refs_positive s.filp fd f held))),
      get_or-set_self s.filp fd none none (omega (arith, v.slots)),
      λ i ne. get_or-set_ne s.filp none none (λ e. ne (sym e)),
      length-set s.filp fd none ∙ v.slots,
    )

-- A search that starts at a free descriptor ends there.
free_fd-here :
    (rounds : ℕ) (filp : List (Option ℕ)) (fd : ℕ)
    → 0 < rounds
    → get_or filp fd none ≡ none
    → free_fd rounds filp fd ≡ fd
unfolding free_fd
free_fd-here zero filp fd lt free = absurd (omega arith)
free_fd-here (suc rounds) filp fd lt free = rw free

dupfd-onto :
    (s : Fds) (fd arg f : ℕ)
    → fd < nr_open
    → arg < nr_open
    → fd_of s fd ≡ some f
    → fd_of s arg ≡ none
    → dupfd fd arg s ≡ returns (pos arg) (attach arg f (clear_cloexec arg s)) []
unfolding dupfd
dupfd-onto s fd arg f lt lt' held free =
    let in_range : leb nr_open fd ≡ false = ground arith in
    let small_arg : leb nr_open arg ≡ false = ground arith in
    let here : free_fd (nr_open - arg) s.filp arg ≡ arg =
      free_fd-here (nr_open - arg) s.filp arg (omega arith) free in
    rw (in_range, held) (rw small_arg (rw here (rw small_arg)))

-- Both descriptors stand for the file.
abbrev pub IsCopied : Fds → (oldfd newfd f : ℕ) → Type 0
IsCopied s oldfd newfd f =
    (s' : Fds) × (inodes : List ℕ) × (sys_dup2 oldfd newfd s ≡ returns (pos newfd) s' inodes)
    × (fd_of s' newfd ≡ some f)
    × (fd_of s' oldfd ≡ some f)

dup_after-IsCopied :
    (s s2 : Fds) (oldfd newfd f : ℕ) (r : ℤ) (closed : List ℕ)
    → oldfd ≢ newfd
    → oldfd < nr_open
    → newfd < length s2.filp
    → newfd < nr_open
    → sys_close newfd s ≡ returns r s2 closed
    → fd_of s2 newfd ≡ none
    → fd_of s2 oldfd ≡ some f
    → IsCopied s oldfd newfd f
unfolding sys_dup2 attach
dup_after-IsCopied s s2 oldfd newfd f r closed ne lt len lt' close free held = (
  attach newfd f (clear_cloexec newfd s2),
  elim closed [ [] ↦ [] | i ∷ _ ↦ i ∷ [] ],
  rw close (rw (dupfd-onto s2 oldfd newfd f lt lt' held free, after) refl),
  get_or-set_self s2.filp newfd (some f) none len,
  get_or-set_ne s2.filp (some f) none (λ e. ne (sym e)) ∙ held,
)

-- With counted references, dup2 of an open descriptor onto another in range, open or free,
-- returns that one, and both then stand for the file.
pub sys_dup2-IsCopied :
    (others : ℕ → ℕ) (s : Fds) (oldfd newfd f : ℕ)
    → IsCounted others s
    → oldfd ≢ newfd
    → oldfd < nr_open
    → newfd < nr_open
    → fd_of s oldfd ≡ some f
    → IsCopied s oldfd newfd f
unfolding sys_close
sys_dup2-IsCopied others s oldfd newfd f v ne lt lt' held = elim (Option-cases (fd_of s newfd)) [
  | inl free ↦
      let in_range : leb nr_open newfd ≡ false = ground arith in
      dup_after-IsCopied s (clear_cloexec newfd s) oldfd newfd f einval [] ne lt
        (omega (arith, v.slots)) lt' (rw (in_range, free) refl) free held
  | inr (g, taken) ↦
      let (s2, close, free, rest, slots) = sys_close_lem others s newfd g v lt' taken in
      dup_after-IsCopied s s2 oldfd newfd f _ _ ne lt (omega (arith, slots)) lt' close free
        (rest oldfd ne ∙ held)
]

-- With counted references, dup2 of an open descriptor onto itself closes it and returns -EBADF.
pub sys_dup2_same :
    (others : ℕ → ℕ) (s : Fds) (fd f : ℕ)
    → IsCounted others s
    → fd < nr_open
    → fd_of s fd ≡ some f
    → (s' : Fds) × (inodes : List ℕ) × (sys_dup2 fd fd s ≡ returns ebadf s' inodes)
      × (fd_of s' fd ≡ none)
unfolding sys_dup2 dupfd
sys_dup2_same others s fd f v lt held =
    let in_range : leb nr_open fd ≡ false = ground arith in
    let (s2, close, free, _, _) = sys_close_lem others s fd f v lt held in
    let gone = if refs s.filp f + others f == 1 then iputs (file s f).inode else [] in
    (s2, elim gone [ [] ↦ [] | i ∷ _ ↦ i ∷ [] ], rw close (rw (in_range, free, after) refl), free)
