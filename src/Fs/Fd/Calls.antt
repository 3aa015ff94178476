-- ===== src/Fs/Fd/Calls.antt =====
-- Every call on descriptors returns, and keeps the reference counts.
use lambda_linux_kernel.Prelude.{
  ℕ, ◌+◌, ◌-◌, ◌<◌, ◌≡◌, refl, inl, inr, Bool, true, false, Option, none, some, none, some, [], ◌∷◌,
  ◌==◌, leb, if◌then◌else◌, get_or-set_self, arith, Bool-cases, Option-cases, sym,
}
use lambda_linux_kernel.Fs.Fd.{
  Fds, Result, returns, panics, nr_open, nr_file, file, fd_of, clear_cloexec, set_fd, free_fd,
  free_file, drop_file, sys_close, attach, dupfd, after, sys_dup2, sys_dup, sys_fcntl, Opened,
  fails, opens, finish_open, sys_open,
}
use lambda_linux_kernel.Fs.Fd.Refs.{refs_positive, free_fd_free, free_file_free}
use lambda_linux_kernel.Fs.Fd.Counted.{
  IsCounted, file-set_count, clear_cloexec-IsCounted, attach-IsCounted, detach-IsCounted,
  same_count-IsCounted, set_cloexec-IsCounted,
}
use lambda_linux_kernel.Prelude.Int.{ℤ}
use lambda_linux_kernel.Fs.Fd.Seek.{
  Target, sys_lseek, Seeked, closed, no_inode, fixed, piped, bad_origin, before_start, moved,
  sys_lseek-Seeked,
}
use lambda_linux_kernel.Fs.Fd.Pair.{Paired, sys_pipe}
use lambda_linux_kernel.Fs.Fd.Pair.Ends.{PipeMade, nothing, made, sys_pipe-PipeMade}

module _ (others : ℕ → ℕ) where
  -- The call returns, and its state is counted.
  abbrev pub Keeps : Result → Type 0
  Keeps (returns r s inodes) = IsCounted others s
  Keeps panics = ⊥

  drop_file-Keeps :
      (s : Fds) (fd f : ℕ)
      → IsCounted others s
      → fd_of s fd ≡ some f
      → Keeps (drop_file f (set_fd fd none s))
  unfolding drop_file
  drop_file-Keeps s fd f v held =
      let positive : 0 < (file s f).count =
        omega (arith, refs_positive s.filp fd f held, v.counts f (v.known fd f held)) in
      let some_left : ((file s f).count == 0) ≡ false = ground arith in
      rw some_left (elim (Bool-cases ((file s f).count == 1)) [
        | inl last ↦ rw last (detach-IsCounted others s fd f 0 v held (ground arith))
        | inr more ↦
            rw more (detach-IsCounted others s fd f ((file s f).count - 1) v held (omega arith))
      ])

  pub sys_close-Keeps : (s : Fds) (fd : ℕ) → IsCounted others s → Keeps (sys_close fd s)
  unfolding sys_close
  sys_close-Keeps s fd v = elim (Bool-cases (leb nr_open fd)) [
    | inl e ↦ rw e v
    | inr e ↦ rw e (elim (Option-cases (fd_of s fd)) [
      | inl free ↦ rw free (clear_cloexec-IsCounted others s fd v)
      | inr (f, held) ↦
          rw held
            (drop_file-Keeps (clear_cloexec fd s) fd f (clear_cloexec-IsCounted others s fd v) held)
    ])
  ]

  pub dupfd-Keeps : (s : Fds) (fd arg : ℕ) → IsCounted others s → Keeps (dupfd fd arg s)
  unfolding dupfd
  dupfd-Keeps s fd arg v = elim (Bool-cases (leb nr_open fd)) [
    | inl e ↦ rw e v
    | inr e ↦ rw e (elim (Option-cases (fd_of s fd)) [
      | inl free ↦ rw free v
      | inr (f, held) ↦ rw held (elim (Bool-cases (leb nr_open arg)) [
        | inl big ↦ rw big v
        | inr small ↦ rw small (elim (Bool-cases (leb nr_open to)) [
          | inl full ↦ rw full v
          | inr room ↦ rw room (
              attach-IsCounted others (clear_cloexec to s) to f
                (clear_cloexec-IsCounted others s to v) (ground arith)
                (free_fd_free (nr_open - arg) s.filp arg (ground arith)) (v.known fd f held))
        ])
      ])
    ])
  ]
    where
      to : ℕ
      to = free_fd (nr_open - arg) s.filp arg

  after-Keeps :
      (r : Result) (k : Fds → Result)
      → Keeps r
      → ((s : Fds) → IsCounted others s → Keeps (k s))
      → Keeps (after r k)
  after-Keeps panics k h keep = h
  after-Keeps (returns r s inodes) k h keep = kept (k s) (keep s h)
    where
      kept :
          (q : Result)
          → Keeps q
          → Keeps (elim q [
            | returns r s' more ↦ returns r s' (elim inodes [ [] ↦ more | i ∷ _ ↦ i ∷ more ])
            | panics ↦ panics
          ])
      kept (returns _ _ _) h = h
      kept panics h = h

  finish_open-Keeps :
      (s : Fds) (fd f flag : ℕ) (found : Opened)
      → IsCounted others s
      → fd < nr_open
      → fd_of s fd ≡ none
      → f < nr_file
      → (file s f).count ≡ 0
      → Keeps (finish_open fd f flag found (attach fd f s))
  unfolding finish_open attach
  finish_open-Keeps s fd f flag found v lt free in_table none_left = finish found
    where
      s' : Fds
      s' = attach fd f s

      v' : IsCounted others s'
      v' = attach-IsCounted others s fd f v lt free in_table

      held : fd_of s' fd ≡ some f
      held = get_or-set_self s.filp fd (some f) none (omega (arith, v.slots))

      once : (file s' f).count ≡ 1
      once =
          ground (arith, file-set_count (set_fd fd (some f) s) f ((file s f).count + 1) f, v.table)

      finish : (found : Opened) → Keeps (finish_open fd f flag found s')
      finish (fails e) = detach-IsCounted others s' fd f 0 v' held (sym once)
      finish (opens inode mode true) = detach-IsCounted others s' fd f 0 v' held (sym once)
      finish (opens inode mode false) = same_count-IsCounted others s' f _ v' (sym once)

  sys_open-Keeps :
      (s : Fds) (flag : ℕ) (found : Opened) → IsCounted others s → Keeps (sys_open flag found s)
  unfolding sys_open
  sys_open-Keeps s flag found v = elim (Bool-cases (leb nr_open fd)) [
    | inl full ↦ rw full v
    | inr room ↦ rw room (elim (Bool-cases (leb nr_file f)) [
      | inl full ↦ rw full (clear_cloexec-IsCounted others s fd v)
      | inr place ↦ rw place (
          finish_open-Keeps (clear_cloexec fd s) fd f flag found
            (clear_cloexec-IsCounted others s fd v) (ground arith)
            (free_fd_free nr_open s.filp 0 (ground arith)) (ground arith)
            (free_file_free nr_file s.files 0 (ground arith)))
    ])
  ]
    where
      fd : ℕ
      fd = free_fd nr_open s.filp 0

      f : ℕ
      f = free_file nr_file s.files 0

  -- Both branches of a test keep the counts.
  Keeps-if : (b : Bool) (x y : Result) → Keeps x → Keeps y → Keeps (if b then x else y)
  Keeps-if true x y hx hy = hx
  Keeps-if false x y hx hy = hy

  sys_fcntl-Keeps : (s : Fds) (fd cmd arg : ℕ) → IsCounted others s → Keeps (sys_fcntl fd cmd arg s)
  unfolding sys_fcntl
  sys_fcntl-Keeps s fd cmd arg v =
      Keeps-if (leb nr_open fd) _ _ v (elim (Option-cases (fd_of s fd)) [
        | inl free ↦ rw free v
        | inr (f, held) ↦ rw held (
            Keeps-if (cmd == 0) _ _ (dupfd-Keeps s fd arg v) (
              Keeps-if (cmd == 1) _ _ v (
                Keeps-if (cmd == 2) _ _ (set_cloexec-IsCounted others s fd arg v) (
                  Keeps-if (cmd == 3) _ _ v
                    (Keeps-if (cmd == 4) _ _ (same_count-IsCounted others s f _ v refl) v)))))
      ])

-- The calls on descriptors, in any order.
pub data FdCall : Type 0 where
  open_file : (flag : ℕ) → Opened → FdCall
  close : ℕ → FdCall
  dup : ℕ → FdCall
  dup2 : (oldfd newfd : ℕ) → FdCall
  fcntl : (fd cmd arg : ℕ) → FdCall
  lseek : (ℕ → Target) → (fd : ℕ) → ℤ → (origin : ℕ) → FdCall
  pipe : Option ℕ → FdCall

pub fd_call : FdCall → Fds → Result
fd_call (open_file flag found) s = sys_open flag found s
fd_call (close fd) s = sys_close fd s
fd_call (dup fd) s = sys_dup fd s
fd_call (dup2 oldfd newfd) s = sys_dup2 oldfd newfd s
fd_call (fcntl fd cmd arg) s = sys_fcntl fd cmd arg s
fd_call (lseek inodes fd offset origin) s = sys_lseek inodes fd offset origin s
fd_call (pipe found) s = (sys_pipe found s).0

Seeked-Keeps :
    (others : ℕ → ℕ) (inodes : ℕ → Target) (fd : ℕ) (offset : ℤ) (origin : ℕ) (s : Fds) (r : Result)
    → IsCounted others s
    → Seeked inodes fd offset origin s r
    → Keeps others r
Seeked-Keeps others inodes fd offset origin s r v (closed _) = v
Seeked-Keeps others inodes fd offset origin s r v (no_inode _ _ _) = v
Seeked-Keeps others inodes fd offset origin s r v (fixed _ _ _ _ _) = v
Seeked-Keeps others inodes fd offset origin s r v (piped _ _ _ _ _) = v
Seeked-Keeps others inodes fd offset origin s r v (bad_origin _) = v
Seeked-Keeps others inodes fd offset origin s r v (before_start _ _ _ _ _ _ _) = v
Seeked-Keeps others inodes fd offset origin s r v (moved f i at _ _ _ _ _ _ _) =
    same_count-IsCounted others s f _ v refl

PipeMade-Keeps :
    (others : ℕ → ℕ) (found : Option ℕ) (s : Fds) (r : Paired)
    → PipeMade others found s r
    → Keeps others r.0
PipeMade-Keeps others found s r (nothing s' v _) = v
PipeMade-Keeps others found s r (made _ _ _ s' _ pair) = pair.counted

-- Every call of open, close, dup, dup2, fcntl, lseek and pipe returns without the panic on a file
-- count of 0, and keeps f_count of every open file equal to the descriptors of the process that
-- stand for it plus the references of other processes, if these are 1000 at most and the tables
-- have their sizes.
pub fd_call-Keeps :
    (others : ℕ → ℕ) (k : FdCall) (s : Fds) → IsCounted others s → Keeps others (fd_call k s)
unfolding fd_call sys_dup sys_dup2
fd_call-Keeps others (open_file flag found) s v = sys_open-Keeps others s flag found v
fd_call-Keeps others (close fd) s v = sys_close-Keeps others s fd v
fd_call-Keeps others (dup fd) s v = dupfd-Keeps others s fd 0 v
fd_call-Keeps others (dup2 oldfd newfd) s v =
    after-Keeps others (sys_close newfd s) (dupfd oldfd newfd) (sys_close-Keeps others s newfd v)
      (λ s' v'. dupfd-Keeps others s' oldfd newfd v')
fd_call-Keeps others (fcntl fd cmd arg) s v = sys_fcntl-Keeps others s fd cmd arg v
fd_call-Keeps others (lseek inodes fd offset origin) s v =
    Seeked-Keeps others inodes fd offset origin s _ v (sys_lseek-Seeked inodes fd offset origin s)
fd_call-Keeps others (pipe found) s v =
    PipeMade-Keeps others found s _ (sys_pipe-PipeMade others found s v)
