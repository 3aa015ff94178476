-- ===== src/Fs/Fd/Tests.antt =====
-- The theorems on descriptors at a process with one open file.
use lambda_linux_kernel.Prelude.{
  ℕ, zero, suc, ◌+◌, ◌≡◌, ◌<◌, refl, true, false, ◌≢◌, List, length, ◌⊎◌, Option, none, some, [],
  ◌∷◌, ◌==◌, if◌then◌else◌, replicate, get_or-replicate, arith,
}
use lambda_linux_kernel.Prelude.Int.{pos, negsuc}
use lambda_linux_kernel.Fs.Fd.{
  File, Fds, returns, unused, file, fd_of, nr_open, nr_file, sys_close, dupfd, sys_dup2, iputs,
  emfile, ebadf,
}
use lambda_linux_kernel.Fs.Fd.Refs.{refs}
use lambda_linux_kernel.Fs.Fd.Counted.{IsCounted}
use lambda_linux_kernel.Fs.Fd.Calls.{dup2, fd_call, Keeps, fd_call-Keeps}
use lambda_linux_kernel.Fs.Fd.Descriptors.{
  IsDup, AllTaken, dupfd-IsDup, sys_close_lem, IsCopied, sys_dup2-IsCopied, sys_dup2_same,
}
use lambda_linux_kernel.Fs.Fd.Pair.{sys_pipe}
use lambda_linux_kernel.Fs.Fd.Pair.Ends.{PipeMade, sys_pipe-PipeMade}
use lambda_linux_kernel.Fs.Fd.Seek.{Target, Seeked, sys_lseek, sys_lseek-Seeked}

abbrev nobody : ℕ → ℕ
nobody f = 0

abbrev terminal : File
terminal = record unused { mode = 3; count = 2; inode = some 40 }

-- Descriptors 0 and 1 stand for file 0.
abbrev shell : Fds
shell = record {
  filp = some 0 ∷ some 0 ∷ replicate 18 none;
  close_on_exec = 0;
  files = terminal ∷ replicate 63 unused;
}

shell-known : (fd f : ℕ) → fd_of shell fd ≡ some f → f < nr_file
shell-known zero f h = ground arith
shell-known (suc zero) f h = ground arith
shell-known (suc (suc fd)) f h = ground (arith, get_or-replicate {A = Option ℕ} 18 fd none)

shell-counts : (f : ℕ) → f < nr_file → (file shell f).count ≡ refs shell.filp f + nobody f
unfolding refs
shell-counts zero h = refl
shell-counts (suc f) h = ground (arith, get_or-replicate 63 f unused)

shell-IsCounted : IsCounted nobody shell
shell-IsCounted = record {
  slots = refl;
  table = refl;
  few = λ f. omega arith;
  known = shell-known;
  counts = shell-counts;
}

fd_call-Keeps_example : Keeps nobody (fd_call (dup2 0 1) shell)
fd_call-Keeps_example = fd_call-Keeps nobody (dup2 0 1) shell shell-IsCounted

dupfd-IsDup_example :
    ((dupfd 1 0 shell ≡ returns emfile shell []) × AllTaken shell 0 nr_open)
    ⊎ ((to : ℕ) × (s' : Fds) × (dupfd 1 0 shell ≡ returns (pos to) s' []) × IsDup shell 1 0 0 to s')
dupfd-IsDup_example =
    dupfd-IsDup nobody shell 1 0 0 shell-IsCounted (omega arith) refl (omega arith)

sys_close_lem_example :
    (s' : Fds) × (sys_close 1 shell
      ≡ returns
          (pos 0)
          s'
          (if refs shell.filp 0 + nobody 0 == 1 then iputs (file shell 0).inode else []))
    × (fd_of s' 1 ≡ none)
    × ((i : ℕ) → i ≢ 1 → fd_of s' i ≡ fd_of shell i)
    × (length s'.filp ≡ nr_open)
sys_close_lem_example = sys_close_lem nobody shell 1 0 shell-IsCounted (omega arith) refl

sys_dup2-IsCopied_example : IsCopied shell 0 1 0
sys_dup2-IsCopied_example =
    sys_dup2-IsCopied nobody shell 0 1 0 shell-IsCounted (λ e. omega arith) (omega arith)
      (omega arith) refl

sys_dup2_same_example :
    (s' : Fds) × (inodes : List ℕ) × (sys_dup2 1 1 shell ≡ returns ebadf s' inodes)
    × (fd_of s' 1 ≡ none)
sys_dup2_same_example = sys_dup2_same nobody shell 1 0 shell-IsCounted (omega arith) refl

sys_pipe-PipeMade_example : PipeMade nobody (some 7) shell (sys_pipe (some 7) shell)
sys_pipe-PipeMade_example = sys_pipe-PipeMade nobody (some 7) shell shell-IsCounted

-- Inode 40 is a file of 100 bytes.
abbrev disk_file : ℕ → Target
disk_file i = record { seekable = true; is_pipe = false; size = 100 }

sys_lseek-Seeked_example :
    Seeked disk_file 1 (negsuc 9) 2 shell (sys_lseek disk_file 1 (negsuc 9) 2 shell)
sys_lseek-Seeked_example = sys_lseek-Seeked disk_file 1 (negsuc 9) 2 shell
