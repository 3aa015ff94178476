-- ===== src/Fs/Fd/Pair.antt =====
-- fs/pipe.c, sys_pipe: two files and two descriptors for the ends of a pipe. The inode that
-- `get_pipe_inode` gives, if any, is an argument.
pub mod Ends
use lambda_linux_kernel.Prelude.{ℕ, ◌+◌, ◌-◌, Option, none, some, [], leb, if◌then◌else◌, Bool}
use lambda_linux_kernel.Prelude.Int.{pos}
use lambda_linux_kernel.Fs.Fd.{
  Fds, Result, returns, nr_open, nr_file, file, set_fd, set_file, set_count, free_fd, free_file,
  minus_one,
}

-- `f->f_count++`
abbrev pub count_up : ℕ → Fds → Fds
count_up f s = set_count f ((file s f).count + 1) s

-- `f[0]->f_count=f[1]->f_count=0`
abbrev pub uncount : ℕ → ℕ → Fds → Fds
uncount f g s = set_count f 0 (set_count g 0 s)

-- What a call comes to: the descriptors stored for the caller are there on success.
abbrev pub Paired : Type 0
Paired = Result × Option (ℕ × ℕ)

abbrev pub refused : Fds → Paired
refused s = (returns minus_one s [], none)

-- One end of the pipe on a file.
abbrev pub set_end : ℕ → ℕ → ℕ → Fds → Fds
set_end f inode mode s =
    set_file f (record (file s f) { inode = some inode; offset = pos 0; mode = mode }) s

-- With the files `f` and `g` and the descriptors `i` and `j` taken.
pub join : (f g i j : ℕ) → Option ℕ → Fds → Paired
join f g i j none s = refused (uncount f g (set_fd i none (set_fd j none s)))
join f g i j (some inode) s =
    (returns (pos 0) (set_end g inode 2 (set_end f inode 1 s)) [], some (i, j))

-- With the files taken; `i` and `j` are where the loop over the descriptors finds free ones.
pub take_fds : (f g i j : ℕ) → Option ℕ → Fds → Paired
take_fds f g i j found s =
    if leb nr_open j
    then refused (uncount f g (if leb nr_open i then s else set_fd i none (set_fd i (some f) s)))
    else join f g i j found (set_fd j (some g) (set_fd i (some f) s))

pub sys_pipe : Option ℕ → Fds → Paired
sys_pipe found s =
    let f = free_file nr_file s.files 0 in
    let g = free_file (nr_file - (f + 1)) s.files (f + 1) in
    let i = free_fd nr_open s.filp 0 in
    let j = free_fd (nr_open - (i + 1)) s.filp (i + 1) in
    if leb nr_file g
    then refused (if leb nr_file f then s else set_count f 0 (count_up f s))
    else take_fds f g i j found (count_up g (count_up f s))
