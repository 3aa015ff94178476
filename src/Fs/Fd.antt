-- ===== src/Fs/Fd.antt =====
-- fs/open.c and fs/fcntl.c: the descriptors of a process and the table of open files. A file is its
-- index in `file_table`, an inode a number. What the inode layer answers (`open_namei`,
-- `check_char_dev`) is an argument, and the inodes handed to `iput` are part of the result.
pub mod Pair
pub mod Seek
pub mod Refs
pub mod Counted
pub mod Calls
pub mod Descriptors
mod Tests
use lambda_linux_kernel.Prelude.{
  ℕ, zero, suc, ◌+◌, ◌-◌, ◌/◌, ◌%◌, ◌^◌, Bool, true, false, not, ◌&&◌, ◌||◌, Option, none, some,
  List, [], ◌∷◌, ltb, leb, ◌==◌, if◌then◌else◌, is_some, get_or, set, bit_and, bit_or,
}
use lambda_linux_kernel.Prelude.Int.{ℤ, pos, negsuc, ltb_ℤ, ◌+ℤ◌, wrap32, of_word}

-- `struct file`.
pub record File : Type 0 where
  pub mode : ℕ
  pub flags : ℕ
  pub count : ℕ
  pub inode : Option ℕ
  pub offset : ℤ

-- `current->filp`, `current->close_on_exec` and `file_table`.
pub record Fds : Type 0 where
  pub filp : List (Option ℕ)
  pub close_on_exec : ℕ
  pub files : List File

-- The value returned, the state after, and the inodes given to `iput`.
pub data Result : Type 0 where
  returns : ℤ → Fds → List ℕ → Result
  panics : Result

abbrev pub nr_open : ℕ
nr_open = 20

abbrev pub nr_file : ℕ
nr_file = 64

abbrev pub unused : File
unused = record { mode = 0; flags = 0; count = 0; inode = none; offset = pos 0 }

abbrev pub file : Fds → ℕ → File
file s f = get_or s.files f unused

abbrev pub fd_of : Fds → ℕ → Option ℕ
fd_of s fd = get_or s.filp fd none

-- -EBADF, -EAGAIN, -EINVAL, -EMFILE, -ESPIPE and -1.
abbrev pub ebadf : ℤ
ebadf = negsuc 8

abbrev pub eagain : ℤ
eagain = negsuc 10

abbrev pub einval : ℤ
einval = negsuc 21

abbrev pub emfile : ℤ
emfile = negsuc 23

abbrev pub espipe : ℤ
espipe = negsuc 28

abbrev pub minus_one : ℤ
minus_one = negsuc 0

abbrev pub complement : ℕ → ℕ
complement x = 2 ^ 32 - 1 - x

abbrev pub clear_cloexec : ℕ → Fds → Fds
clear_cloexec fd s = record s { close_on_exec = bit_and s.close_on_exec (complement (2 ^ fd)) }

abbrev pub set_fd : ℕ → Option ℕ → Fds → Fds
set_fd fd o s = record s { filp = set s.filp fd o }

abbrev pub set_file : ℕ → File → Fds → Fds
set_file f v s = record s { files = set s.files f v }

-- `f_count` is an unsigned short.
abbrev pub set_count : ℕ → ℕ → Fds → Fds
set_count f n s = set_file f (record (file s f) { count = n % 2 ^ 16 }) s

-- The first free descriptor from `fd` on, over the rounds left: `fd + rounds` if there is none.
pub free_fd : ℕ → List (Option ℕ) → ℕ → ℕ
free_fd zero filp fd = fd
free_fd (suc rounds) filp fd =
    let next = free_fd rounds filp (fd + 1) in if is_some (get_or filp fd none) then next else fd

-- The first file from `f` on with no references, over the rounds left.
pub free_file : ℕ → List File → ℕ → ℕ
free_file zero files f = f
free_file (suc rounds) files f =
    let next = free_file rounds files (f + 1) in
    if (get_or files f unused).count == 0 then f else next

abbrev pub iputs : Option ℕ → List ℕ
iputs none = []
iputs (some i) = i ∷ []

-- `filp` is the file of `fd`, and the descriptor is cleared already.
pub drop_file : ℕ → Fds → Result
drop_file f s =
    if (file s f).count == 0
    then panics
    else if (file s f).count == 1
    then returns (pos 0) (set_count f 0 s) (iputs (file s f).inode)
    else returns (pos 0) (set_count f ((file s f).count - 1) s) []

pub sys_close : ℕ → Fds → Result
sys_close fd s = if leb nr_open fd then returns einval s [] else elim (fd_of s fd) [
  | none ↦ returns einval (clear_cloexec fd s) []
  | some f ↦ drop_file f (set_fd fd none (clear_cloexec fd s))
]

-- `(current->filp[arg] = current->filp[fd])->f_count++`
pub attach : ℕ → ℕ → Fds → Fds
attach fd f s = set_count f ((file s f).count + 1) (set_fd fd (some f) s)

pub dupfd : ℕ → ℕ → Fds → Result
dupfd fd arg s = if leb nr_open fd then returns ebadf s [] else elim (fd_of s fd) [
  | none ↦ returns ebadf s []
  | some f ↦
      if leb nr_open arg
      then returns einval s []
      else let to = free_fd (nr_open - arg) s.filp arg in
        if leb nr_open to
        then returns emfile s []
        else returns (pos to) (attach to f (clear_cloexec to s)) []
]

abbrev pub after : Result → (Fds → Result) → Result
after panics k = panics
after (returns _ s inodes) k = elim (k s) [
  | returns r s' more ↦ returns r s' (elim inodes [ [] ↦ more | i ∷ _ ↦ i ∷ more ])
  | panics ↦ panics
]

pub sys_dup2 : ℕ → ℕ → Fds → Result
sys_dup2 oldfd newfd s = after (sys_close newfd s) (dupfd oldfd newfd)

pub sys_dup : ℕ → Fds → Result
sys_dup fildes s = dupfd fildes 0 s

-- The two flags that F_SETFL sets.
abbrev pub settable : ℕ
settable = bit_or 0o2000 0o4000

pub sys_fcntl : ℕ → ℕ → ℕ → Fds → Result
sys_fcntl fd cmd arg s = if leb nr_open fd then returns ebadf s [] else elim (fd_of s fd) [
  | none ↦ returns ebadf s []
  | some f ↦
      if cmd == 0
      then dupfd fd arg s
      else if cmd == 1
      then returns (pos (s.close_on_exec / 2 ^ fd % 2)) s []
      else if cmd == 2
      then returns (pos 0)
          (if arg % 2 == 1
            then record s { close_on_exec = bit_or s.close_on_exec (2 ^ fd) }
            else clear_cloexec fd s)
          []
      else if cmd == 3
      then returns (pos (file s f).flags) s []
      else if cmd == 4
      then returns (pos 0)
          (set_file f
            (record (file s f) {
              flags =
                  bit_or (bit_and (file s f).flags (complement settable)) (bit_and arg settable)
                  % 2 ^ 16;
            })
            s)
          []
      else returns minus_one s []
]

-- What `open_namei` comes to: an error, or an inode with its mode, and whether `check_char_dev`
-- refuses it.
pub data Opened : Type 0 where
  fails : ℕ → Opened
  opens : (inode mode : ℕ) (refused : Bool) → Opened

-- The descriptor and the file are taken before the inode is looked up, and given back on failure.
pub finish_open : ℕ → ℕ → ℕ → Opened → Fds → Result
finish_open fd f flag (fails e) s = returns (negsuc e) (set_count f 0 (set_fd fd none s)) []
finish_open fd f flag (opens inode mode true) s =
    returns eagain (set_count f 0 (set_fd fd none s)) (inode ∷ [])
finish_open fd f flag (opens inode mode false) s =
    returns (pos fd)
      (set_file f
        (record {
          mode = mode;
          flags = flag % 2 ^ 16;
          count = 1;
          inode = some inode;
          offset = pos 0;
        })
        s)
      []

pub sys_open : ℕ → Opened → Fds → Result
sys_open flag found s =
    let fd = free_fd nr_open s.filp 0 in
    let f = free_file nr_file s.files 0 in
    if leb nr_open fd
    then returns einval s []
    else if leb nr_file f
    then returns einval (clear_cloexec fd s) []
    else finish_open fd f flag found (attach fd f (clear_cloexec fd s))
