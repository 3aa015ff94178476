-- ===== src/Fs/Pipe.antt =====
-- fs/pipe.c: `read_pipe` and `write_pipe` on the page of a pipe. A call is followed up to the point
-- where it returns or goes to sleep; a call that sleeps is run again from there by whoever is woken,
-- with the bytes that are left. `x & (PAGE_SIZE-1)` is written `x % 4096`.
pub mod Window
pub mod Stream
pub mod Writing
mod Tests
use lambda_linux_kernel.Prelude.{
  ℕ, zero, suc, ◌+◌, ◌-◌, ◌%◌, Bool, true, false, not, List, [], ◌∷◌, ◌++◌, ltb, ◌==◌,
  if◌then◌else◌, get_or, set, length, take, drop, min,
}
use lambda_linux_kernel.Prelude.Int.{ℤ, pos, negsuc}

abbrev pub page_size : ℕ
page_size = 4096

-- The page, PIPE_HEAD, PIPE_TAIL and `i_count` of the inode.
pub record Pipe : Type 0 where
  pub page : List ℕ
  pub head : ℕ
  pub tail : ℕ
  pub ends : ℕ

-- `PIPE_SIZE`
abbrev pub pipe_size : Pipe → ℕ
pipe_size p = (p.head + page_size - p.tail) % page_size

-- The bytes from index `i` on, with no wrap.
pub copy_out : List ℕ → ℕ → ℕ → List ℕ
copy_out page i zero = []
copy_out page i (suc n) = get_or page i 0 ∷ copy_out page (i + 1) n

pub copy_in : List ℕ → ℕ → List ℕ → List ℕ
copy_in page i [] = page
copy_in page i (b ∷ bs) = copy_in (set page i b) (i + 1) bs

-- How a call stops: with a value for the caller, or asleep with a number of bytes to go.
pub data Stop : Type 0 where
  returns : ℤ → Stop
  sleeps : ℕ → Stop

-- What a reader has: the pipe, and the bytes put into its buffer.
pub record Read : Type 0 where
  pub pipe : Pipe
  pub got : List ℕ
  pub stop : Stop

-- `read ? read : e`
abbrev pub or_else : ℕ → ℤ → ℤ
or_else n e = if n == 0 then e else pos n

-- The empty pipe: no writers, a signal, or sleep. -ERESTARTSYS is -512.
pub read_empty : Bool → Pipe → ℕ → List ℕ → Read
read_empty signalled p count got =
    if not (p.ends == 2)
    then record { pipe = p; got = got; stop = returns (pos (length got)) }
    else if signalled
    then record { pipe = p; got = got; stop = returns (or_else (length got) (negsuc 511)) }
    else record { pipe = p; got = got; stop = sleeps count }

abbrev pub read_chars : Pipe → ℕ → ℕ
read_chars p count = min (min (page_size - p.tail) count) (pipe_size p)

-- One round of the loop.
pub read_round : Pipe → ℕ → Pipe
read_round p count = record p { tail = (p.tail + read_chars p count) % page_size }

-- The loop on fuel; `none` of it left counts as asleep.
pub read_loop : ℕ → Bool → Pipe → ℕ → List ℕ → Read
read_loop zero signalled p count got = record { pipe = p; got = got; stop = sleeps count }
read_loop (suc fuel) signalled p count got =
    let chars = read_chars p count in
    let rest =
      read_loop fuel signalled (read_round p count) (count - chars)
        (got ++ copy_out p.page p.tail chars) in
    if count == 0
    then record { pipe = p; got = got; stop = returns (pos (length got)) }
    else if pipe_size p == 0
    then read_empty signalled p count got
    else rest

pub read_pipe : Bool → Pipe → ℕ → Read
read_pipe signalled p count = read_loop 3 signalled p count []

-- What a writer has: the pipe, how many bytes are written, and whether it was sent SIGPIPE.
pub record Written : Type 0 where
  pub pipe : Pipe
  pub count : ℕ
  pub stop : Stop
  pub sigpipe : Bool

abbrev pub room : Pipe → ℕ
room p = page_size - 1 - pipe_size p

pub write_full : Pipe → ℕ → List ℕ → Written
write_full p written buf =
    if not (p.ends == 2)
    then record {
      pipe = p;
      count = written;
      stop = returns (or_else written (negsuc 0));
      sigpipe = true;
    }
    else record { pipe = p; count = written; stop = sleeps (length buf); sigpipe = false }

abbrev pub write_chars : Pipe → List ℕ → ℕ
write_chars p buf = min (min (page_size - p.head) (length buf)) (room p)

pub write_round : Pipe → List ℕ → Pipe
write_round p buf = record p {
  page = copy_in p.page p.head (take (write_chars p buf) buf);
  head = (p.head + write_chars p buf) % page_size;
}

pub write_loop : ℕ → Pipe → ℕ → List ℕ → Written
write_loop zero p written buf = record {
  pipe = p;
  count = written;
  stop = sleeps (length buf);
  sigpipe = false;
}
write_loop (suc fuel) p written buf =
    let chars = write_chars p buf in
    let rest = write_loop fuel (write_round p buf) (written + chars) (drop chars buf) in
    if length buf == 0
    then record { pipe = p; count = written; stop = returns (pos written); sigpipe = false }
    else if room p == 0
    then write_full p written buf
    else rest

pub write_pipe : Pipe → List ℕ → Written
write_pipe p buf = write_loop 3 p 0 buf
