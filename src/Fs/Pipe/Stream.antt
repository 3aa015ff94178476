-- ===== src/Fs/Pipe/Stream.antt =====
-- A pipe is a stream: what `read_pipe` takes and `write_pipe` adds, and that three rounds suffice.
use lambda_linux_kernel.Prelude.{
  ℕ, zero, suc, ◌+◌, ◌-◌, ◌%◌, ◌<◌, ◌≡◌, ◌≢◌, refl, Bool, not, ◌||◌, List, [], ◌++◌, ◌==◌,
  if◌then◌else◌, length, length-append, min, arith, Bool-cases, inl, inr, ap, ap₂, ◌∙◌, sym,
}
use mathlib.Core.List.{append_assoc}
use lambda_linux_kernel.Prelude.Int.{pos, negsuc}
use lambda_linux_kernel.Fs.Pipe.{
  Pipe, Stop, returns, sleeps, Read, page_size, pipe_size, copy_out, or_else, read_empty,
  read_chars, read_round, read_loop, read_pipe,
}
use lambda_linux_kernel.Fs.Pipe.Window.{
  window, contents, copy_out-window, window_split, length-copy_out,
}

pub record IsPipe (p : Pipe) : Type 0 where
  pub full_page : length p.page ≡ page_size
  pub head_in : p.head < page_size
  pub tail_in : p.tail < page_size

-- How a read stops after `n` bytes with `left` to go.
abbrev pub read_stop : Bool → ℕ → ℕ → ℕ → Stop
read_stop signalled ends n left =
    if left == 0
    then returns (pos n)
    else if not (ends == 2)
    then returns (pos n)
    else if signalled
    then returns (or_else n (negsuc 511))
    else sleeps left

-- What a read has done, started at `p` with `got` in the buffer and `count` bytes wanted.
pub record IsRead (signalled : Bool) (p : Pipe) (count : ℕ) (got : List ℕ) (r : Read) : Type 0 where
  pub valid : IsPipe r.pipe
  pub order : r.got ++ contents r.pipe ≡ got ++ contents p
  pub amount : length r.got ≡ length got + min count (pipe_size p)
  pub stop :
      r.stop
      ≡ read_stop signalled p.ends (length got + min count (pipe_size p)) (count - pipe_size p)

read_round-IsPipe : (p : Pipe) (count : ℕ) → IsPipe p → IsPipe (read_round p count)
unfolding read_round
read_round-IsPipe p count v = omega arith

pipe_size-read_round :
    (p : Pipe) (count : ℕ)
    → IsPipe p
    → pipe_size (read_round p count) ≡ pipe_size p - read_chars p count
unfolding read_round
pipe_size-read_round p count v = omega arith

contents-read_round :
    (p : Pipe) (count : ℕ)
    → IsPipe p
    → copy_out p.page p.tail (read_chars p count) ++ contents (read_round p count) ≡ contents p
unfolding contents read_round
contents-read_round p count v =
    let chars = read_chars p count in
    let same : p.tail % page_size ≡ p.tail = omega arith in
    let halves : window p.page p.tail (pipe_size p)
        ≡ window p.page p.tail chars
          ++ window p.page ((p.tail + chars) % page_size) (pipe_size p - chars) =
      rw same at
        (window_split p.page p.tail chars (pipe_size p - chars) (pipe_size p) (omega arith)) in
    rw (pipe_size-read_round p count v, copy_out-window p.page p.tail chars (omega arith))
      (sym halves)

rounds : Pipe → ℕ → ℕ
rounds p count = if (count == 0) || (pipe_size p == 0) then 0 else if p.tail == 0 then 1 else 2

rounds-read_round :
    (p : Pipe) (count fuel : ℕ)
    → IsPipe p
    → rounds p count < suc fuel
    → count ≢ 0
    → pipe_size p ≢ 0
    → rounds (read_round p count) (count - read_chars p count) < fuel
unfolding rounds read_round
rounds-read_round p count fuel v h c s = ground arith

read_empty_lem :
    (signalled : Bool) (p : Pipe) (count : ℕ) (got : List ℕ)
    → count ≢ 0
    → ((read_empty signalled p count got).pipe ≡ p)
      × ((read_empty signalled p count got).got ≡ got)
      × ((read_empty signalled p count got).stop ≡ read_stop signalled p.ends (length got) count)
unfolding read_empty
read_empty_lem signalled p count got h = ground arith

read_loop-IsRead :
    (fuel : ℕ) (signalled : Bool) (p : Pipe) (count : ℕ) (got : List ℕ)
    → IsPipe p
    → rounds p count < fuel
    → IsRead signalled p count got (read_loop fuel signalled p count got)
unfolding read_loop read_round
read_loop-IsRead zero signalled p count got v h = absurd (omega arith)
read_loop-IsRead (suc fuel) signalled p count got v h = elim (Bool-cases (count == 0)) [
  | inl done ↦
      rw done (record { valid = v; order = refl; amount = ground arith; stop = ground arith })
  | inr more ↦ rw more (elim (Bool-cases (pipe_size p == 0)) [
    | inl empty ↦
        let (same, got_same, stopped) = read_empty_lem signalled p count got (ground arith) in
        let none_in : pipe_size p ≡ 0 = ground arith in
        rw empty (record {
          valid = rw same v;
          order = rw (same, got_same);
          amount = rw got_same (omega arith);
          stop = stopped ∙ ap₂ (read_stop signalled p.ends) (omega arith) (omega arith);
        })
    | inr full ↦
        let chars = read_chars p count in
        let bytes = copy_out p.page p.tail chars in
        let next =
          read_loop-IsRead fuel signalled (read_round p count) (count - chars) (got ++ bytes)
            (read_round-IsPipe p count v)
            (rounds-read_round p count fuel v h (ground arith) (ground arith)) in
        let size = pipe_size-read_round p count v in
        let long : length (got ++ bytes) ≡ length got + chars =
          omega (arith, length-append got bytes, length-copy_out p.page p.tail chars) in
        rw full (record {
          valid = next.valid;
          order =
              next.order
              ∙ (append_assoc got bytes (contents (read_round p count))
                  ∙ ap (λ bs. got ++ bs) (contents-read_round p count v));
          amount = next.amount ∙ omega (arith, size, long);
          stop =
              next.stop
              ∙ ap₂ (read_stop signalled p.ends) (omega (arith, size, long))
                  (omega (arith, size, long));
        })
  ])
]

-- read_pipe on a pipe with its page and both indices in it ends within three rounds and moves the
-- oldest bytes, as many as are there or wanted, in their order from the pipe to the buffer; it
-- returns their number if that is all or no writer is left, the number or -ERESTARTSYS on a
-- signal, and sleeps for the rest otherwise.
pub read_pipe-IsRead :
    (signalled : Bool) (p : Pipe) (count : ℕ)
    → IsPipe p
    → IsRead signalled p count [] (read_pipe signalled p count)
unfolding read_pipe rounds
read_pipe-IsRead signalled p count v = read_loop-IsRead 3 signalled p count [] v (ground arith)
