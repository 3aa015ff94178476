-- ===== src/Fs/Pipe/Writing.antt =====
-- The writing side of a pipe: `write_pipe` adds the bytes that fit, in order.
use lambda_linux_kernel.Prelude.{
  ℕ, zero, suc, ◌+◌, ◌-◌, ◌%◌, ◌<◌, ◌≡◌, ◌≢◌, not, ◌||◌, List, ◌++◌, ◌==◌, if◌then◌else◌, length,
  take, drop, min, arith, Bool-cases, inl, inr, ap, ap₂, ◌∙◌, sym, length-take, length-drop,
  take_of_empty, take-append_drop, ◌&&◌,
}
use mathlib.Core.List.{append-nil, append_assoc}
use lambda_linux_kernel.Prelude.Int.{pos, negsuc}
use lambda_linux_kernel.Fs.Pipe.{
  Pipe, Stop, returns, sleeps, Written, page_size, pipe_size, or_else, room, write_full,
  write_chars, write_round, write_loop, write_pipe,
}
use lambda_linux_kernel.Fs.Pipe.Window.{contents, length-copy_in, window-copy_in}
use lambda_linux_kernel.Fs.Pipe.Stream.{IsPipe}

-- How a write stops after `n` bytes with `left` to go.
abbrev pub write_stop : ℕ → ℕ → ℕ → Stop
write_stop ends n left =
    if left == 0
    then returns (pos n)
    else if not (ends == 2)
    then returns (or_else n (negsuc 0))
    else sleeps left

-- What a write has done, started at `p` with `n` bytes written and `buf` to go.
pub record IsWritten (p : Pipe) (n : ℕ) (buf : List ℕ) (w : Written) : Type 0 where
  pub valid : IsPipe w.pipe
  pub order : contents w.pipe ≡ contents p ++ take (room p) buf
  pub amount : w.count ≡ n + min (length buf) (room p)
  pub stop : w.stop ≡ write_stop p.ends (n + min (length buf) (room p)) (length buf - room p)
  -- SIGPIPE is sent exactly when bytes are left and there is no reader
  pub signal : w.sigpipe ≡ not (length buf - room p == 0) && not (p.ends == 2)

write_round-IsPipe : (p : Pipe) (buf : List ℕ) → IsPipe p → IsPipe (write_round p buf)
unfolding write_round
write_round-IsPipe p buf v = record {
  full_page = length-copy_in p.page p.head (take (write_chars p buf) buf) ∙ v.full_page;
  head_in = omega arith;
  tail_in = v.tail_in;
}

pipe_size-write_round :
    (p : Pipe) (buf : List ℕ)
    → IsPipe p
    → pipe_size (write_round p buf) ≡ pipe_size p + write_chars p buf
unfolding write_round
pipe_size-write_round p buf v = omega arith

contents-write_round :
    (p : Pipe) (buf : List ℕ)
    → IsPipe p
    → contents (write_round p buf) ≡ contents p ++ take (write_chars p buf) buf
unfolding contents write_round
contents-write_round p buf v =
    let chars = write_chars p buf in
    let long = length-take chars buf in
    window-copy_in (take chars buf) p.page p.tail (pipe_size p) p.head
      (pipe_size (record p { head = (p.head + chars) % page_size })) v.full_page v.tail_in
      (omega (arith, long)) (omega arith) (omega (arith, long)) (omega (arith, long))

rounds : Pipe → List ℕ → ℕ
rounds p buf = if (length buf == 0) || (room p == 0) then 0 else if p.head == 0 then 1 else 2

rounds-write_round :
    (p : Pipe) (buf : List ℕ) (fuel : ℕ)
    → IsPipe p
    → rounds p buf < suc fuel
    → length buf ≢ 0
    → room p ≢ 0
    → rounds (write_round p buf) (drop (write_chars p buf) buf) < fuel
unfolding rounds write_round
rounds-write_round p buf fuel v h c s = ground (arith, length-drop (write_chars p buf) buf)

write_full_lem :
    (p : Pipe) (n : ℕ) (buf : List ℕ)
    → length buf ≢ 0
    → ((write_full p n buf).pipe ≡ p)
      × ((write_full p n buf).count ≡ n)
      × ((write_full p n buf).stop ≡ write_stop p.ends n (length buf))
      × ((write_full p n buf).sigpipe ≡ not (p.ends == 2))
unfolding write_full
write_full_lem p n buf h = ground arith

write_loop-IsWritten :
    (fuel : ℕ) (p : Pipe) (n : ℕ) (buf : List ℕ)
    → IsPipe p
    → rounds p buf < fuel
    → IsWritten p n buf (write_loop fuel p n buf)
unfolding write_loop write_round
write_loop-IsWritten zero p n buf v h = absurd (omega arith)
write_loop-IsWritten (suc fuel) p n buf v h = elim (Bool-cases (length buf == 0)) [
  | inl done ↦ rw done (record {
    valid = v;
    order = sym (
        ap (λ bs. contents p ++ bs) (take_of_empty (room p) buf (ground arith))
        ∙ append-nil (contents p));
    amount = ground arith;
    stop = ground arith;
    signal = ground arith;
  })
  | inr more ↦ rw more (elim (Bool-cases (room p == 0)) [
    | inl full ↦
        let (same, count_same, stopped, sent) = write_full_lem p n buf (ground arith) in
        let no_room : room p ≡ 0 = ground arith in
        rw full (record {
          valid = rw same v;
          order = rw (same, no_room) (sym (append-nil (contents p)));
          amount = rw count_same (omega arith);
          stop = stopped ∙ ap₂ (write_stop p.ends) (omega arith) (omega arith);
          signal = sent ∙ ground arith;
        })
    | inr free ↦
        let chars = write_chars p buf in
        let next =
          write_loop-IsWritten fuel (write_round p buf) (n + chars) (drop chars buf)
            (write_round-IsPipe p buf v)
            (rounds-write_round p buf fuel v h (ground arith) (ground arith)) in
        let size = pipe_size-write_round p buf v in
        let less = length-drop chars buf in
        rw free (record {
          valid = next.valid;
          order =
              next.order
              ∙ (ap (λ bs. bs ++ take (room (write_round p buf)) (drop chars buf))
                    (contents-write_round p buf v)
                  ∙ (append_assoc (contents p) (take chars buf)
                        (take (room (write_round p buf)) (drop chars buf))
                      ∙ ap (λ bs. contents p ++ bs)
                          (take-append_drop chars (room (write_round p buf)) (room p) buf
                            (omega (arith, size)))));
          amount = next.amount ∙ omega (arith, size, less);
          stop =
              next.stop
              ∙ ap₂ (write_stop p.ends) (omega (arith, size, less)) (omega (arith, size, less));
          signal =
              next.signal ∙ ap (λ k. not (k == 0) && not (p.ends == 2)) (omega (arith, size, less));
        })
  ])
]

-- write_pipe on a pipe with its indices in the page ends within three rounds and appends the
-- first bytes of the buffer, as many as fit into 4095, to those in the pipe, overwriting none;
-- with bytes left over and no reader it sends SIGPIPE and returns the number written or -1, and
-- with a reader it sleeps.
pub write_pipe-IsWritten :
    (p : Pipe) (buf : List ℕ) → IsPipe p → IsWritten p 0 buf (write_pipe p buf)
unfolding write_pipe rounds
write_pipe-IsWritten p buf v = write_loop-IsWritten 3 p 0 buf v (ground arith)
