-- ===== src/Fs/Buffer/Tests.antt =====
-- fs/buffer.c: two buffers, of which one becomes free.
use lambda_linux_kernel.Prelude.{
  elem, ℕ, zero, suc, ◌≡◌, ◌<◌, refl, true, false, none, List, [], ◌∷◌, ◌==◌, if◌then◌else◌, arith,
  inr,
}
use lambda_linux_kernel.Fs.Buffer.{
  Head, Cache, Event, add_count, hash_of, getblk, find_buffer, head,
}
use lambda_linux_kernel.Fs.Buffer.Queues.{IsCache}
use lambda_linux_kernel.Fs.Buffer.Waits.{Ends, add_count-IsCacheOf}
use lambda_linux_kernel.Fs.Buffer.Getblk.{Got, getblk-IsGot}
use lambda_linux_kernel.Fs.Buffer.Now.{IsImmediate, getblk_now}

abbrev held : ℕ → Head
held block = record {
  blocknr = block;
  dev = 768;
  uptodate = true;
  dirt = false;
  count = 1;
  lock = false;
}

abbrev queues : ℕ → List ℕ
queues n = if n == 159 then 0 ∷ [] else if n == 160 then 1 ∷ [] else []

abbrev with_last : ℕ → Cache
with_last users = record {
  heads = held 5 ∷ record (held 6) { count = users } ∷ [];
  hash_table = queues;
  free_list = 1 ∷ 0 ∷ [];
}

same_block :
    (users i j : ℕ)
    → i < 2
    → j < 2
    → (head (with_last users) i).blocknr ≡ (head (with_last users) j).blocknr
    → i ≡ j
same_block users zero zero lt_i lt_j e = refl
same_block users zero (suc zero) lt_i lt_j e = absurd (omega arith)
same_block users (suc zero) zero lt_i lt_j e = absurd (omega arith)
same_block users (suc zero) (suc zero) lt_i lt_j e = refl
same_block users (suc (suc i)) j lt_i lt_j e = absurd (omega arith)
same_block users i (suc (suc j)) lt_i lt_j e = absurd (omega arith)

in_queue :
    (users i : ℕ)
    → i < 2
    → elem i (queues (hash_of (head (with_last users) i).dev (head (with_last users) i).blocknr))
      ≡ true
in_queue users zero lt = refl
in_queue users (suc zero) lt = refl
in_queue users (suc (suc i)) lt = absurd (omega arith)

with_last-IsCache : (users : ℕ) → IsCache (with_last users)
with_last-IsCache users = record {
  unique = λ i j lt_i lt_j nz d b. same_block users i j lt_i lt_j b;
  queued = λ i lt nz. in_queue users i lt;
  in_range = λ n i m. ground arith;
  listed = λ i lt. ground arith;
  in_list = λ i m. ground arith;
}

abbrev give_back : Event
give_back c = add_count 255 1 c

getblk-IsGot_example : Ends 2 (Got 2 768 9) (getblk 768 9 (give_back ∷ []) (with_last 1))
getblk-IsGot_example =
    getblk-IsGot 2 768 9 (give_back ∷ []) (with_last 1) (omega arith)
      (λ c v. add_count-IsCacheOf 2 255 1 c (omega arith) v, tt) (with_last-IsCache 1, refl)

missing : find_buffer 768 9 (with_last 0) ≡ none
unfolding find_buffer
missing = refl

getblk_now_example : IsImmediate 768 9 [] (with_last 0) (getblk 768 9 [] (with_last 0))
getblk_now_example =
    getblk_now 768 9 [] (with_last 0) (with_last-IsCache 0) (λ e. omega arith)
      (inr (missing, (1, refl, refl)))
