-- ===== src/Blk/Slots.antt =====
-- kernel/blk_drv/ll_rw_blk.c: what a call of make_request comes to, and the request slot it takes.
use lambda_linux_kernel.Prelude.{
  ℕ, zero, suc, ◌+◌, ◌%◌, ◌<◌, ◌≡◌, refl, inl, inr, Bool, true, false, not, ◌&&◌, ◌||◌, none, some,
  List, if◌then◌else◌, get_or, set, arith, Bool-cases, Option-cases, subst, sym, ◌∙◌,
}
use native.Mathlib.Decide.{ℕ_discrete}
use lambda_linux_kernel.Blk.{
  Command, read, write, read_ahead, write_ahead, Request, is_ahead, is_read, command_number,
  slot_limit, find_request, Buffer, State, Made, finished, waits_for_buffer, waits_for_request,
  request_for, add_request, queue_request, take_request, make_request,
}

-- The search finds the highest free slot below the limit, and nothing only if there is none.
find_request-some :
    (free : List Bool) (limit i : ℕ)
    → find_request free limit ≡ some i
    → (i < limit) × (get_or free i false ≡ true)
unfolding find_request
find_request-some free zero i h = ground arith
find_request-some free (suc limit) i h = ground (arith, find_request-some free limit i)

find_request-none :
    (free : List Bool) (limit i : ℕ)
    → find_request free limit ≡ none
    → i < limit
    → get_or free i false ≡ false
unfolding find_request
find_request-none free zero i h lt = absurd (omega arith)
find_request-none free (suc limit) i h lt = elim (ℕ_discrete i limit) [
  | yes e ↦ rw e (ground arith)
  | no ne ↦ ground (arith, find_request-none free limit i)
]

-- No slot above `i` is free below the limit.
find_request-above :
    (free : List Bool) (limit i k : ℕ)
    → find_request free limit ≡ some i
    → i < k
    → k < limit
    → get_or free k false ≡ false
unfolding find_request
find_request-above free zero i k h lo hi = absurd (omega arith)
find_request-above free (suc limit) i k h lo hi = elim (ℕ_discrete k limit) [
  | yes e ↦ rw e (ground arith)
  | no ne ↦ ground (arith, find_request-above free limit i k)
]

-- How many of the 32 slots a command may use: all for a read, two thirds for a write.
abbrev pub slots_of : Command → ℕ
slots_of read = 32
slots_of read_ahead = 32
slots_of write = 21
slots_of write_ahead = 21

slot_limit_lem : (c : Command) → slot_limit c ≡ slots_of c
slot_limit_lem read = refl
slot_limit_lem read_ahead = refl
slot_limit_lem write = refl
slot_limit_lem write_ahead = refl

-- 0 to read, 1 to write.
abbrev pub way_of : Command → ℕ
way_of read = 0
way_of read_ahead = 0
way_of write = 1
way_of write_ahead = 1

-- The request for a buffer: the two sectors of 512 bytes of its block.
pub record IsFor (c : Command) (b : Buffer) (r : Request) : Type 0 where
  pub same_dev : r.dev ≡ b.dev
  pub way : r.cmd ≡ way_of c
  pub first : r.sector ≡ (b.blocknr + b.blocknr) % 0x100000000
  pub two_sectors : r.nr_sectors ≡ 2
  pub of_buffer : r.bh ≡ some b.number

command_number_lem : (c : Command) → command_number c ≡ way_of c
command_number_lem read = refl
command_number_lem read_ahead = refl
command_number_lem write = refl
command_number_lem write_ahead = refl

request_for-IsFor : (c : Command) (b : Buffer) → IsFor c b (request_for c b)
request_for-IsFor c b = record {
  same_dev = refl;
  way = command_number_lem c;
  first = omega arith;
  two_sectors = refl;
  of_buffer = refl;
}

-- All slots that a command may use are taken.
abbrev pub AllBusy : Command → State → Type 0
AllBusy c s = (i : ℕ) → i < slots_of c → get_or s.free i false ≡ false

-- Whether a buffer has nothing to do: a read of one that is up to date, a write of a clean one.
abbrev pub is_idle : Command → Buffer → Bool
is_idle read b = b.uptodate
is_idle read_ahead b = b.uptodate
is_idle write b = not b.dirt
is_idle write_ahead b = not b.dirt

-- Whether a call gives up where another one sleeps.
abbrev pub is_hasty : Command → Bool
is_hasty read = false
is_hasty read_ahead = true
is_hasty write = false
is_hasty write_ahead = true

is_ahead_lem : (c : Command) → is_ahead c ≡ is_hasty c
is_ahead_lem read = refl
is_ahead_lem read_ahead = refl
is_ahead_lem write = refl
is_ahead_lem write_ahead = refl

is_idle_lem :
    (c : Command) (b : Buffer)
    → (not (is_read c) && not b.dirt || is_read c && b.uptodate) ≡ is_idle c b
is_idle_lem read b = ground arith
is_idle_lem read_ahead b = ground arith
is_idle_lem write b = ground arith
is_idle_lem write_ahead b = ground arith

-- The buffer is not locked and has something to do.
abbrev pub IsWanted : Command → Buffer → Type 0
IsWanted c b = (b.lock ≡ false) × (is_idle c b ≡ false)

-- What `make_request` can come to.
pub data Outcome (c : Command) (b : Buffer) (s : State) : Made → Type 0 where
  -- on a locked buffer a read-ahead or write-ahead is given up, and any other call waits
  skipped : b.lock ≡ true → is_hasty c ≡ true → Outcome c b s (finished b s)
  stalled : b.lock ≡ true → is_hasty c ≡ false → Outcome c b s waits_for_buffer
  idle : b.lock ≡ false → is_idle c b ≡ true → Outcome c b s (finished b s)
  -- the last free slot the command may use is taken, and the request joins the queue
  queued :
      (i : ℕ) (r : Request)
      → IsWanted c b
      → i < slots_of c
      → get_or s.free i false ≡ true
      → ((k : ℕ) → i < k → k < slots_of c → get_or s.free k false ≡ false)
      → IsFor c b r
      → Outcome c b s (
          finished
            (record b { lock = true; dirt = false })
            (record { free = set s.free i false; queue = (add_request r s.queue).0 }))
  -- with none, a read-ahead or write-ahead is given up, and any other call waits
  dropped : IsWanted c b → is_hasty c ≡ true → AllBusy c s → Outcome c b s (finished b s)
  waiting :
      IsWanted c b
      → is_hasty c ≡ false
      → AllBusy c s
      → Outcome c b s (waits_for_request (record b { lock = true }))

-- To unlock a buffer that is not locked changes nothing.
unlocked : (b : Buffer) → b.lock ≡ false → record b { lock = false } ≡ b
unlocked b o = λ i. record b { lock = sym o i }

make_request-take :
    (c : Command) (b : Buffer) (s : State)
    → IsWanted c b
    → make_request c b s ≡ take_request c (record b { lock = true }) s
unfolding make_request
make_request-take c b s (open_buffer, busy) = rw (open_buffer, is_idle_lem c b) (rw busy refl)

make_request-idle :
    (c : Command) (b : Buffer) (s : State)
    → b.lock ≡ false
    → is_idle c b ≡ true
    → make_request c b s ≡ finished (record b { lock = false }) s
unfolding make_request
make_request-idle c b s open_buffer idle_now = rw (open_buffer, is_idle_lem c b) (rw idle_now refl)

make_request-locked :
    (c : Command) (b : Buffer) (s : State)
    → b.lock ≡ true
    → make_request c b s ≡ (if is_hasty c then finished b s else waits_for_buffer)
unfolding make_request
make_request-locked c b s held = rw (held, is_ahead_lem c) refl

take_request-some :
    (c : Command) (b : Buffer) (s : State) (i : ℕ)
    → find_request s.free (slot_limit c) ≡ some i
    → take_request c b s ≡ queue_request c i b s
unfolding take_request
take_request-some c b s i e = rw (e, take_request)

take_request-none :
    (c : Command) (b : Buffer) (s : State)
    → find_request s.free (slot_limit c) ≡ none
    → take_request c b s
      ≡ (if is_ahead c then finished (record b { lock = false }) s else waits_for_request b)
unfolding take_request
take_request-none c b s e = rw (e, take_request)

wanted-Outcome :
    (c : Command) (b : Buffer) (s : State) → IsWanted c b → Outcome c b s (make_request c b s)
unfolding queue_request
wanted-Outcome c b s w =
    subst (Outcome c b s) (sym (make_request-take c b s w))
      (elim (Option-cases (find_request s.free (slot_limit c))) [
        | inr (i, e) ↦
            let (lt, free) = find_request-some s.free (slot_limit c) i e in
            let limit = slot_limit_lem c in
            subst (Outcome c b s) (sym (take_request-some c locked s i e)) (
              queued i (request_for c b) w (omega arith) free
                (λ k lo hi. find_request-above s.free (slot_limit c) i k e lo (omega arith))
                (request_for-IsFor c b))
        | inl e ↦
            let none_free : AllBusy c s = λ i lt.
              let limit = slot_limit_lem c in
              find_request-none s.free (slot_limit c) i e (omega arith) in
            subst (Outcome c b s) (sym (take_request-none c locked s e))
              (elim (Bool-cases (is_ahead c)) [
                | inl ahead ↦ rw ahead (
                    subst (λ x. Outcome c b s (finished x s)) (sym (unlocked b w.0))
                      (dropped w (sym (is_ahead_lem c) ∙ ahead) none_free))
                | inr plain ↦ rw plain (waiting w (sym (is_ahead_lem c) ∙ plain) none_free)
              ])
      ])
  where
    locked : Buffer
    locked = record b { lock = true }

-- make_request on a locked buffer gives up a read-ahead or write-ahead, and waits otherwise; on an
-- unlocked one it changes nothing for a read of a buffer that is up to date or a write of a clean
-- one. Else it takes the last free slot of the 32, or of the first 21 for a write, locks the buffer,
-- marks it clean and queues a request to read or write the two sectors from twice the block's
-- number, mod 2^32, on its device; or no such slot is free, and it gives up a read-ahead or
-- write-ahead with the buffer unlocked and waits with it locked otherwise.
pub make_request-Outcome :
    (c : Command) (b : Buffer) (s : State) → Outcome c b s (make_request c b s)
make_request-Outcome c b s = elim (Bool-cases b.lock) [
  | inl held ↦
      subst (Outcome c b s) (sym (make_request-locked c b s held)) (elim (Bool-cases (is_hasty c)) [
        | inl ahead ↦ rw ahead (skipped held ahead)
        | inr plain ↦ rw plain (stalled held plain)
      ])
  | inr open_buffer ↦ elim (Bool-cases (is_idle c b)) [
    | inl idle_now ↦ subst (Outcome c b s) (sym (make_request-idle c b s open_buffer idle_now)) (
        subst (λ x. Outcome c b s (finished x s)) (sym (unlocked b open_buffer))
          (idle open_buffer idle_now))
    | inr busy ↦ wanted-Outcome c b s (open_buffer, busy)
  ]
]
