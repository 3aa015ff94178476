-- ===== src/Fs/Buffer.antt =====
-- fs/buffer.c: the buffer cache. A buffer is the index of its head; the hash queues and the free list
-- are the lists that the links of the heads thread, so a head stands in a list once at most. What runs
-- while a call sleeps, or writes a device out, is given as a list of events, changes of the cache, of
-- which each sleep takes one; a call that finds none left is still asleep.
pub mod Queues
pub mod Recycle
pub mod Waits
pub mod Lookup
pub mod Getblk
pub mod Now
mod Tests
use lambda_linux_kernel.Prelude.{
  ℕ, zero, suc, ◌+◌, ◌-◌, ◌*◌, ◌/◌, ◌%◌, Bool, true, false, not, ◌&&◌, ◌||◌, Option, none, some,
  List, [], ◌∷◌, ◌++◌, ltb, ◌==◌, if◌then◌else◌, is_some, get_or, set, length, bit_xor, without,
}

-- `b_count` is a byte.
pub record Head : Type 0 where
  pub blocknr : ℕ
  pub dev : ℕ
  pub uptodate : Bool
  pub dirt : Bool
  pub count : ℕ
  pub lock : Bool

pub record Cache : Type 0 where
  pub heads : List Head
  pub hash_table : ℕ → List ℕ
  pub free_list : List ℕ

abbrev pub Event : Type 0
Event = Cache → Cache

abbrev pub no_head : Head
no_head = record { blocknr = 0; dev = 0; uptodate = false; dirt = false; count = 0; lock = false }

abbrev pub head : Cache → ℕ → Head
head c i = get_or c.heads i no_head

abbrev pub set_head : ℕ → Head → Cache → Cache
set_head i h c = record c { heads = set c.heads i h }

-- What a call comes to: it returns, with the events left, or is asleep. `spent` is out of fuel.
pub data Outcome (A : Type 0) : Type 0 where
  done : A → List Event → Cache → Outcome A
  asleep : Cache → Outcome A
  panics : Cache → Outcome A
  spent : Outcome A

abbrev pub then_do : {A B : Type 0} → Outcome A → (A → List Event → Cache → Outcome B) → Outcome B
then_do (done a es c) k = k a es c
then_do (asleep c) k = asleep c
then_do (panics c) k = panics c
then_do spent k = spent

-- `_hashfn`
abbrev pub hash_of : (dev block : ℕ) → ℕ
hash_of dev block = bit_xor dev block % 307

abbrev pub set_queue : ℕ → List ℕ → (ℕ → List ℕ) → ℕ → List ℕ
set_queue n queue table k = if k == n then queue else table k

pub remove_from_queues : ℕ → Cache → Cache
remove_from_queues i c =
    let n = hash_of (head c i).dev (head c i).blocknr in
    record c {
      hash_table = set_queue n (without i (c.hash_table n)) c.hash_table;
      free_list = without i c.free_list;
    }

pub insert_into_queues : ℕ → Cache → Cache
insert_into_queues i c =
    let n = hash_of (head c i).dev (head c i).blocknr in
    record c {
      hash_table =
          if (head c i).dev == 0
          then c.hash_table
          else set_queue n (i ∷ c.hash_table n) c.hash_table;
      free_list = c.free_list ++ (i ∷ []);
    }

abbrev pub is_for : (dev block : ℕ) → Head → Bool
is_for dev block h = h.dev == dev && h.blocknr == block

abbrev pub find_in : List ℕ → (dev block : ℕ) → Cache → Option ℕ
find_in [] dev block c = none
find_in (i ∷ is) dev block c =
    if is_for dev block (head c i) then some i else find_in is dev block c

pub find_buffer : (dev block : ℕ) → Cache → Option ℕ
find_buffer dev block c = find_in (c.hash_table (hash_of dev block)) dev block c

pub sleep_on : List Event → Cache → Outcome (Unit {0})
sleep_on [] c = asleep c
sleep_on (e ∷ es) c = done tt es (e c)

pub wait_on_buffer : ℕ → List Event → Cache → Outcome (Unit {0})
wait_on_buffer i [] c = if (head c i).lock then asleep c else done tt [] c
wait_on_buffer i (e ∷ es) c = elim (head c i).lock [
  | true ↦ wait_on_buffer i es (e c)
  | false ↦ done tt (e ∷ es) c
]

abbrev pub add_count : (by : ℕ) → ℕ → Cache → Cache
add_count by i c = set_head i (record (head c i) { count = ((head c i).count + by) % 256 }) c

pub get_hash_table : (fuel dev block : ℕ) → List Event → Cache → Outcome (Option ℕ)
get_hash_table zero dev block es c = spent
get_hash_table (suc fuel) dev block es c = elim (find_buffer dev block c) [
  | none ↦ done none es c
  | some i ↦ then_do (wait_on_buffer i es (add_count 1 i c)) (λ _ es' c'.
      elim (is_for dev block (head c' i)) [
        | true ↦ done (some i) es' c'
        | false ↦ get_hash_table fuel dev block es' (add_count 255 i c')
      ])
]

-- `BADNESS`
abbrev pub badness : Head → ℕ
badness h = (if h.dirt then 2 else 0) + (if h.lock then 1 else 0)

abbrev pub is_better : ℕ → Option ℕ → Cache → Bool
is_better t none c = true
is_better t (some i) c = ltb (badness (head c t)) (badness (head c i))

-- The search of getblk along the free list, with the best buffer so far.
pub choose : List ℕ → Option ℕ → Cache → Option ℕ
choose [] best c = best
choose (t ∷ ts) best c = elim ((head c t).count == 0 && is_better t best c) [
  | false ↦ choose ts best c
  | true ↦ elim (badness (head c t) == 0) [ true ↦ some t | false ↦ choose ts (some t) c ]
]

-- `while (bh->b_dirt)`: whether it goes to repeat. sync_dev takes one event.
pub write_out : (fuel i : ℕ) → List Event → Cache → Outcome Bool
write_out zero i es c = spent
write_out (suc fuel) i es c = elim (head c i).dirt [
  | false ↦ done false es c
  | true ↦ then_do (sleep_on es c) (λ _ es' c'. then_do (wait_on_buffer i es' c') (λ _ es'' c''.
      elim ((head c'' i).count == 0) [
        | true ↦ write_out fuel i es'' c''
        | false ↦ done true es'' c''
      ]))
]

-- The buffer becomes that of the block.
pub recycle : (i dev block : ℕ) → Cache → Cache
recycle i dev block c =
    let c' =
      remove_from_queues i
        (set_head i (record (head c i) { count = 1; dirt = false; uptodate = false }) c) in
    insert_into_queues i (set_head i (record (head c' i) { dev = dev; blocknr = block }) c')

-- From the check for "this" block to the end; `again` is `goto repeat`.
pub take_buffer :
    (i dev block : ℕ) (again : List Event → Cache → Outcome ℕ) → List Event → Cache → Outcome ℕ
take_buffer i dev block again es c = elim (find_buffer dev block c) [
  | some j ↦ again es c
  | none ↦ done i es (recycle i dev block c)
]

-- From `wait_on_buffer(bh)` on.
pub settle :
    (i dev block : ℕ) (again : List Event → Cache → Outcome ℕ) → List Event → Cache → Outcome ℕ
settle i dev block again es c = then_do (wait_on_buffer i es c) (λ _ es' c'.
    elim ((head c' i).count == 0) [
      | false ↦ again es' c'
      | true ↦ then_do (write_out (length es' + 1) i es' c') (λ repeat es'' c''. elim repeat [
        | true ↦ again es'' c''
        | false ↦ take_buffer i dev block again es'' c''
      ])
    ])

pub getblk_from : (fuel dev block : ℕ) → List Event → Cache → Outcome ℕ
getblk_from zero dev block es c = spent
getblk_from (suc fuel) dev block es c =
    then_do (get_hash_table (length es + 1) dev block es c) (λ hit es' c'. elim hit [
      | some i ↦ done i es' c'
      | none ↦ elim (choose c'.free_list none c') [
        | none ↦ then_do (sleep_on es' c') (λ _. getblk_from fuel dev block)
        | some i ↦ settle i dev block (getblk_from fuel dev block) es' c'
      ]
    ])

-- Each `goto repeat` comes after a sleep.
pub getblk : (dev block : ℕ) → List Event → Cache → Outcome ℕ
getblk dev block es c = getblk_from (length es + 1) dev block es c

-- It panics over a buffer with no user.
pub brelse : ℕ → List Event → Cache → Outcome (Unit {0})
brelse i es c = then_do (wait_on_buffer i es c) (λ _ es' c'.
    let c'' = add_count 255 i c' in if (head c' i).count == 0 then panics c'' else done tt es' c'')

-- ll_rw_block takes one event.
pub bread : (dev block : ℕ) → List Event → Cache → Outcome (Option ℕ)
bread dev block es c = then_do (getblk dev block es c) (λ i es' c'.
    if (head c' i).uptodate
    then done (some i) es' c'
    else then_do (sleep_on es' c') (λ _ es1 c1. then_do (wait_on_buffer i es1 c1) (λ _ es2 c2.
      if (head c2 i).uptodate
      then done (some i) es2 c2
      else then_do (brelse i es2 c2) (λ _. done none))))
