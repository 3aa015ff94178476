-- ===== src/Fs/Buffer/Now.antt =====
-- fs/buffer.c: getblk where it has no need to sleep.
use lambda_linux_kernel.Prelude.{
  elem, ℕ, suc, ◌+◌, ◌%◌, ◌<◌, ◌≡◌, ◌≢◌, refl, true, false, ◌&&◌, Option, none, some, List, [], ◌∷◌,
  ◌==◌, length, length-set, arith, subst, ap, sym, ◌∙◌, inl, inr, Bool-cases, Option-cases, ◌⊎◌,
}
use native.Mathlib.Decide.{ℕ_discrete}
use lambda_linux_kernel.Fs.Buffer.{
  Head, Cache, Event, Outcome, done, then_do, head, hash_of, is_for, find_buffer, wait_on_buffer,
  add_count, get_hash_table, write_out, choose, is_better, badness, recycle, take_buffer, settle,
  getblk_from, getblk,
}
use lambda_linux_kernel.Fs.Buffer.Queues.{
  IsCache, size, head-set_head, same_id-IsCache, find_in-some, find_in-none,
}
use lambda_linux_kernel.Fs.Buffer.Recycle
use lambda_linux_kernel.Fs.Buffer.Recycle.{head-recycle, size-recycle, recycle-IsCache}
use lambda_linux_kernel.Fs.Buffer.Waits.{idle, is_for-add_count}

first_better :
    (t : ℕ) (best : Option ℕ) (c : Cache)
    → ((b : ℕ) → best ≡ some b → (badness (head c b) == 0) ≡ false)
    → badness (head c t) ≡ 0
    → is_better t best c ≡ true
first_better t none c bad z = refl
first_better t (some b) c bad z = let p = bad b refl in ground arith

-- The best buffer of a search that finds an idle one is idle.
choose-idle :
    (ts : List ℕ) (best : Option ℕ) (c : Cache) (k : ℕ)
    → ((b : ℕ) → best ≡ some b → (badness (head c b) == 0) ≡ false)
    → elem k ts ≡ true
    → idle (head c k) ≡ true
    → (i : ℕ) × (choose ts best c ≡ some i) × (idle (head c i) ≡ true) × (elem i ts ≡ true)
unfolding choose
choose-idle [] best c k bad m free = absurd (ground arith)
choose-idle (t ∷ ts) best c k bad m free =
    elim (Bool-cases ((head c t).count == 0 && is_better t best c)) [
      | inr worse ↦
          let next : elem k ts ≡ true = elim (ℕ_discrete t k) [
            | yes e ↦
                let same : idle (head c t) ≡ true = ap (λ x. idle (head c x)) e ∙ free in
                let better = first_better t best c bad (ground arith) in absurd (ground arith)
            | no ne ↦ ground arith
          ] in
          let (i, chosen, f, listed) = choose-idle ts best c k bad next free in
          (i, rw (choose, worse) chosen, f, ground arith)
      | inl better ↦ elim (Bool-cases (badness (head c t) == 0)) [
        | inl good ↦ (t, rw (choose, better, good) refl, ground arith, ground arith)
        | inr poor ↦
            let next : elem k ts ≡ true = elim (ℕ_discrete t k) [
              | yes e ↦
                  let same : idle (head c t) ≡ true = ap (λ x. idle (head c x)) e ∙ free in
                  absurd (ground arith)
              | no ne ↦ ground arith
            ] in
            let (i, chosen, f, listed) =
              choose-idle ts (some t) c k
                (λ b e.
                  let same : t ≡ b = cc in subst (λ x. (badness (head c x) == 0) ≡ false) same poor)
                next free in
            (i, rw (choose, better, poor) chosen, f, ground arith)
      ]
    ]

-- The buffer is `h` now, and all others are as they were.
pub record IsHead (i : ℕ) (h : Head) (c c' : Cache) : Type 0 where
  pub here : head c' i ≡ h
  pub others : (j : ℕ) → j ≢ i → head c' j ≡ head c j

-- getblk returns a buffer without a sleep: one that is in the cache and not locked, or an idle one.
pub data IsImmediate (dev block : ℕ) (es : List Event) (c : Cache) : Outcome ℕ → Type 0 where
  cached :
      (i : ℕ) (c' : Cache)
      → find_buffer dev block c ≡ some i
      → find_buffer dev block c' ≡ some i
      → IsHead i (record (head c i) { count = ((head c i).count + 1) % 256 }) c c'
      → IsImmediate dev block es c (done i es c')
  renewed :
      (i : ℕ) (c' : Cache)
      → find_buffer dev block c ≡ none
      → elem i c.free_list ≡ true
      → idle (head c i) ≡ true
      → find_buffer dev block c' ≡ some i
      → IsHead i
          (record {
            blocknr = block;
            dev = dev;
            uptodate = false;
            dirt = false;
            count = 1;
            lock = false;
          })
          c
          c'
      → IsImmediate dev block es c (done i es c')

-- No sleep is needed.
abbrev pub IsReady : (dev block : ℕ) → Cache → Type 0
IsReady dev block c =
    ((i : ℕ) × (find_buffer dev block c ≡ some i) × ((head c i).lock ≡ false))
    ⊎ ((find_buffer dev block c ≡ none)
        × ((k : ℕ) × (elem k c.free_list ≡ true) × (idle (head c k) ≡ true)))

wait_on_buffer_now :
    (i : ℕ) (es : List Event) (c : Cache)
    → (head c i).lock ≡ false
    → wait_on_buffer i es c ≡ done tt es c
unfolding wait_on_buffer
wait_on_buffer_now i [] c o = rw o refl
wait_on_buffer_now i (e ∷ es) c o = rw (wait_on_buffer, o) refl

write_out_now :
    (i : ℕ) (es : List Event) (c : Cache)
    → (head c i).dirt ≡ false
    → write_out (length es + 1) i es c ≡ done false es c
unfolding write_out
write_out_now i es c clean =
    let more : length es + 1 ≡ suc (length es) = omega arith in rw (more, write_out, clean) refl

found_in_queue :
    (dev block : ℕ) (c : Cache) (i : ℕ)
    → find_buffer dev block c ≡ some i
    → (elem i (c.hash_table (hash_of dev block)) ≡ true) × (is_for dev block (head c i) ≡ true)
unfolding find_buffer
found_in_queue dev block c i found =
    find_in-some (c.hash_table (hash_of dev block)) dev block c i found

get_hash_table_hit :
    (fuel dev block : ℕ) (es : List Event) (c : Cache) (i : ℕ)
    → IsCache c
    → find_buffer dev block c ≡ some i
    → (head c i).lock ≡ false
    → get_hash_table (suc fuel) dev block es c ≡ done (some i) es (add_count 1 i c)
unfolding get_hash_table
get_hash_table_hit fuel dev block es c i v found o =
    let (m, hit) = found_in_queue dev block c i found in
    let lt = v.in_range (hash_of dev block) i m in
    let self : (i == i) ≡ true = ground arith in
    let free : (head (add_count 1 i c) i).lock ≡ false =
      rw (head-set_head c i i (record (head c i) { count = ((head c i).count + 1) % 256 }) lt)
        (rw self o) in
    let still : is_for dev block (head (add_count 1 i c) i) ≡ true =
      is_for-add_count 1 i dev block c lt ∙ hit in
    rw (get_hash_table, found)
      (rw (wait_on_buffer_now i es (add_count 1 i c) free) (rw (then_do, still) refl))

getblk_hit :
    (fuel dev block : ℕ) (es : List Event) (c : Cache) (i : ℕ)
    → IsCache c
    → find_buffer dev block c ≡ some i
    → (head c i).lock ≡ false
    → getblk_from (suc fuel) dev block es c ≡ done i es (add_count 1 i c)
unfolding getblk_from
getblk_hit fuel dev block es c i v found o =
    let more : length es + 1 ≡ suc (length es) = omega arith in
    rw (getblk_from, more, get_hash_table_hit (length es) dev block es c i v found o) refl

getblk_miss :
    (fuel dev block : ℕ) (es : List Event) (c : Cache) (i : ℕ)
    → find_buffer dev block c ≡ none
    → choose c.free_list none c ≡ some i
    → idle (head c i) ≡ true
    → getblk_from (suc fuel) dev block es c ≡ done i es (recycle i dev block c)
unfolding getblk_from get_hash_table settle write_out take_buffer
getblk_miss fuel dev block es c i missing chosen free =
    let o : (head c i).lock ≡ false = ground arith in
    let unused : ((head c i).count == 0) ≡ true = ground arith in
    let clean : (head c i).dirt ≡ false = ground arith in
    let more : length es + 1 ≡ suc (length es) = omega arith in
    rw
      (
        getblk_from,
        more,
        get_hash_table,
        missing,
        then_do,
        chosen,
        settle,
        wait_on_buffer_now i es c o,
        unused,
        write_out_now i es c clean,
        take_buffer,
        missing,
      )
      refl

-- A buffer of the block is the one that is found.
found_for :
    (dev block : ℕ) (c : Cache) (i : ℕ)
    → IsCache c
    → dev ≢ 0
    → i < size c
    → (head c i).dev ≡ dev
    → (head c i).blocknr ≡ block
    → find_buffer dev block c ≡ some i
unfolding find_buffer
found_for dev block c i v nz lt d b = elim (Option-cases (find_buffer dev block c)) [
  | inl missing ↦
      let queued : elem i (c.hash_table (hash_of (head c i).dev (head c i).blocknr)) ≡ true =
        v.queued i lt (λ z. nz (sym d ∙ z)) in
      let here : elem i (c.hash_table (hash_of dev block)) ≡ true = rw (d, b) at queued in
      let other = find_in-none (c.hash_table (hash_of dev block)) dev block c i missing here in
      absurd (ground arith)
  | inr (j, found) ↦
      let (m, hit) = found_in_queue dev block c j found in
      let lt_j = v.in_range (hash_of dev block) j m in
      let same : j ≡ i =
        v.unique j i lt_j lt (λ z. nz (ground arith)) (ground arith) (ground arith) in
      found ∙ ap some same
]

now_cached :
    (dev block : ℕ) (es : List Event) (c : Cache) (i : ℕ)
    → IsCache c
    → dev ≢ 0
    → find_buffer dev block c ≡ some i
    → IsImmediate dev block es c (done i es (add_count 1 i c))
now_cached dev block es c i v nz found =
    let (m, hit) = found_in_queue dev block c i found in
    let lt = v.in_range (hash_of dev block) i m in
    let h = record (head c i) { count = ((head c i).count + 1) % 256 } in
    let at = head-set_head c i i h lt in
    let self : (i == i) ≡ true = ground arith in
    let here : head (add_count 1 i c) i ≡ h = at ∙ rw self refl in
    cached i (add_count 1 i c) found
      (found_for dev block (add_count 1 i c) i (same_id-IsCache c i h lt refl refl v) nz
        (omega (arith, lt, length-set c.heads i h)) (ap (λ x. x.dev) here ∙ ground arith)
        (ap (λ x. x.blocknr) here ∙ ground arith))
      (record {
        here = here;
        others = λ j ne.
            let miss : (i == j) ≡ false = ground arith in head-set_head c i j h lt ∙ rw miss refl;
      })

now_renewed :
    (dev block : ℕ) (es : List Event) (c : Cache) (i : ℕ)
    → IsCache c
    → dev ≢ 0
    → find_buffer dev block c ≡ none
    → elem i c.free_list ≡ true
    → idle (head c i) ≡ true
    → IsImmediate dev block es c (done i es (recycle i dev block c))
now_renewed dev block es c i v nz missing listed free =
    let lt = v.in_list i listed in
    let c' = recycle i dev block c in
    let self : (i == i) ≡ true = ground arith in
    let new : head c' i ≡ Recycle.renewed i dev block c lt =
      head-recycle i dev block c lt i ∙ rw self refl in
    let open_buffer : (head c i).lock ≡ false = ground arith in
    renewed i c' missing listed free
      (found_for dev block c' i (recycle-IsCache i dev block c lt nz missing v) nz
        (omega (arith, lt, size-recycle i dev block c lt)) (ap (λ x. x.dev) new)
        (ap (λ x. x.blocknr) new))
      (record {
        here =
            new
            ∙ ap
                (λ l. record {
                  blocknr = block;
                  dev = dev;
                  uptodate = false;
                  dirt = false;
                  count = 1;
                  lock = l;
                })
                open_buffer;
        others = λ j ne.
            let miss : (i == j) ≡ false = ground arith in
            head-recycle i dev block c lt j ∙ rw miss refl;
      })

-- In a cache whose queues are sound, for a device other than 0, getblk returns without a sleep if
-- the block is in the cache and its buffer is not locked, or if the block is not there and some
-- buffer of the free list is unused, clean and unlocked: in the first case that buffer with its
-- count, a byte, one up, in the second one of the free list that was unused, clean and unlocked and
-- is now the buffer of the block, with one user, clean, unlocked and not up to date; in both
-- find_buffer then finds it, and all other buffers are as they were.
pub getblk_now :
    (dev block : ℕ) (es : List Event) (c : Cache)
    → IsCache c
    → dev ≢ 0
    → IsReady dev block c
    → IsImmediate dev block es c (getblk dev block es c)
unfolding getblk
getblk_now dev block es c v nz (inl (i, found, o)) =
    let more : length es + 1 ≡ suc (length es) = omega arith in
    rw (more, getblk_hit (length es) dev block es c i v found o)
      (now_cached dev block es c i v nz found)
getblk_now dev block es c v nz (inr (missing, (k, listed, free))) =
    let (i, chosen, f, on_list) =
      choose-idle c.free_list none c k (λ b e. absurd (cc)) listed free in
    let more : length es + 1 ≡ suc (length es) = omega arith in
    rw (more, getblk_miss (length es) dev block es c i missing chosen f)
      (now_renewed dev block es c i v nz missing on_list f)
