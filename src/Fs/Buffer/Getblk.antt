-- ===== src/Fs/Buffer/Getblk.antt =====
-- fs/buffer.c: getblk, whatever runs while it sleeps.
use lambda_linux_kernel.Prelude.{
  elem, ℕ, zero, suc, ◌+◌, ◌<◌, ◌≡◌, ◌≢◌, true, false, ◌&&◌, Option, none, some, List, [], ◌∷◌,
  ◌==◌, length, arith, ap, ◌∙◌, inl, inr, Bool-cases, Option-cases, ◌⊎◌, All,
}
use lambda_linux_kernel.Fs.Buffer.{
  Cache, Event, Outcome, done, then_do, head, find_buffer, sleep_on, wait_on_buffer, get_hash_table,
  write_out, choose, is_better, badness, recycle, take_buffer, settle, getblk_from, getblk,
}
use lambda_linux_kernel.Fs.Buffer.Queues.{size}
use lambda_linux_kernel.Fs.Buffer.Recycle.{recycle-IsCache, head-recycle, size-recycle}
use lambda_linux_kernel.Fs.Buffer.Waits.{
  IsCacheOf, IsKeeping, Ends, then_do-Ends, After, wait_on_buffer-Ends, sleep_on-Ends, Moved-trans,
  Moved-length, idle, Written, write_out-Ends,
}
use lambda_linux_kernel.Fs.Buffer.Lookup.{IsGot, Looked, get_hash_table-Ends}

choose-some :
    (ts : List ℕ) (best : Option ℕ) (c : Cache) (i : ℕ)
    → choose ts best c ≡ some i
    → ((elem i ts ≡ true) × ((head c i).count ≡ 0)) ⊎ (best ≡ some i)
unfolding choose
choose-some [] best c i e = inr e
choose-some (t ∷ ts) best c i e = elim (Bool-cases ((head c t).count == 0 && is_better t best c)) [
  | inr worse ↦
      let rest : choose ts best c ≡ some i = rw (choose, worse) at e in
      elim (choose-some ts best c i rest) [ inl (m, u) ↦ inl (ground arith, u) | inr b ↦ inr b ]
  | inl better ↦ elim (Bool-cases (badness (head c t) == 0)) [
    | inl good ↦
        let this : ◌≡◌ {A = Option ℕ} (some t) (some i) = rw (choose, better, good) at e in
        let same : t ≡ i = cc in inl (ground arith, rw (← same) (ground arith))
    | inr bad ↦
        let rest : choose ts (some t) c ≡ some i = rw (choose, better, bad) at e in
        elim (choose-some ts (some t) c i rest) [
          | inl (m, u) ↦ inl (ground arith, u)
          | inr b ↦ let same : t ≡ i = cc in inl (ground arith, rw (← same) (ground arith))
        ]
  ]
]

abbrev pub Got : (n dev block : ℕ) → ℕ → List Event → Cache → Type 0
Got n dev block i es c = IsGot n dev block i es c

recycle-IsGot :
    (n dev block i : ℕ) (es : List Event) (c : Cache)
    → dev ≢ 0
    → i < n
    → find_buffer dev block c ≡ none
    → idle (head c i) ≡ true
    → All (IsKeeping n) es
    → IsCacheOf n c
    → IsGot n dev block i es (recycle i dev block c)
recycle-IsGot n dev block i es c nz lt missing free k (v, s) =
    let lt' : i < size c = omega arith in
    let self : (i == i) ≡ true = ground arith in
    let here = head-recycle i dev block c lt' i in
    record {
      valid = (recycle-IsCache i dev block c lt' nz missing v, size-recycle i dev block c lt' ∙ s);
      kept = k;
      in_range = lt;
      is_for_block = rw here (rw self (ground arith));
      unlocked = rw here (rw self (ground arith));
    }

module _ (n dev block : ℕ) (nz : dev ≢ 0) where
  take_buffer-Ends :
      (again : List Event → Cache → Outcome ℕ) (i : ℕ) (es0 : List Event) (c0 : Cache)
      (es : List Event) (c : Cache)
      → ((es' : List Event) (c' : Cache)
          → length es' < length es0
          → All (IsKeeping n) es'
          → IsCacheOf n c'
          → Ends n (Got n dev block) (again es' c'))
      → find_buffer dev block c0 ≡ none
      → i < n
      → idle (head c i) ≡ true
      → After n es0 c0 es c
      → Ends n (Got n dev block) (take_buffer i dev block again es c)
  unfolding take_buffer
  take_buffer-Ends again i es0 c0 es c next missing lt free a =
      elim (Option-cases (find_buffer dev block c)) [
        | inl still ↦
            rw (Ends, still) (recycle-IsGot n dev block i es c nz lt still free a.kept a.valid)
        | inr (j, found) ↦ elim a.moved [
          | inl (_, e) ↦ let f = ap (find_buffer dev block) e in absurd (cc)
          | inr fewer ↦ rw (Ends, found) (next es c fewer a.kept a.valid)
        ]
      ]

  settle-Ends :
      (again : List Event → Cache → Outcome ℕ) (i : ℕ) (es : List Event) (c : Cache)
      → ((es' : List Event) (c' : Cache)
          → length es' < length es
          → All (IsKeeping n) es'
          → IsCacheOf n c'
          → Ends n (Got n dev block) (again es' c'))
      → find_buffer dev block c ≡ none
      → (head c i).count ≡ 0
      → i < n
      → All (IsKeeping n) es
      → IsCacheOf n c
      → Ends n (Got n dev block) (settle i dev block again es c)
  unfolding settle
  settle-Ends again i es c next missing unused lt k v =
      then_do-Ends n (Got n dev block) (wait_on_buffer i es c) _ (wait_on_buffer-Ends n i es c k v)
        (λ _ es' c' (unlocked, a). elim (Bool-cases ((head c' i).count == 0)) [
          | inr used ↦ elim a.moved [
            | inl (_, e) ↦ let f = ap (λ x. (head x i).count) e in absurd (ground arith)
            | inr fewer ↦ rw (Ends, used) (next es' c' fewer a.kept a.valid)
          ]
          | inl free ↦
              rw (Ends, free)
                (then_do-Ends n (Got n dev block) (write_out (length es' + 1) i es' c') _
                  (write_out-Ends n i (length es' + 1) es' c' (omega arith) (ground arith) unlocked
                    a.kept a.valid)
                  (λ repeat es'' c''.
                    elim repeat
                      as (λ r.
                        Written n i es' c' r es'' c''
                        → Ends n (Got n dev block) (elim r [
                          | true ↦ again es'' c''
                          | false ↦ take_buffer i dev block again es'' c''
                        ])) [
                          | true ↦ λ (v'', k'', less).
                              next es'' c'' (let t = Moved-length a.moved in omega arith) k'' v''
                          | false ↦ λ (still, a').
                              take_buffer-Ends again i es c es'' c'' next missing lt still (record {
                                valid = a'.valid;
                                kept = a'.kept;
                                moved = Moved-trans a.moved a'.moved;
                              })
                        ]))
        ])

  getblk_from-Ends :
      (fuel : ℕ) (es : List Event) (c : Cache)
      → length es < fuel
      → All (IsKeeping n) es
      → IsCacheOf n c
      → Ends n (Got n dev block) (getblk_from fuel dev block es c)
  unfolding getblk_from
  getblk_from-Ends zero es c l k v = absurd (omega arith)
  getblk_from-Ends (suc fuel) es c l k v =
      let next : (es' : List Event) (c' : Cache)
          → length es' < length es
          → All (IsKeeping n) es'
          → IsCacheOf n c'
          → Ends n (Got n dev block) (getblk_from fuel dev block es' c') =
        λ es' c' fewer k' v'. getblk_from-Ends fuel es' c' (omega arith) k' v' in
      let then_look : Option ℕ → List Event → Cache → Outcome ℕ = λ hit es' c'. elim hit [
        | some i ↦ done i es' c'
        | none ↦ elim (choose c'.free_list none c') [
          | none ↦ then_do (sleep_on es' c') (λ _. getblk_from fuel dev block)
          | some i ↦ settle i dev block (getblk_from fuel dev block) es' c'
        ]
      ] in
      then_do-Ends n (Got n dev block) (get_hash_table (length es + 1) dev block es c) _
        (get_hash_table-Ends n dev block (length es + 1) es c (omega arith) k v)
        (λ hit es' c'.
          elim hit
            as (λ h.
              Looked n dev block es c h es' c' → Ends n (Got n dev block) (then_look h es' c')) [
                | some i ↦ λ got. got
                | none ↦ λ (missing, a). elim (Option-cases (choose c'.free_list none c')) [
                  | inl nobody ↦
                      rw (Ends, nobody)
                        (then_do-Ends n (Got n dev block) (sleep_on es' c') _
                          (sleep_on-Ends n es' c' a.kept a.valid)
                          (λ _ es'' c'' (v'', k'', fewer).
                            next es'' c'' (let t = Moved-length a.moved in omega arith) k'' v''))
                  | inr (i, chosen) ↦
                      rw (Ends, chosen)
                        (elim (choose-some c'.free_list none c' i chosen) [
                          | inl (m, unused) ↦
                              let lt = a.valid.0.in_list i m in
                              settle-Ends (getblk_from fuel dev block) i es' c'
                                (λ es'' c'' fewer k' v'.
                                  next es'' c'' (let t = Moved-length a.moved in omega arith) k' v')
                                missing unused (omega (arith, lt, a.valid.1)) a.kept a.valid
                          | inr never ↦ absurd (cc)
                        ])
                ]
              ])

-- In a cache whose queues are sound, for a device other than 0 and whatever sequence of changes
-- that keep the queues sound and the number of buffers is made while getblk sleeps, getblk needs
-- no more rounds than there are changes and one, and either returns a buffer of the block that is
-- not locked, or is asleep when the changes are used up; in both cases the queues are sound, with
-- one buffer at most for each block of a device.
pub getblk-IsGot :
    (n dev block : ℕ) (es : List Event) (c : Cache)
    → dev ≢ 0
    → All (IsKeeping n) es
    → IsCacheOf n c
    → Ends n (Got n dev block) (getblk dev block es c)
unfolding getblk
getblk-IsGot n dev block es c nz k v =
    getblk_from-Ends n dev block nz (length es + 1) es c (omega arith) k v
