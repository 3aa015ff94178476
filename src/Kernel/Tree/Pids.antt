-- ===== src/Kernel/Tree/Pids.antt =====
-- kernel/fork.c: find_empty_process.
use lambda_linux_kernel.Prelude.{
  ℕ, zero, suc, ◌+◌, ◌-◌, ◌*◌, ◌^◌, ◌≤◌, ◌<◌, ◌≡◌, ◌≢◌, refl, true, false, Option, none, some, List,
  [], ◌∷◌, ◌==◌, length, arith, ap, ◌∙◌, sym, inl, inr, Bool-cases, ◌⊎◌, elem, without,
  elem-without,
}
use native.Mathlib.Decide.{ℕ_discrete}
use lambda_linux_kernel.Kernel.Tree.{
  Task, Tasks, in_use, next_pid, find_pid, find_slot, find_empty_process,
}
use lambda_linux_kernel.Kernel.Tree.Chains.{Once, present}

length-without : (x : ℕ) (ys : List ℕ) → elem x ys ≡ true → length (without x ys) + 1 ≤ length ys
length-without x [] e = absurd (cc)
length-without x (y ∷ ys) e = elim (Bool-cases (elem x ys)) [
  | inl f ↦ let r = length-without x ys f in ground arith
  | inr f ↦ let r = length-without_le x ys in ground arith
]
  where
    length-without_le : (x : ℕ) (ys : List ℕ) → length (without x ys) ≤ length ys
    length-without_le x [] = omega arith
    length-without_le x (y ∷ ys) = let r = length-without_le x ys in ground arith

-- A list without repetitions is no longer than one that has all its members.
pub pigeons :
    (xs ys : List ℕ)
    → Once xs
    → ((x : ℕ) → elem x xs ≡ true → elem x ys ≡ true)
    → length xs ≤ length ys
pigeons [] ys u m = omega arith
pigeons (x ∷ xs) ys (u, us) m =
    let r = pigeons xs (without x ys) us (λ z e.
      let ne : (x == z) ≡ false = elim (ℕ_discrete x z) [
        | yes f ↦ let g = ap (λ k. elem k xs) f in absurd (cc)
        | no ne ↦ ground arith
      ] in
      let here = m z (ground arith) in elem-without x z ys ∙ ground arith) in
    omega (arith, r, length-without x ys (m x (ground arith)))

abbrev candidates : ℕ → ℕ → List ℕ
candidates zero l = []
candidates (suc n) l = next_pid l ∷ candidates n (next_pid l)

next_pid-bound : (l : ℕ) → l < 2 ^ 31 → (1 ≤ next_pid l) × (next_pid l < 2 ^ 31)
next_pid-bound l lt = ground arith

-- Where the candidates are, counted round.
window :
    (n x l : ℕ)
    → l < 2 ^ 31
    → elem x (candidates n l) ≡ true
    → ((l < x) × (x ≤ l + n)) ⊎ (x + (2 ^ 31 - 1) ≤ l + n)
window zero x l lt e = absurd (cc)
window (suc n) x l lt e = elim (ℕ_discrete (next_pid l) x) [
  | yes f ↦ first_window n x l lt f
  | no ne ↦ later_window n x l lt (window n x (next_pid l) (next_pid-bound l lt).1 (ground arith))
]
  where
    first_window :
        (n x l : ℕ)
        → l < 2 ^ 31
        → next_pid l ≡ x
        → ((l < x) × (x ≤ l + suc n)) ⊎ (x + (2 ^ 31 - 1) ≤ l + suc n)
    first_window n x l lt f = ground arith

    later_window :
        (n x l : ℕ)
        → l < 2 ^ 31
        → ((next_pid l < x) × (x ≤ next_pid l + n)) ⊎ (x + (2 ^ 31 - 1) ≤ next_pid l + n)
        → ((l < x) × (x ≤ l + suc n)) ⊎ (x + (2 ^ 31 - 1) ≤ l + suc n)
    later_window n x l lt f = ground arith

candidates-Once : (n l : ℕ) → l < 2 ^ 31 → n < 2 ^ 31 → Once (candidates n l)
candidates-Once zero l lt small = tt
candidates-Once (suc n) l lt small =
    let lt' = (next_pid-bound l lt).1 in
    (
      (elim (Bool-cases (elem (next_pid l) (candidates n (next_pid l)))) [
        | inr e ↦ e
        | inl e ↦ elim (window n (next_pid l) (next_pid l) lt' e) [
          | inl f ↦ absurd (omega arith)
          | inr f ↦ absurd (omega arith)
        ]
      ]),
      candidates-Once n (next_pid l) lt' (omega arith),
    )

abbrev ids : Tasks → List ℕ
ids [] = []
ids (none ∷ ts) = ids ts
ids (some t ∷ ts) = t.pid ∷ (t.process.pgrp ∷ ids ts)

length-ids : (ts : Tasks) → length (ids ts) ≤ 2 * length ts
length-ids [] = omega arith
length-ids (none ∷ ts) = omega (arith, length-ids ts)
length-ids (some t ∷ ts) = omega (arith, length-ids ts)

elem-ids : (x : ℕ) (ts : Tasks) → elem x (ids ts) ≡ in_use x ts
elem-ids x [] = refl
elem-ids x (none ∷ ts) = elem-ids x ts
elem-ids x (some t ∷ ts) = ground (arith, elem-ids x ts)

-- It finds a pid, or every candidate is in use.
find_pid-cases :
    (fuel l : ℕ) (ts : Tasks)
    → l < 2 ^ 31
    → ((id : ℕ) × (find_pid fuel l ts ≡ some id)
        × (in_use id ts ≡ false)
        × (1 ≤ id)
        × (id < 2 ^ 31))
      ⊎ ((x : ℕ) → elem x (candidates fuel l) ≡ true → elem x (ids ts) ≡ true)
unfolding find_pid
find_pid-cases zero l ts lt = inr (λ x e. absurd (cc))
find_pid-cases (suc fuel) l ts lt =
    let (ge, lt') = next_pid-bound l lt in
    elim (Bool-cases (in_use (next_pid l) ts)) [
      | inr free ↦ inl (next_pid l, rw free refl, free, ge, lt')
      | inl used ↦ elim (find_pid-cases fuel (next_pid l) ts lt') [
        | inl (id, e, f, g, h) ↦ inl (id, rw used e, f, g, h)
        | inr all ↦ inr (λ x e. elim (ℕ_discrete (next_pid l) x) [
          | yes same ↦ elem-ids x ts ∙ (ap (λ z. in_use z ts) (sym same) ∙ used)
          | no ne ↦ all x (ground arith)
        ])
      ]
    ]

length-candidates : (n l : ℕ) → length (candidates n l) ≡ n
length-candidates zero l = refl
length-candidates (suc n) l = ap suc (length-candidates n (next_pid l))

find_slot-cases :
    (i : ℕ) (ts : Tasks)
    → ((k : ℕ) × (find_slot i ts ≡ some (i + k)) × (k < length ts) × (present ts k ≡ false))
      ⊎ ((find_slot i ts ≡ none) × ((k : ℕ) → k < length ts → present ts k ≡ true))
find_slot-cases i [] = inr (refl, λ k lt. absurd (omega arith))
find_slot-cases i (none ∷ ts) =
    let z : i ≡ i + 0 = omega arith in inl (0, ap some z, omega arith, refl)
find_slot-cases i (some t ∷ ts) = elim (find_slot-cases (suc i) ts) [
  | inl (k, e, lt, free) ↦
      let z : suc i + k ≡ i + suc k = omega arith in inl (suc k, e ∙ ap some z, omega arith, free)
  | inr (e, all) ↦ inr (e, all_present t ts all)
]
  where
    all_present :
        (t : Task) (ts : Tasks)
        → ((k : ℕ) → k < length ts → present ts k ≡ true)
        → (k : ℕ) → k < suc (length ts)
        → present (some t ∷ ts) k ≡ true
    all_present t ts all zero lt = refl
    all_present t ts all (suc k) lt = all k (omega arith)

-- A slot to fork into, or -EAGAIN with no slot but the first empty.
pub data IsSlot (ts : Tasks) : Option ℕ → Type 0 where
  slot : (i : ℕ) → i ≢ 0 → i < length ts → present ts i ≡ false → IsSlot ts (some i)
  full : ((i : ℕ) → i ≢ 0 → i < length ts → present ts i ≡ true) → IsSlot ts none

pub data IsFound (ts : Tasks) : Option (ℕ × Option ℕ) → Type 0 where
  found :
      (pid : ℕ) (i : Option ℕ)
      → 1 ≤ pid
      → pid < 2 ^ 31
      → in_use pid ts ≡ false
      → IsSlot ts i
      → IsFound ts (some (pid, i))

find_slot-IsSlot : (t : Option Task) (ts : Tasks) → IsSlot (t ∷ ts) (find_slot 1 ts)
find_slot-IsSlot t ts = elim (find_slot-cases 1 ts) [
  | inl (k, e, lt, free) ↦
      let z : 1 + k ≡ suc k = omega arith in
      rw (e, z) (slot (suc k) (omega arith) (omega arith) free)
  | inr (e, all) ↦ rw e (full (others t ts all))
]
  where
    others :
        (t : Option Task) (ts : Tasks)
        → ((k : ℕ) → k < length ts → present ts k ≡ true)
        → (i : ℕ) → i ≢ 0
        → i < suc (length ts)
        → present (t ∷ ts) i ≡ true
    others t ts all zero nz lt = absurd (nz refl)
    others t ts all (suc i) nz lt = all i (omega arith)

-- For fewer than 2^29 tasks after the first, find_empty_process ends within two rounds for each
-- slot and one, with a positive pid below 2^31 that is neither the pid nor the group of a task,
-- and with an empty slot other than 0, or -EAGAIN if there is none.
pub find_empty_process-IsFound :
    (last_pid : ℕ) (first : Option Task) (ts : Tasks)
    → last_pid < 2 ^ 31
    → length ts < 2 ^ 29
    → IsFound (first ∷ ts) (find_empty_process last_pid (first ∷ ts))
unfolding find_empty_process
find_empty_process-IsFound last_pid first ts lt small =
    elim (find_pid-cases (2 * length (first ∷ ts) + 1) last_pid (first ∷ ts) lt) [
      | inl (id, e, free, ge, lt') ↦
          rw (find_empty_process, e)
            (found id (find_slot 1 ts) ge lt' free (find_slot-IsSlot first ts))
      | inr all ↦
          let n = 2 * length (first ∷ ts) + 1 in
          let r =
            pigeons (candidates n last_pid) (ids (first ∷ ts))
              (candidates-Once n last_pid lt (omega arith)) all in
          absurd (omega (arith, r, length-candidates n last_pid, length-ids (first ∷ ts)))
    ]
