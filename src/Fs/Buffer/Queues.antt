-- ===== src/Fs/Buffer/Queues.antt =====
-- fs/buffer.c: the invariant of the queues, and what a change of a head does to it.
use lambda_linux_kernel.Prelude.{
  elem, ℕ, ◌<◌, ◌≡◌, ◌≢◌, refl, true, false, Option, none, some, List, [], ◌∷◌, ◌==◌, if◌then◌else◌,
  length, length-set, get_or-set_self, get_or-set_ne, arith, ap, ◌∙◌, sym, inl, inr, Bool-cases,
}
use native.Mathlib.Decide.{ℕ_discrete}
use lambda_linux_kernel.Fs.Buffer.{Head, Cache, head, set_head, hash_of, is_for, find_in, no_head}

abbrev pub size : Cache → ℕ
size c = length c.heads

pub record IsCache (c : Cache) : Type 0 where
  -- at most one buffer for a block of a device
  pub unique :
      (i j : ℕ)
      → i < size c
      → j < size c
      → (head c i).dev ≢ 0
      → (head c i).dev ≡ (head c j).dev
      → (head c i).blocknr ≡ (head c j).blocknr
      → i ≡ j
  -- a buffer with a device is in the queue of its block
  pub queued :
      (i : ℕ)
      → i < size c
      → (head c i).dev ≢ 0
      → elem i (c.hash_table (hash_of (head c i).dev (head c i).blocknr)) ≡ true
  pub in_range : (n i : ℕ) → elem i (c.hash_table n) ≡ true → i < size c
  -- every buffer is in the free list
  pub listed : (i : ℕ) → i < size c → elem i c.free_list ≡ true
  pub in_list : (i : ℕ) → elem i c.free_list ≡ true → i < size c

pub head-set_head :
    (c : Cache) (i j : ℕ) (h : Head)
    → i < size c
    → head (set_head i h c) j ≡ (if i == j then h else head c j)
head-set_head c i j h lt = elim (ℕ_discrete i j) [
  | yes e ↦
      let hit : (i == j) ≡ true = ground arith in
      rw hit (rw (← e) (get_or-set_self c.heads i h no_head lt))
  | no ne ↦
      let miss : (i == j) ≡ false = ground arith in rw miss (get_or-set_ne c.heads h no_head ne)
]

-- A field that the new head has as the old one.
set_head_keeps :
    (f : Head → ℕ) (c : Cache) (i : ℕ) (h : Head)
    → i < size c
    → f h ≡ f (head c i)
    → (j : ℕ) → f (head (set_head i h c) j) ≡ f (head c j)
set_head_keeps f c i h lt e j = elim (ℕ_discrete i j) [
  | yes same ↦
      let hit : (i == j) ≡ true = ground arith in
      rw (head-set_head c i j h lt) (rw hit (e ∙ ap (λ k. f (head c k)) same))
  | no ne ↦
      let miss : (i == j) ≡ false = ground arith in rw (head-set_head c i j h lt) (rw miss refl)
]

-- What a head is for is kept where it keeps its device and block.
pub same_id-IsCache :
    (c : Cache) (i : ℕ) (h : Head)
    → i < size c
    → h.dev ≡ (head c i).dev
    → h.blocknr ≡ (head c i).blocknr
    → IsCache c
    → IsCache (set_head i h c)
same_id-IsCache c i h lt d b v =
    let dev_of = set_head_keeps (λ x. x.dev) c i h lt d in
    let block_of = set_head_keeps (λ x. x.blocknr) c i h lt b in
    let same : size (set_head i h c) ≡ size c = length-set c.heads i h in
    record {
      unique = λ j k lt_j lt_k nz e f.
          v.unique j k (omega (arith, same)) (omega (arith, same)) (λ z. nz (dev_of j ∙ z))
            (sym (dev_of j) ∙ e ∙ dev_of k) (sym (block_of j) ∙ f ∙ block_of k);
      queued = λ j lt_j nz.
          rw (dev_of j, block_of j) (v.queued j (omega (arith, same)) (λ z. nz (dev_of j ∙ z)));
      in_range = λ n j e. omega (arith, same, v.in_range n j e);
      listed = λ j lt_j. v.listed j (omega (arith, same));
      in_list = λ j e. omega (arith, same, v.in_list j e);
    }

pub find_in-some :
    (is : List ℕ) (dev block : ℕ) (c : Cache) (i : ℕ)
    → find_in is dev block c ≡ some i
    → (elem i is ≡ true) × (is_for dev block (head c i) ≡ true)
find_in-some [] dev block c i e = cc
find_in-some (j ∷ js) dev block c i e = elim (Bool-cases (is_for dev block (head c j))) [
  | inl hit ↦
      let e' : ◌≡◌ {A = Option ℕ} (some j) (some i) = rw hit at e in
      let same : j ≡ i = cc in (ground arith, rw (← same) hit)
  | inr miss ↦
      let e' : find_in js dev block c ≡ some i = rw miss at e in
      let (m, f) = find_in-some js dev block c i e' in (ground arith, f)
]

pub find_in-none :
    (is : List ℕ) (dev block : ℕ) (c : Cache) (i : ℕ)
    → find_in is dev block c ≡ none
    → elem i is ≡ true
    → is_for dev block (head c i) ≡ false
find_in-none [] dev block c i e m = cc
find_in-none (j ∷ js) dev block c i e m = elim (Bool-cases (is_for dev block (head c j))) [
  | inl hit ↦ let e' : ◌≡◌ {A = Option ℕ} (some j) none = rw hit at e in absurd (cc)
  | inr miss ↦
      let e' : find_in js dev block c ≡ none = rw miss at e in
      elim (ℕ_discrete j i) [
        | yes same ↦ rw (← same) miss
        | no ne ↦ find_in-none js dev block c i e' (ground arith)
      ]
]
