-- ===== src/Fs/Buffer/Recycle.antt =====
-- fs/buffer.c: a buffer becomes that of another block.
use lambda_linux_kernel.Prelude.{
  elem, without, elem-without, elem-append, ℕ, ◌<◌, ◌≡◌, ◌≢◌, refl, true, false, not, ◌&&◌, ◌||◌,
  none, List, ◌∷◌, ◌==◌, if◌then◌else◌, length-set, get_or-set_self, arith, subst, ap, ◌∙◌, sym,
  inl, inr, Bool-cases,
}
use native.Mathlib.Decide.{ℕ_discrete}
use lambda_linux_kernel.Fs.Buffer.{
  Head, Cache, head, set_head, hash_of, set_queue, remove_from_queues, insert_into_queues,
  find_buffer, recycle, no_head,
}
use lambda_linux_kernel.Fs.Buffer.Queues.{IsCache, size, head-set_head, find_in-none}

elem-set_queue :
    (n k j : ℕ) (queue : List ℕ) (table : ℕ → List ℕ)
    → elem j (set_queue n queue table k) ≡ (if k == n then elem j queue else elem j (table k))
elem-set_queue n k j queue table = elim (Bool-cases (k == n)) [
  | inl e ↦ rw e refl
  | inr e ↦ rw e refl
]

elem-moved :
    (n a b i j : ℕ) (table : ℕ → List ℕ)
    → elem j (
        set_queue b
          (i ∷ set_queue a (without i (table a)) table b)
          (set_queue a (without i (table a)) table)
          n)
      ≡ ((n == b && i == j) || (elem j (table n) && not (n == a && i == j)))
elem-moved n a b i j table =
    let q = set_queue a (without i (table a)) table in
    let at : (k : ℕ) → elem j (q k) ≡ (elem j (table k) && not (k == a && i == j)) = λ k.
      elim (ℕ_discrete k a) [
        | yes e ↦ rw e (
            elem-set_queue a a j (without i (table a)) table
            ∙ ground (arith, elem-without i j (table a)))
        | no ne ↦ elem-set_queue a k j (without i (table a)) table ∙ ground arith
      ] in
    rw (elem-set_queue b n j (i ∷ q b) q)
      (elim (ℕ_discrete n b) [ yes e ↦ rw e (ground (arith, at b)) | no ne ↦ ground (arith, at n) ])

module _ (i dev block : ℕ) (c : Cache) (lt : i < size c) where
  abbrev pub renewed : Head
  renewed = record (head c i) {
    count = 1;
    dirt = false;
    uptodate = false;
    dev = dev;
    blocknr = block;
  }

  abbrev cleared : Head
  cleared = record (head c i) { count = 1; dirt = false; uptodate = false }

  abbrev c1 : Cache
  c1 = set_head i cleared c

  size-c1 : i < size c1
  size-c1 = omega (arith, lt, length-set c.heads i cleared)

  head-c1 : head c1 i ≡ cleared
  head-c1 = get_or-set_self c.heads i cleared no_head lt

  head-last : head (set_head i renewed c1) i ≡ renewed
  head-last = get_or-set_self c1.heads i renewed no_head size-c1

  pub head-recycle :
      (j : ℕ) → head (recycle i dev block c) j ≡ (if i == j then renewed else head c j)
  unfolding recycle remove_from_queues insert_into_queues
  head-recycle j = rw head-c1 (
      head-set_head c1 i j renewed size-c1 ∙ (elim (Bool-cases (i == j)) [
        | inl e ↦ rw e refl
        | inr e ↦ rw (head-set_head c i j cleared lt) (rw e refl)
      ]))

  pub size-recycle : size (recycle i dev block c) ≡ size c
  unfolding recycle remove_from_queues insert_into_queues
  size-recycle = rw head-c1 (length-set c1.heads i renewed ∙ length-set c.heads i cleared)

  abbrev before : ℕ
  before = hash_of (head c i).dev (head c i).blocknr

  elem-hash_table :
      (n j : ℕ)
      → dev ≢ 0
      → elem j ((recycle i dev block c).hash_table n) ≡ (
          (n == hash_of dev block && i == j)
          || (elem j (c.hash_table n) && not (n == before && i == j)))
  unfolding recycle remove_from_queues insert_into_queues
  elem-hash_table n j nz =
      let some_dev : (dev == 0) ≡ false = ground arith in
      rw head-c1
        (rw head-last (rw some_dev (elem-moved n before (hash_of dev block) i j c.hash_table)))

  elem-free_list :
      (j : ℕ) → elem j (recycle i dev block c).free_list ≡ (elem j c.free_list || i == j)
  unfolding recycle remove_from_queues insert_into_queues
  elem-free_list j = rw (elem-append, elem-without) (ground arith)

-- No buffer is for a block that find_buffer does not find.
not_cached :
    (c : Cache) (dev block : ℕ)
    → IsCache c
    → find_buffer dev block c ≡ none
    → dev ≢ 0
    → (k : ℕ) → k < size c
    → (head c k).dev ≡ dev
    → (head c k).blocknr ≡ block
    → ⊥
unfolding find_buffer
not_cached c dev block v missing nz k lt d b =
    let queued : elem k (c.hash_table (hash_of dev block)) ≡ true =
      subst (λ x. elem k (c.hash_table (hash_of dev x)) ≡ true) b
        (subst (λ x. elem k (c.hash_table (hash_of x (head c k).blocknr)) ≡ true) d
          (v.queued k lt (λ z. nz (sym d ∙ z)))) in
    let other = find_in-none (c.hash_table (hash_of dev block)) dev block c k missing queued in
    ground arith

pub recycle-IsCache :
    (i dev block : ℕ) (c : Cache)
    → i < size c
    → dev ≢ 0
    → find_buffer dev block c ≡ none
    → IsCache c
    → IsCache (recycle i dev block c)
recycle-IsCache i dev block c lt nz missing v =
    let c' = recycle i dev block c in
    let same = size-recycle i dev block c lt in
    let hit : (j : ℕ) → i ≡ j → head c' j ≡ renewed i dev block c lt = λ j e.
      let t : (i == j) ≡ true = ground arith in rw (head-recycle i dev block c lt j) (rw t refl) in
    let miss : (j : ℕ) → i ≢ j → head c' j ≡ head c j = λ j e.
      let t : (i == j) ≡ false = ground arith in rw (head-recycle i dev block c lt j) (rw t refl) in
    let alone = not_cached c dev block v missing nz in
    record {
      unique = λ j k lt_j lt_k some_dev d b. elim (ℕ_discrete i j) [
        | yes e ↦ elim (ℕ_discrete i k) [
          | yes f ↦ sym e ∙ f
          | no f ↦ absurd (
              alone k (omega (arith, same, lt_k))
                (sym (ap (λ h. h.dev) (miss k f)) ∙ sym d ∙ ap (λ h. h.dev) (hit j e))
                (sym (ap (λ h. h.blocknr) (miss k f)) ∙ sym b ∙ ap (λ h. h.blocknr) (hit j e)))
        ]
        | no e ↦ elim (ℕ_discrete i k) [
          | yes f ↦ absurd (
              alone j (omega (arith, same, lt_j))
                (sym (ap (λ h. h.dev) (miss j e)) ∙ d ∙ ap (λ h. h.dev) (hit k f))
                (sym (ap (λ h. h.blocknr) (miss j e)) ∙ b ∙ ap (λ h. h.blocknr) (hit k f)))
          | no f ↦
              v.unique j k (omega (arith, same, lt_j)) (omega (arith, same, lt_k))
                (λ z. some_dev (ap (λ h. h.dev) (miss j e) ∙ z))
                (sym (ap (λ h. h.dev) (miss j e)) ∙ d ∙ ap (λ h. h.dev) (miss k f))
                (sym (ap (λ h. h.blocknr) (miss j e)) ∙ b ∙ ap (λ h. h.blocknr) (miss k f))
        ]
      ];
      queued = λ j lt_j some_dev.
          elem-hash_table i dev block c lt (hash_of (head c' j).dev (head c' j).blocknr) j nz
          ∙ (elim (ℕ_discrete i j) [
            | yes e ↦
                let same_hash : hash_of (head c' j).dev (head c' j).blocknr ≡ hash_of dev block =
                  ap (λ h. hash_of h.dev h.blocknr) (hit j e) in
                ground arith
            | no ne ↦
                let old =
                  v.queued j (omega (arith, same, lt_j))
                    (λ z. some_dev (ap (λ h. h.dev) (miss j ne) ∙ z)) in
                let there : elem j (c.hash_table (hash_of (head c' j).dev (head c' j).blocknr))
                    ≡ true =
                  ap (λ h. elem j (c.hash_table (hash_of h.dev h.blocknr))) (miss j ne) ∙ old in
                ground arith
          ]);
      in_range = λ n j e. elim (ℕ_discrete i j) [
        | yes f ↦ omega (arith, same, lt)
        | no f ↦
            let moved = elem-hash_table i dev block c lt n j nz in
            let old : elem j (c.hash_table n) ≡ true = ground arith in
            omega (arith, same, v.in_range n j old)
      ];
      listed = λ j lt_j.
          let old = v.listed j (omega (arith, same, lt_j)) in
          let moved = elem-free_list i dev block c lt j in ground arith;
      in_list = λ j e. elim (ℕ_discrete i j) [
        | yes f ↦ omega (arith, same, lt)
        | no f ↦
            let moved = elem-free_list i dev block c lt j in
            let old : elem j c.free_list ≡ true = ground arith in
            omega (arith, same, v.in_list j old)
      ];
    }
