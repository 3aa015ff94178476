-- ===== src/Kernel/Tree/Prune.antt =====
-- kernel/exit.c: release takes a task without children out of the tree.
use lambda_linux_kernel.Prelude.{
  ℕ, ◌≡◌, ◌≢◌, refl, true, false, none, some, List, [], ◌==◌, is_some, arith, ap, ◌∙◌, sym, inl,
  inr, Bool-cases, elem, without, elem-without,
}
use native.Mathlib.Decide.{ℕ_discrete}
use lambda_linux_kernel.Kernel.Tree.{Tasks, links, unlink, release, released}
use lambda_linux_kernel.Kernel.Tree.Chains.{
  first, is, present, Linked, younger_of, older_of, IsTree, Linked-keeps, parent_present,
  one_parent,
}
use lambda_linux_kernel.Kernel.Tree.Grow.{with_kids}
use lambda_linux_kernel.Kernel.Tree.Without.{
  Once-without, younger'', older'', Linked-without, younger_in, older_among, first-without,
}
use lambda_linux_kernel.Kernel.Tree.Unlinked.{
  parent', child', younger', older', present-ts', own, ts',
}

module _ (p : ℕ) (ts : Tasks) (kids : ℕ → List ℕ) (v : IsTree kids ts) (x : ℕ)
    (kid : elem p (kids x) ≡ true) (alone : kids p ≡ []) where
  abbrev pub kids' : ℕ → List ℕ
  kids' = with_kids x (without p (kids x)) kids

  at_parent : kids' x ≡ without p (kids x)
  at_parent = let hit : (x == x) ≡ true = ground arith in rw hit refl

  elsewhere : (z : ℕ) → z ≢ x → kids' z ≡ kids z
  elsewhere z ne = let miss : (z == x) ≡ false = ground arith in rw miss refl

  not_x : p ≢ x
  not_x e = let f = ap (λ z. elem p (kids z)) e in let g = ap (elem p) alone in absurd (cc)

  -- A child of another task is not `p`, and no brother of it.
  stranger :
      (z j : ℕ)
      → z ≢ x
      → elem j (kids z) ≡ true
      → ((p == j) ≡ false) × (is (own p ts).older j ≡ false) × (is (own p ts).younger j ≡ false)
  stranger z j ne m =
      let not_kid : elem j (kids x) ≡ false = elim (Bool-cases (elem j (kids x))) [
        | inr e ↦ e
        | inl e ↦ absurd (ne (one_parent kids ts v z x j m e))
      ] in
      (
        (elim (ℕ_discrete p j) [
          | yes e ↦ let f = ap (λ i. elem i (kids x)) e in absurd (cc)
          | no ne' ↦ ground arith
        ]),
        (elim (Bool-cases (is (own p ts).older j)) [
          | inr e ↦ e
          | inl e ↦
              let f =
                older_among (younger_of ts) (older_of ts) p none (kids x) j (v.linked x) kid e in
              absurd (cc)
        ]),
        (elim (Bool-cases (is (own p ts).younger j)) [
          | inr e ↦ e
          | inl e ↦
              elim (younger_in (younger_of ts) (older_of ts) p none (kids x) j (v.linked x) kid e) [
                | inl f ↦ absurd (cc)
                | inr f ↦ absurd (cc)
              ]
        ]),
      )

  linked' : (z : ℕ) → Linked (younger_of (ts' p ts)) (older_of (ts' p ts)) none (kids' z)
  linked' z = elim (ℕ_discrete z x) [
    | yes e ↦
        rw (e, at_parent)
          (Linked-keeps (younger'' (younger_of ts) (older_of ts) p)
            (older'' (younger_of ts) (older_of ts) p) (younger_of (ts' p ts)) (older_of (ts' p ts))
            none (without p (kids x))
            (λ j m.
              let w = elem-without p j (kids x) in
              let ne : (p == j) ≡ false = ground arith in
              let here = (v.member x j (ground arith)).0 in
              ((younger' p ts) j ne here, (older' p ts) j ne here))
            (Linked-without (younger_of ts) (older_of ts) p none (kids x) (v.linked x) (v.once x)
              kid (λ k n. refl)))
    | no ne ↦ rw (elsewhere z ne) (
        Linked-keeps (younger_of ts) (older_of ts) (younger_of (ts' p ts)) (older_of (ts' p ts))
          none (kids z)
          (λ j m.
            let (a, b, c) = stranger z j ne m in
            let here = (v.member z j m).0 in
            ((younger' p ts) j a here ∙ (rw b refl), (older' p ts) j a here ∙ (rw c refl)))
          (v.linked z))
  ]

  youngest' : (z : ℕ) → (links (ts' p ts) z).child ≡ first (kids' z)
  youngest' z = (child' p ts) z ∙ (elim (ℕ_discrete p z) [
    | yes e ↦
        let hit : (p == z) ≡ true = ground arith in
        rw hit (sym (ap first (elsewhere z (λ f. not_x (e ∙ f)) ∙ (ap kids (sym e) ∙ alone))))
    | no ne ↦
        let miss : (p == z) ≡ false = ground arith in
        rw miss (elim (ℕ_discrete z x) [
          | no f ↦
              let elsewhere' : is (own p ts).parent z ≡ false =
                ap (λ q. is q z) (v.member x p kid).1 ∙ ground arith in
              rw (elsewhere', elsewhere z f) (ground (arith, v.youngest z))
          | yes f ↦
              let here' : is (own p ts).parent z ≡ true =
                ap (λ q. is q z) (v.member x p kid).1 ∙ ground arith in
              let there : present ts z ≡ true =
                ap (present ts) f ∙ parent_present kids ts v x p kid in
              let next =
                first-without (younger_of ts) (older_of ts) p (kids x) (v.linked x) (v.once x)
                  kid in
              let last = ap (λ q. first (kids' q)) f ∙ (ap first at_parent ∙ next) in
              let now : (links ts z).child ≡ first (kids x) =
                v.youngest z ∙ ap (λ q. first (kids q)) f in
              rw (here', there)
                (elim (Bool-cases (is_some (own p ts).younger)) [
                  | inl e ↦ rw e (now ∙ sym (last ∙ (rw e refl)))
                  | inr e ↦ rw e (sym (last ∙ (rw e refl)))
                ])
        ])
  ])

  old_member :
      (z j : ℕ)
      → elem j (kids z) ≡ true
      → (p == j) ≡ false
      → (present (ts' p ts) j ≡ true) × ((links (ts' p ts) j).parent ≡ some z) × (j ≢ 0)
  old_member z j m ne =
      let (a, b, c) = v.member z j m in
      ((present-ts' p ts) j ∙ (rw ne a), (parent' p ts) j ne ∙ b, c)

  member' :
      (z j : ℕ)
      → elem j (kids' z) ≡ true
      → (present (ts' p ts) j ≡ true) × ((links (ts' p ts) j).parent ≡ some z) × (j ≢ 0)
  member' z j m = elim (ℕ_discrete z x) [
    | no f ↦
        let m' : elem j (kids z) ≡ true = ap (elem j) (sym (elsewhere z f)) ∙ m in
        old_member z j m' (stranger z j f m').0
    | yes f ↦
        let m' : elem j (without p (kids x)) ≡ true =
          ap (elem j) (sym at_parent) ∙ (ap (λ q. elem j (kids' q)) (sym f) ∙ m) in
        let w = elem-without p j (kids x) in rw f (old_member x j (ground arith) (ground arith))
  ]

  has_parent' :
      (j : ℕ)
      → present (ts' p ts) j ≡ true
      → j ≢ 0
      → (z : ℕ) × ((links (ts' p ts) j).parent ≡ some z) × (elem j (kids' z) ≡ true)
  has_parent' j here nz =
      let q = (present-ts' p ts) j in
      let ne : (p == j) ≡ false = ground arith in
      let (z, r, m) = v.has_parent j (ground arith) nz in
      (
        z,
        (parent' p ts) j ne ∙ r,
        elim (ℕ_discrete z x) [
          | no f ↦ ap (elem j) (elsewhere z f) ∙ m
          | yes f ↦
              let w = elem-without p j (kids x) in
              let m' : elem j (kids x) ≡ true = ap (λ i. elem j (kids i)) (sym f) ∙ m in
              ap (λ i. elem j (kids' i)) f ∙ (ap (elem j) at_parent ∙ ground arith)
        ],
      )

  pub unlink-IsTree : IsTree kids' (ts' p ts)
  unlink-IsTree = record {
    youngest = youngest';
    linked = linked';
    once = λ z. elim (ℕ_discrete z x) [
      | yes e ↦ rw (e, at_parent) (Once-without p (kids x) (v.once x))
      | no ne ↦ rw (elsewhere z ne) (v.once z)
    ];
    member = member';
    has_parent = has_parent';
  }

pub release-unlink :
    (current p : ℕ) (ts : Tasks)
    → present ts p ≡ true
    → p ≢ 0
    → p ≢ current
    → release current p ts ≡ released (unlink p ts)
unfolding release
release-unlink current p ts here nz ne =
    let miss : (p == current) ≡ false = ground arith in
    let miss' : (p == 0) ≡ false = ground arith in rw (miss, miss', here) refl
