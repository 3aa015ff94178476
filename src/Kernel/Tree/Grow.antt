-- ===== src/Kernel/Tree/Grow.antt =====
-- kernel/fork.c: the new task in the tree.
use lambda_linux_kernel.Prelude.{
  ℕ, ◌<◌, ◌≡◌, ◌≢◌, refl, true, false, none, some, List, [], ◌∷◌, ◌==◌, if◌then◌else◌, length,
  arith, ap, ◌∙◌, sym, inl, inr, Bool-cases, elem,
}
use native.Mathlib.Decide.{ℕ_discrete}
use lambda_linux_kernel.Kernel.Tree.{Tasks, links}
use lambda_linux_kernel.Kernel.Tree.Chains.{
  first, is, present, Linked, Once, younger_of, older_of, IsTree, Linked-keeps, no_kids, no_kid,
  one_parent, first-elem,
}
use lambda_linux_kernel.Kernel.Tree.Forked.{
  parent', child', younger', older', present-ts', oldest, ts',
}

abbrev pub with_kids : ℕ → List ℕ → (ℕ → List ℕ) → ℕ → List ℕ
with_kids n js kids x = if x == n then js else kids x

module _ (nr current pid : ℕ) (ts : Tasks) (lt : nr < length ts) (free : present ts nr ≡ false)
    (here : present ts current ≡ true) (kids : ℕ → List ℕ) (v : IsTree kids ts) (nz : nr ≢ 0) where
  abbrev kids' : ℕ → List ℕ
  kids' = with_kids current (nr ∷ kids current) kids

  not_nr : (x j : ℕ) → elem j (kids x) ≡ true → (nr == j) ≡ false
  not_nr x j m = elim (ℕ_discrete nr j) [
    | yes e ↦
        let f = no_kid kids ts v nr free x in let g = ap (λ i. elem i (kids x)) e in absurd (cc)
    | no ne ↦ ground arith
  ]

  oldest-first : (oldest nr current pid ts lt free here) ≡ first (kids current)
  oldest-first = v.youngest current

  kept_younger :
      (x j : ℕ)
      → elem j (kids x) ≡ true
      → is (oldest nr current pid ts lt free here) j ≡ false
      → younger_of (ts' nr current pid ts lt free here) j ≡ younger_of ts j
  kept_younger x j m o = (younger' nr current pid ts lt free here) j ∙ (rw (o, not_nr x j m) refl)

  kept_older :
      (x j : ℕ)
      → elem j (kids x) ≡ true
      → older_of (ts' nr current pid ts lt free here) j ≡ older_of ts j
  kept_older x j m = (older' nr current pid ts lt free here) j ∙ (rw (not_nr x j m) refl)

  brothers_rest :
      (js : List ℕ)
      → (oldest nr current pid ts lt free here) ≡ first js
      → Once js
      → Linked (younger_of ts) (older_of ts) none js
      → ((j : ℕ) → elem j js ≡ true → elem j (kids current) ≡ true)
      → Linked
          (younger_of (ts' nr current pid ts lt free here))
          (older_of (ts' nr current pid ts lt free here))
          (some nr)
          js
  brothers_rest [] o u l w = tt
  brothers_rest (j ∷ js) o (u, us) (y, o', l) w =
      let m = w j (ground arith) in
      let self : is (some j) j ≡ true = ground arith in
      let hit : is (oldest nr current pid ts lt free here) j ≡ true = ap (λ x. is x j) o ∙ self in
      (
        (younger' nr current pid ts lt free here) j
            ∙ (rw (hit, (v.member current j m).0, not_nr current j m) refl),
        kept_older current j m ∙ o',
        Linked-keeps (younger_of ts) (older_of ts) (younger_of (ts' nr current pid ts lt free here))
            (older_of (ts' nr current pid ts lt free here)) (some j) js
            (λ k n.
              let n' = w k (ground arith) in
              let other : is (some j) k ≡ false = elim (ℕ_discrete j k) [
                | yes e ↦ let f = ap (λ i. elem i js) e in absurd (cc)
                | no ne ↦ ground arith
              ] in
              (kept_younger current k n' (ap (λ x. is x k) o ∙ other), kept_older current k n'))
            l,
      )

  brothers_old :
      (x : ℕ)
      → x ≢ current
      → Linked
          (younger_of (ts' nr current pid ts lt free here))
          (older_of (ts' nr current pid ts lt free here))
          none
          (kids x)
  brothers_old x ne =
      Linked-keeps (younger_of ts) (older_of ts) (younger_of (ts' nr current pid ts lt free here))
        (older_of (ts' nr current pid ts lt free here)) none (kids x)
        (λ j m.
          let other : is (oldest nr current pid ts lt free here) j ≡ false =
            elim (Bool-cases (is (oldest nr current pid ts lt free here) j)) [
              | inr e ↦ e
              | inl e ↦
                  let first_one =
                    first-elem (kids current) j (ap (λ o. is o j) (sym oldest-first) ∙ e) in
                  absurd (ne (one_parent kids ts v x current j m first_one))
            ] in
          (kept_younger x j m other, kept_older x j m))
        (v.linked x)

  at_parent : kids' current ≡ nr ∷ kids current
  at_parent = let hit : (current == current) ≡ true = ground arith in rw hit refl

  elsewhere : (x : ℕ) → x ≢ current → kids' x ≡ kids x
  elsewhere x ne = let miss : (x == current) ≡ false = ground arith in rw miss refl

  youngest' : (x : ℕ) → (links (ts' nr current pid ts lt free here) x).child ≡ first (kids' x)
  youngest' x = (child' nr current pid ts lt free here) x ∙ (elim (ℕ_discrete x current) [
    | yes e ↦
        let hit : (current == x) ≡ true = ground arith in
        rw hit (sym (ap (λ z. first (kids' z)) e ∙ ap first at_parent))
    | no ne ↦
        let miss : (current == x) ≡ false = ground arith in
        rw (miss, elsewhere x ne)
          (elim (ℕ_discrete nr x) [
            | yes f ↦
                let hit : (nr == x) ≡ true = ground arith in
                rw hit
                  (sym (ap (λ z. first (kids z)) (sym f) ∙ ap first (no_kids kids ts v nr free)))
            | no g ↦ let miss' : (nr == x) ≡ false = ground arith in rw miss' (v.youngest x)
          ])
  ])

  brothers_current :
      Linked
        (younger_of (ts' nr current pid ts lt free here))
        (older_of (ts' nr current pid ts lt free here))
        none
        (nr ∷ kids current)
  brothers_current =
      let self : (nr == nr) ≡ true = ground arith in
      let other : is (oldest nr current pid ts lt free here) nr ≡ false =
        elim (Bool-cases (is (oldest nr current pid ts lt free here) nr)) [
          | inr e ↦ e
          | inl e ↦
              let found = first-elem (kids current) nr (ap (λ o. is o nr) (sym oldest-first) ∙ e) in
              let never = no_kid kids ts v nr free current in absurd (cc)
        ] in
      (
        (younger' nr current pid ts lt free here) nr ∙ (rw (other, self) refl),
        (older' nr current pid ts lt free here) nr ∙ (rw self oldest-first),
        brothers_rest (kids current) oldest-first (v.once current) (v.linked current) (λ j m. m),
      )

  old_member :
      (x j : ℕ)
      → elem j (kids x) ≡ true
      → (present (ts' nr current pid ts lt free here) j ≡ true)
        × ((links (ts' nr current pid ts lt free here) j).parent ≡ some x)
        × (j ≢ 0)
  old_member x j m =
      let (p, q, r) = v.member x j m in
      (
        (present-ts' nr current pid ts lt free here) j ∙ ground arith,
        (parent' nr current pid ts lt free here) j ∙ (rw (not_nr x j m) q),
        r,
      )

  new_member :
      (present (ts' nr current pid ts lt free here) nr ≡ true)
      × ((links (ts' nr current pid ts lt free here) nr).parent ≡ some current)
      × (nr ≢ 0)
  new_member =
      let self : (nr == nr) ≡ true = ground arith in
      (
        (present-ts' nr current pid ts lt free here) nr ∙ (rw self refl),
        (parent' nr current pid ts lt free here) nr ∙ (rw self refl),
        nz,
      )

  member' :
      (x j : ℕ)
      → elem j (kids' x) ≡ true
      → (present (ts' nr current pid ts lt free here) j ≡ true)
        × ((links (ts' nr current pid ts lt free here) j).parent ≡ some x)
        × (j ≢ 0)
  member' x j m = elim (ℕ_discrete x current) [
    | no ne ↦ old_member x j (ap (elem j) (sym (elsewhere x ne)) ∙ m)
    | yes e ↦
        let m' : elem j (nr ∷ kids current) ≡ true =
          ap (elem j) (sym at_parent) ∙ (ap (λ z. elem j (kids' z)) (sym e) ∙ m) in
        rw e (elim (ℕ_discrete nr j) [
          | yes f ↦ rw (← f) new_member
          | no g ↦ old_member current j (ground arith)
        ])
  ]

  has_parent' :
      (j : ℕ)
      → present (ts' nr current pid ts lt free here) j ≡ true
      → j ≢ 0
      → (x : ℕ) × ((links (ts' nr current pid ts lt free here) j).parent ≡ some x)
        × (elem j (kids' x) ≡ true)
  has_parent' j p nz' = elim (ℕ_discrete nr j) [
    | yes e ↦
        let self : (nr == nr) ≡ true = ground arith in
        rw (← e) (current, new_member.1, ap (elem nr) at_parent ∙ ground arith)
    | no ne ↦
        let miss : (nr == j) ≡ false = ground arith in
        let q = (present-ts' nr current pid ts lt free here) j in
        let (x, r, m) = v.has_parent j (ground arith) nz' in
        (
          x,
          (parent' nr current pid ts lt free here) j ∙ (rw miss r),
          elim (ℕ_discrete x current) [
            | no f ↦ ap (elem j) (elsewhere x f) ∙ m
            | yes f ↦
                let m' : elem j (kids current) ≡ true = ap (λ z. elem j (kids z)) (sym f) ∙ m in
                ap (λ z. elem j (kids' z)) f ∙ (ap (elem j) at_parent ∙ ground arith)
          ],
        )
  ]

  pub copy_process-IsTree : IsTree kids' (ts' nr current pid ts lt free here)
  copy_process-IsTree = record {
    youngest = youngest';
    linked = λ x. elim (ℕ_discrete x current) [
      | yes e ↦ rw (e, at_parent) brothers_current
      | no ne ↦ rw (elsewhere x ne) (brothers_old x ne)
    ];
    once = λ x. elim (ℕ_discrete x current) [
      | yes e ↦ rw (e, at_parent) (no_kid kids ts v nr free current, v.once current)
      | no ne ↦ rw (elsewhere x ne) (v.once x)
    ];
    member = member';
    has_parent = has_parent';
  }
