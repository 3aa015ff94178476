-- ===== src/Kernel/Exit/Family.antt =====
-- kernel/exit.c: the tree after the loop over the children of the task that exits.
use lambda_linux_kernel.Prelude.{
  ℕ, ◌≡◌, ◌≢◌, refl, Bool, true, false, ◌||◌, none, some, List, [], ◌∷◌, ◌++◌, ◌==◌, if◌then◌else◌,
  arith, subst, ap, ◌∙◌, sym, inl, inr, Bool-cases, elem, elem-append,
}
use native.Mathlib.Decide.{ℕ_discrete}
use lambda_linux_kernel.Kernel.Tree.{Tasks, links}
use lambda_linux_kernel.Kernel.Tree.Chains.{
  first, is, present, Linked, Once, younger_of, older_of, IsTree, Linked-keeps, one_parent,
  first-elem,
}
use lambda_linux_kernel.Kernel.Exit.{adopt}
use lambda_linux_kernel.Kernel.Exit.Inherit.{Inherits, last, brothers_kept}
use lambda_linux_kernel.Kernel.Exit.Adopt.{
  last-elem, Once-append, younger'', older'', Linked-append,
}
use lambda_linux_kernel.Kernel.Exit.Gone.{
  given, present-adopt, younger-adopt, older-adopt, parent-adopt, child-adopt,
}

module _ (current p : ℕ) (js : List ℕ) (kids : ℕ → List ℕ) (ts ts' : Tasks) (v : IsTree kids ts)
    (apart : current ≢ 1) (here : present ts current ≡ true) (init : present ts 1 ≡ true)
    (not_init : elem 1 (kids current) ≡ false) (all : kids current ≡ p ∷ js)
    (moved : Inherits (p ∷ js) ts ts') where
  abbrev oldest : ℕ
  oldest = last p js

  abbrev after : Tasks
  after = adopt current oldest ts'

  among : (j : ℕ) → elem j (p ∷ js) ≡ elem j (kids current)
  among j = ap (elem j) (sym all)

  oldest_among : elem oldest (kids current) ≡ true
  oldest_among = ap (elem oldest) all ∙ last-elem p js

  child_kept : (j : ℕ) → (links ts' j).child ≡ first (kids j)
  child_kept j = ap (λ l. l.child) (moved.links_now j) ∙ (ground arith ∙ v.youngest j)

  present' : (j : ℕ) → present after j ≡ present ts j
  present' j = present-adopt current oldest ts' apart j ∙ moved.present_now j

  younger' :
      (j : ℕ)
      → present ts j ≡ true
      → younger_of after j ≡ younger'' (younger_of ts) (older_of ts) (kids 1) oldest j
  younger' j e =
      younger-adopt current oldest ts' apart j
      ∙ (rw (child_kept 1, moved.present_now j, e, (brothers_kept (p ∷ js) ts ts' moved j).0)
          (ground arith))

  older' :
      (j : ℕ)
      → present ts j ≡ true
      → older_of after j ≡ older'' (younger_of ts) (older_of ts) (kids 1) oldest j
  older' j e =
      older-adopt current oldest ts' apart j
      ∙ (rw (child_kept 1, moved.present_now j, e, (brothers_kept (p ∷ js) ts ts' moved j).1)
          (ground arith))

  parent' :
      (j : ℕ)
      → present ts j ≡ true
      → (links after j).parent ≡ (if elem j (kids current) then some 1 else (links ts j).parent)
  parent' j e =
      parent-adopt current oldest ts' apart j
      ∙ (ap (λ l. l.parent) (moved.links_now j) ∙ (rw (among j, e) (ground arith)))

  at_current : given current kids current ≡ []
  at_current = let hit : (current == current) ≡ true = ground arith in rw hit refl

  at_init : given current kids 1 ≡ kids current ++ kids 1
  at_init = let miss : (1 == current) ≡ false = ground arith in rw miss refl

  elsewhere : (x : ℕ) → x ≢ current → x ≢ 1 → given current kids x ≡ kids x
  elsewhere x a b =
      let miss : (x == current) ≡ false = ground arith in
      let miss' : (x == 1) ≡ false = ground arith in rw (miss, miss') refl

  differs : (i k : ℕ) → i ≢ k → (i == k) ≡ false
  differs i k ne = ground arith

  equals : (i k : ℕ) → i ≡ k → (i == k) ≡ true
  equals i k e = ground arith

  child_present : (k : ℕ) → (elem k (p ∷ js) || elem k (kids 1)) ≡ true → present ts k ≡ true
  child_present k e = elim (Bool-cases (elem k (kids 1))) [
    | inl f ↦ (v.member 1 k f).0
    | inr f ↦
        (v.member current k (sym (among k) ∙ member_left (elem k (p ∷ js)) (elem k (kids 1)) e f)).0
  ]
    where
      member_left : (a b : Bool) → (a || b) ≡ true → b ≡ false → a ≡ true
      member_left true b e f = refl
      member_left false b e f = sym f ∙ e

  -- The children of two tasks are different.
  strangers : (x z j : ℕ) → x ≢ z → elem j (kids x) ≡ true → elem j (kids z) ≡ false
  strangers x z j ne m = elim (Bool-cases (elem j (kids z))) [
    | inr e ↦ e
    | inl e ↦ absurd (ne (one_parent kids ts v x z j m e))
  ]

  brothers_init : Linked (younger_of after) (older_of after) none (kids current ++ kids 1)
  brothers_init =
      subst (λ z. Linked (younger_of after) (older_of after) none (z ++ kids 1)) (sym all)
        (Linked-keeps (younger'' (younger_of ts) (older_of ts) (kids 1) oldest)
          (older'' (younger_of ts) (older_of ts) (kids 1) oldest) (younger_of after)
          (older_of after) none ((p ∷ js) ++ kids 1)
          (λ k m.
            let e = child_present k (sym (elem-append k (p ∷ js) (kids 1)) ∙ m) in
            (younger' k e, older' k e))
          (Linked-append (younger_of ts) (older_of ts) (kids 1) oldest none p js refl
            (subst (λ z. Linked (younger_of ts) (older_of ts) none z) all (v.linked current))
            (subst Once all (v.once current)) (v.linked 1) (v.once 1)
            (λ k m. strangers current 1 k apart (sym (among k) ∙ m))))

  brothers' :
      (x j : ℕ)
      → x ≢ current
      → x ≢ 1
      → elem j (kids x) ≡ true
      → (younger_of after j ≡ younger_of ts j) × (older_of after j ≡ older_of ts j)
  brothers' x j ne g m =
      let e = (v.member x j m).0 in
      let off : elem j (kids 1) ≡ false = strangers x 1 j g m in
      let a : is (first (kids 1)) j ≡ false = elim (Bool-cases (is (first (kids 1)) j)) [
        | inr f ↦ f
        | inl f ↦ let h = first-elem (kids 1) j f in absurd (cc)
      ] in
      let b : (oldest == j) ≡ false = differs oldest j (λ f.
        let h = ap (λ i. elem i (kids current)) f in
        let h' = strangers x current j ne m in absurd (let o = oldest_among in cc)) in
      (younger' j e ∙ (rw a refl), older' j e ∙ (rw b refl))

  linked' : (x : ℕ) → Linked (younger_of after) (older_of after) none (given current kids x)
  linked' x = elim (ℕ_discrete x current) [
    | yes e ↦ rw (e, at_current) tt
    | no ne ↦ elim (ℕ_discrete x 1) [
      | yes f ↦ rw (f, at_init) brothers_init
      | no g ↦ rw (elsewhere x ne g) (
          Linked-keeps (younger_of ts) (older_of ts) (younger_of after) (older_of after) none
            (kids x) (λ j m. brothers' x j ne g m) (v.linked x))
    ]
  ]

  youngest' : (x : ℕ) → (links after x).child ≡ first (given current kids x)
  youngest' x = child-adopt current oldest ts' apart x ∙ (elim (ℕ_discrete x current) [
    | yes e ↦
        let there : present ts' x ≡ true = moved.present_now x ∙ (ap (present ts) e ∙ here) in
        rw (equals current x (sym e), there)
          (sym (ap first (ap (given current kids) e ∙ at_current)))
    | no ne ↦ elim (ℕ_discrete x 1) [
      | yes f ↦
          let there : present ts' x ≡ true = moved.present_now x ∙ (ap (present ts) f ∙ init) in
          rw (differs current x (λ z. ne (sym z)), equals 1 x (sym f), there)
            (child_kept current
              ∙ (ap first all
                  ∙ sym (
                      ap first
                        (ap (given current kids) f ∙ (at_init ∙ ap (λ z. z ++ kids 1) all)))))
      | no g ↦
          rw (differs current x (λ z. ne (sym z)), differs 1 x (λ z. g (sym z)))
            (child_kept x ∙ sym (ap first (elsewhere x ne g)))
    ]
  ])

  once' : (x : ℕ) → Once (given current kids x)
  once' x = elim (ℕ_discrete x current) [
    | yes e ↦ rw (e, at_current) tt
    | no ne ↦ elim (ℕ_discrete x 1) [
      | yes f ↦
          rw (f, at_init)
            (Once-append (kids current) (kids 1) (v.once current) (v.once 1)
              (λ k m. strangers current 1 k apart m))
      | no g ↦ rw (elsewhere x ne g) (v.once x)
    ]
  ]

  of_init :
      (j : ℕ)
      → (elem j (kids current) || elem j (kids 1)) ≡ true
      → (present after j ≡ true) × ((links after j).parent ≡ some 1) × (j ≢ 0)
  of_init j m = elim (Bool-cases (elem j (kids current))) [
    | inl e ↦ let (a, b, c) = v.member current j e in (present' j ∙ a, parent' j a ∙ (rw e refl), c)
    | inr e ↦
        let (a, b, c) = v.member 1 j (rw e at m) in (present' j ∙ a, parent' j a ∙ (rw e b), c)
  ]

  member' :
      (x j : ℕ)
      → elem j (given current kids x) ≡ true
      → (present after j ≡ true) × ((links after j).parent ≡ some x) × (j ≢ 0)
  member' x j m = elim (ℕ_discrete x current) [
    | yes e ↦ let h = ap (elem j) (ap (given current kids) e ∙ at_current) in absurd (cc)
    | no ne ↦ elim (ℕ_discrete x 1) [
      | yes f ↦
          let m' =
            sym (
              ap (elem j) (ap (given current kids) f ∙ at_init)
              ∙ elem-append j (kids current) (kids 1))
            ∙ m in
          rw f (of_init j m')
      | no g ↦
          let m' = sym (ap (elem j) (elsewhere x ne g)) ∙ m in
          let (a, b, c) = v.member x j m' in
          (present' j ∙ a, parent' j a ∙ (rw (strangers x current j ne m') b), c)
    ]
  ]

  has_parent' :
      (j : ℕ)
      → present after j ≡ true
      → j ≢ 0
      → (x : ℕ) × ((links after j).parent ≡ some x) × (elem j (given current kids x) ≡ true)
  has_parent' j e nz =
      let here' : present ts j ≡ true = sym (present' j) ∙ e in
      let (x, r, m) = v.has_parent j here' nz in
      let to_init : (elem j (kids current) || elem j (kids 1)) ≡ true
          → (elem j (given current kids 1) ≡ true) =
        λ q. ap (elem j) at_init ∙ (elem-append j (kids current) (kids 1) ∙ q) in
      elim (ℕ_discrete x current) [
        | yes f ↦
            let m' : elem j (kids current) ≡ true = ap (λ z. elem j (kids z)) (sym f) ∙ m in
            (1, parent' j here' ∙ (rw m' refl), to_init (rw m' refl))
        | no ne ↦ elim (ℕ_discrete x 1) [
          | yes g ↦
              let m' : elem j (kids 1) ≡ true = ap (λ z. elem j (kids z)) (sym g) ∙ m in
              let off = strangers 1 current j (λ z. apart (sym z)) m' in
              (1, parent' j here' ∙ (rw off (r ∙ ap some g)), to_init (rw (off, m') refl))
          | no g ↦ (
            x,
            parent' j here' ∙ (rw (strangers x current j ne m) r),
            ap (elem j) (elsewhere x ne g) ∙ m,
          )
        ]
      ]

  pub adopt-IsTree : IsTree (given current kids) after
  adopt-IsTree = record {
    youngest = youngest';
    linked = linked';
    once = once';
    member = member';
    has_parent = has_parent';
  }
