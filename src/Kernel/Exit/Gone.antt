-- ===== src/Kernel/Exit/Gone.antt =====
-- kernel/exit.c: the tree after an exit.
use lambda_linux_kernel.Prelude.{
  ℕ, ◌≡◌, ◌≢◌, refl, ◌&&◌, Option, none, some, List, [], ◌++◌, ◌==◌, if◌then◌else◌, arith, ap, ◌∙◌,
}
use lambda_linux_kernel.Kernel.Tree.{Links, Tasks, links, relink, relink_if}
use lambda_linux_kernel.Kernel.Tree.Chains.{
  is, present, younger_of, older_of, links-relink, present-update, links-relink_if,
  present-relink_if,
}
use lambda_linux_kernel.Kernel.Exit.{adopt}

-- Init has the children of `current` in front of its own.
abbrev pub given : (current : ℕ) → (ℕ → List ℕ) → ℕ → List ℕ
given current kids x =
    if x == current then [] else if x == 1 then kids current ++ kids 1 else kids x

module _ (current p : ℕ) (ts : Tasks) (apart : current ≢ 1) where
  abbrev c1 : Option ℕ
  c1 = (links ts 1).child

  abbrev step1 : Tasks
  step1 = relink p (λ l. record l { older = c1 }) ts

  abbrev step2 : Tasks
  step2 = relink_if c1 (λ l. record l { younger = some p }) step1

  abbrev links2 : ℕ → Links
  links2 j =
      let l1 =
        if (p == j) && present ts j then record (links ts j) { older = c1 } else links ts j in
      if is c1 j && present ts j then record l1 { younger = some p } else l1

  links-step2 : (j : ℕ) → links step2 j ≡ links2 j
  links-step2 j =
      rw
        (
          links-relink_if step1 c1 j (λ l. record l { younger = some p }),
          present-update ts p j (λ t. record t { links = record t.links { older = c1 } }),
          links-relink ts p j (λ l. record l { older = c1 }),
        )
        refl

  present-step2 : (j : ℕ) → present step2 j ≡ present ts j
  present-step2 j = present-relink_if step1 c1 j _ ∙ present-update ts p j _

  child-step2 : (links step2 current).child ≡ (links ts current).child
  child-step2 = ap (λ l. l.child) (links-step2 current) ∙ ground arith

  abbrev links4 : ℕ → Links
  links4 j =
      let l3 =
        if (1 == j) && present ts j
        then record (links2 j) { child = (links ts current).child }
        else links2 j in
      if (current == j) && present ts j then record l3 { child = none } else l3

  links-adopt : (j : ℕ) → links (adopt current p ts) j ≡ links4 j
  unfolding adopt
  links-adopt j =
      let step3 = relink 1 (λ l. record l { child = (links step2 current).child }) step2 in
      rw
        (
          links-relink step3 current j (λ l. record l { child = none }),
          present-update step2 1 j
              (λ t. record t { links = record t.links { child = (links step2 current).child } }),
          links-relink step2 1 j (λ l. record l { child = (links step2 current).child }),
          child-step2,
          present-step2 j,
          links-step2 j,
        )
        refl

  pub present-adopt : (j : ℕ) → present (adopt current p ts) j ≡ present ts j
  unfolding adopt
  present-adopt j = present-update _ current j _ ∙ (present-update step2 1 j _ ∙ present-step2 j)

  pub younger-adopt :
      (j : ℕ)
      → younger_of (adopt current p ts) j
        ≡ (if is c1 j && present ts j then some p else younger_of ts j)
  younger-adopt j = ap (λ l. l.younger) (links-adopt j) ∙ ground arith

  pub older-adopt :
      (j : ℕ)
      → older_of (adopt current p ts) j ≡ (if (p == j) && present ts j then c1 else older_of ts j)
  older-adopt j = ap (λ l. l.older) (links-adopt j) ∙ ground arith

  pub parent-adopt : (j : ℕ) → (links (adopt current p ts) j).parent ≡ (links ts j).parent
  parent-adopt j = ap (λ l. l.parent) (links-adopt j) ∙ ground arith

  pub child-adopt :
      (j : ℕ)
      → (links (adopt current p ts) j).child ≡ (
          if (current == j) && present ts j
          then none
          else if (1 == j) && present ts j
          then (links ts current).child
          else (links ts j).child)
  child-adopt j = ap (λ l. l.child) (links-adopt j) ∙ ground arith
