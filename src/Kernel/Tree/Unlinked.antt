-- ===== src/Kernel/Tree/Unlinked.antt =====
-- kernel/exit.c: the links of each task after release.
use lambda_linux_kernel.Prelude.{
  ℕ, zero, suc, ◌≡◌, refl, true, false, not, ◌&&◌, Option, none, some, [], ◌∷◌, ◌==◌, if◌then◌else◌,
  is_some, set, arith, ap, ◌∙◌, inl, inr, Bool-cases, Option-cases,
}
use lambda_linux_kernel.Kernel.Tree.{
  Links, Tasks, no_links, links_of, task, links, relink, relink_if, unlink,
}
use lambda_linux_kernel.Kernel.Tree.Chains.{
  is, present, younger_of, older_of, links-relink, present-update, links-relink_if,
  present-relink_if,
}
use lambda_linux_kernel.Kernel.Tree.Without.{younger'', older''}

-- An empty slot.
task-set-none :
    (ts : Tasks) (i j : ℕ) → task (set ts i none) j ≡ (if i == j then none else task ts j)
task-set-none [] i j = ground arith
task-set-none (t ∷ ts) zero zero = refl
task-set-none (t ∷ ts) zero (suc j) = ground arith
task-set-none (t ∷ ts) (suc i) zero = ground arith
task-set-none (t ∷ ts) (suc i) (suc j) = task-set-none ts i j ∙ ground arith

module _ (p : ℕ) (ts : Tasks) where
  abbrev pub own : Links
  own = links ts p

  abbrev step1 : Tasks
  step1 = relink_if own.older (λ k. record k { younger = own.younger }) ts

  abbrev with_brother : Option ℕ → Tasks
  with_brother (some y) = relink y (λ k. record k { older = own.older }) step1
  with_brother none = relink_if own.parent (λ k. record k { child = own.older }) step1

  abbrev links1 : ℕ → Links
  links1 j =
      if is own.older j && present ts j
      then record (links ts j) { younger = own.younger }
      else links ts j

  abbrev links2 : Option ℕ → ℕ → Links
  links2 (some y) j =
      if (y == j) && present ts j then record (links1 j) { older = own.older } else links1 j
  links2 none j =
      if is own.parent j && present ts j then record (links1 j) { child = own.older } else links1 j

  links-with_brother : (y : Option ℕ) (j : ℕ) → links (with_brother y) j ≡ links2 y j
  links-with_brother (some y) j =
      rw
        (
          links-relink step1 y j (λ k. record k { older = own.older }),
          present-relink_if ts own.older j (λ k. record k { younger = own.younger }),
          links-relink_if ts own.older j (λ k. record k { younger = own.younger }),
        )
        refl
  links-with_brother none j =
      rw
        (
          links-relink_if step1 own.parent j (λ k. record k { child = own.older }),
          present-relink_if ts own.older j (λ k. record k { younger = own.younger }),
          links-relink_if ts own.older j (λ k. record k { younger = own.younger }),
        )
        refl

  present-with_brother : (y : Option ℕ) (j : ℕ) → present (with_brother y) j ≡ present ts j
  present-with_brother (some y) j = present-update step1 y j _ ∙ present-relink_if ts own.older j _
  present-with_brother none j =
      present-relink_if step1 own.parent j _ ∙ present-relink_if ts own.older j _

  abbrev pub ts' : Tasks
  ts' = unlink p ts

  from_steps : ts' ≡ set (with_brother own.younger) p none
  unfolding unlink
  from_steps = elim (Option-cases own.younger) [ inl e ↦ rw e refl | inr (y, e) ↦ rw e refl ]

  links-ts' : (j : ℕ) → links ts' j ≡ (if p == j then no_links else links2 own.younger j)
  links-ts' j =
      ap (λ x. links x j) from_steps
      ∙ (ap links_of (task-set-none (with_brother own.younger) p j) ∙ (elim (Bool-cases (p == j)) [
        | inl e ↦ rw e refl
        | inr e ↦ rw e (links-with_brother own.younger j)
      ]))

  pub present-ts' : (j : ℕ) → present ts' j ≡ (not (p == j) && present ts j)
  present-ts' j =
      ap (λ x. present x j) from_steps
      ∙ (ap is_some (task-set-none (with_brother own.younger) p j) ∙ (elim (Bool-cases (p == j)) [
        | inl e ↦ rw e refl
        | inr e ↦ rw e (present-with_brother own.younger j)
      ]))

  pub younger' :
      (j : ℕ)
      → (p == j) ≡ false
      → present ts j ≡ true
      → younger_of ts' j ≡ younger'' (younger_of ts) (older_of ts) p j
  younger' j ne here = ap (λ k. k.younger) (links-ts' j) ∙ (elim (Option-cases own.younger) [
    | inl e ↦ rw (ne, e) (ground arith)
    | inr (y, e) ↦ rw (ne, e) (ground arith)
  ])

  pub older' :
      (j : ℕ)
      → (p == j) ≡ false
      → present ts j ≡ true
      → older_of ts' j ≡ older'' (younger_of ts) (older_of ts) p j
  older' j ne here = ap (λ k. k.older) (links-ts' j) ∙ (elim (Option-cases own.younger) [
    | inl e ↦ rw (ne, e) (ground arith)
    | inr (y, e) ↦ rw (ne, e) (ground arith)
  ])

  pub parent' : (j : ℕ) → (p == j) ≡ false → (links ts' j).parent ≡ (links ts j).parent
  parent' j ne = ap (λ k. k.parent) (links-ts' j) ∙ (elim (Option-cases own.younger) [
    | inl e ↦ rw (ne, e) (ground arith)
    | inr (y, e) ↦ rw (ne, e) (ground arith)
  ])

  pub child' :
      (j : ℕ)
      → (links ts' j).child ≡ (
          if p == j
          then none
          else if not (is_some own.younger) && (is own.parent j && present ts j)
          then own.older
          else (links ts j).child)
  child' j = ap (λ k. k.child) (links-ts' j) ∙ (elim (Option-cases own.younger) [
    | inl e ↦ rw e (ground arith)
    | inr (y, e) ↦ rw e (ground arith)
  ])
