-- ===== src/Kernel/Tree/Forked.antt =====
-- kernel/fork.c: the links of each task after a fork.
use lambda_linux_kernel.Prelude.{
  ℕ, ◌<◌, ◌≡◌, refl, true, false, ◌&&◌, ◌||◌, Option, none, some, ◌==◌, if◌then◌else◌, is_some, set,
  length, get_or-set_self, get_or-set_ne, arith, subst, ap, ◌∙◌, inl, inr, Bool-cases,
}
use native.Mathlib.Decide.{ℕ_discrete}
use lambda_linux_kernel.Kernel.Tree.{
  Links, Tasks, links_of, task, links, at_task, update, relink, relink_if, link_child, copy_process,
  forked,
}
use lambda_linux_kernel.Kernel.Tree.Chains.{
  is, present, younger_of, older_of, links-relink, links-update, links-at_task_kept,
  present-at_task, present-update, links-relink_if, present-relink_if,
}
use lambda_linux_kernel.Kernel.Sched.{running}

module _ (nr current pid : ℕ) (ts : Tasks) (lt : nr < length ts) (free : present ts nr ≡ false)
    (here : present ts current ≡ true) where
  abbrev ts0 : Tasks
  ts0 = set ts nr (at_task (forked pid) (task ts current))

  task-ts0 :
      (j : ℕ) → task ts0 j ≡ (if nr == j then at_task (forked pid) (task ts current) else task ts j)
  task-ts0 j = elim (ℕ_discrete nr j) [
    | yes e ↦
        let hit : (nr == j) ≡ true = ground arith in
        rw hit (rw (← e) (get_or-set_self ts nr (at_task (forked pid) (task ts current)) none lt))
    | no ne ↦
        let miss : (nr == j) ≡ false = ground arith in
        rw miss (get_or-set_ne ts (at_task (forked pid) (task ts current)) none ne)
  ]

  abbrev pub ts' : Tasks
  ts' = copy_process nr current pid ts

  other : (nr == current) ≡ false
  other = elim (ℕ_discrete nr current) [
    | yes e ↦ let f = ap (present ts) e in absurd (cc)
    | no ne ↦ ground arith
  ]

  links-ts0 : (j : ℕ) → links ts0 j ≡ (if nr == j then links ts current else links ts j)
  links-ts0 j = ap links_of (task-ts0 j) ∙ (elim (Bool-cases (nr == j)) [
    | inl e ↦ rw e (links-at_task_kept (forked pid) (λ t. refl) (task ts current))
    | inr e ↦ rw e refl
  ])

  present-ts0 : (j : ℕ) → present ts0 j ≡ ((nr == j) || present ts j)
  present-ts0 j = ap is_some (task-ts0 j) ∙ (elim (Bool-cases (nr == j)) [
    | inl e ↦ rw e (present-at_task (forked pid) (task ts current) ∙ here)
    | inr e ↦ rw e refl
  ])

  abbrev pub oldest : Option ℕ
  oldest = (links ts current).child

  abbrev new_links : Links
  new_links = record { parent = some current; child = none; younger = none; older = oldest }

  abbrev linked_links : ℕ → Links
  linked_links j =
      let l1 = if nr == j then new_links else links ts j in
      let l2 =
        if is oldest j && ((nr == j) || present ts j)
        then record l1 { younger = some nr }
        else l1 in
      if current == j then record l2 { child = some nr } else l2

  abbrev step1 : Tasks
  step1 = relink nr (λ l. new_links) ts0

  abbrev step2 : Tasks
  step2 = relink_if oldest (λ l. record l { younger = some nr }) step1

  abbrev step3 : Tasks
  step3 = relink current (λ l. record l { child = some nr }) step2

  from_steps :
      ts' ≡ update nr (λ t. record t { process = record t.process { state = running } }) step3
  unfolding copy_process link_child
  from_steps =
      let same_links : links ts0 current ≡ links ts current = links-ts0 current ∙ (rw other refl) in
      let same : (links ts0 current).child ≡ oldest = ap (λ l. l.child) same_links in rw same refl

  present-step2 : (j : ℕ) → present step2 j ≡ ((nr == j) || present ts j)
  present-step2 j = present-relink_if step1 oldest j _ ∙ (present-update ts0 nr j _ ∙ present-ts0 j)

  links-ts' : (j : ℕ) → links ts' j ≡ linked_links j
  links-ts' j =
      let at_current : (current == j) ≡ true → present ts j ≡ true =
        λ e. let f : current ≡ j = ground arith in subst (λ x. present ts x ≡ true) f here in
      rw
        (
          from_steps,
          links-update step3 nr j (λ t. record t { process = record t.process { state = running } })
              (λ t. refl),
          links-relink step2 current j (λ l. record l { child = some nr }),
          present-step2 j,
          links-relink_if step1 oldest j (λ l. record l { younger = some nr }),
          present-update ts0 nr j (λ t. record t { links = new_links }),
          links-relink ts0 nr j (λ l. new_links),
          present-ts0 j,
          links-ts0 j,
        )
        (elim (Bool-cases (nr == j)) [
          | inl e ↦ let apart : (current == j) ≡ false = ground (arith, other) in rw (e, apart) refl
          | inr e ↦ rw e (elim (Bool-cases (current == j)) [
            | inl f ↦ rw (f, at_current f) refl
            | inr f ↦ rw f refl
          ])
        ])

  pub present-ts' : (j : ℕ) → present ts' j ≡ ((nr == j) || present ts j)
  present-ts' j =
      ap (λ x. present x j) from_steps
      ∙ (present-update step3 nr j _ ∙ (present-update step2 current j _ ∙ present-step2 j))

  pub parent' :
      (j : ℕ) → (links ts' j).parent ≡ (if nr == j then some current else (links ts j).parent)
  parent' j = ap (λ l. l.parent) (links-ts' j) ∙ ground arith

  pub child' :
      (j : ℕ)
      → (links ts' j).child
        ≡ (if current == j then some nr else if nr == j then none else (links ts j).child)
  child' j = ap (λ l. l.child) (links-ts' j) ∙ ground arith

  pub younger' :
      (j : ℕ)
      → younger_of ts' j ≡ (
          if is oldest j && ((nr == j) || present ts j)
          then some nr
          else if nr == j
          then none
          else younger_of ts j)
  younger' j = ap (λ l. l.younger) (links-ts' j) ∙ ground arith

  pub older' : (j : ℕ) → older_of ts' j ≡ (if nr == j then oldest else older_of ts j)
  older' j = ap (λ l. l.older) (links-ts' j) ∙ ground arith
