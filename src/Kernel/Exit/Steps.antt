-- ===== src/Kernel/Exit/Steps.antt =====
-- kernel/fork.c and kernel/exit.c: fork, exit and release on the children of each task.
use lambda_linux_kernel.Prelude.{
  ℕ, zero, suc, ◌≤◌, ◌<◌, ◌≡◌, ◌≢◌, refl, true, false, Option, none, some, List, [], ◌∷◌, ◌++◌,
  ◌==◌, set, length, length-set, arith, subst, ap, fun_ext, ◌∙◌, sym, inl, inr, Bool-cases, elem,
  without, elem-without,
}
use native.Mathlib.Decide.{ℕ_discrete}
use lambda_linux_kernel.Kernel.Sched.{zombie}
use lambda_linux_kernel.Kernel.Tree.{
  Task, Tasks, Released, released, itself, panics, task, links, update, copy_process, release,
  unlink,
}
use lambda_linux_kernel.Kernel.Tree.Chains.{
  first, present, Linked, younger_of, older_of, IsTree, Linked-keeps, one_parent, first-none,
}
use lambda_linux_kernel.Kernel.Tree.Grow.{with_kids, copy_process-IsTree}
use lambda_linux_kernel.Kernel.Tree.Without.{without_absent}
use lambda_linux_kernel.Kernel.Tree.Prune.{unlink-IsTree, release-unlink}
use lambda_linux_kernel.Kernel.Tree.Pids.{pigeons}
use lambda_linux_kernel.Kernel.Exit.{adopt, die, or_null, follow, hang_up, inherit, do_exit}
use lambda_linux_kernel.Kernel.Exit.Quiet.{
  SameLinks, SameLinks-trans, update-SameLinks, tell-SameLinks, hang_up-SameLinks,
}
use lambda_linux_kernel.Kernel.Exit.Inherit.{inherit_runs, last}
use lambda_linux_kernel.Kernel.Exit.Gone.{given}
use lambda_linux_kernel.Kernel.Exit.Family.{adopt-IsTree}

SameLinks-IsTree :
    (kids : ℕ → List ℕ) (ts ts' : Tasks) → SameLinks ts ts' → IsTree kids ts → IsTree kids ts'
SameLinks-IsTree kids ts ts' s v = record {
  youngest = λ x. ap (λ l. l.child) (s.same_links x) ∙ v.youngest x;
  linked = λ x.
      Linked-keeps (younger_of ts) (older_of ts) (younger_of ts') (older_of ts') none (kids x)
        (λ j m. (ap (λ l. l.younger) (s.same_links j), ap (λ l. l.older) (s.same_links j)))
        (v.linked x);
  once = v.once;
  member = λ x j m.
      let (a, b, c) = v.member x j m in
      (s.same_present j ∙ a, ap (λ l. l.parent) (s.same_links j) ∙ b, c);
  has_parent = λ j e nz.
      let (x, r, m) = v.has_parent j (sym (s.same_present j) ∙ e) nz in
      (x, ap (λ l. l.parent) (s.same_links j) ∙ r, m);
}

same_kids :
    (kids kids' : ℕ → List ℕ) (ts : Tasks)
    → ((x : ℕ) → kids x ≡ kids' x)
    → IsTree kids ts
    → IsTree kids' ts
same_kids kids kids' ts e v = subst (λ k. IsTree k ts) (fun_ext e) v

abbrev below : ℕ → List ℕ
below zero = []
below (suc n) = n ∷ below n

elem-below : (n i : ℕ) → i < n → elem i (below n) ≡ true
elem-below zero i lt = absurd (omega arith)
elem-below (suc n) i lt = elim (ℕ_discrete n i) [
  | yes e ↦ ground arith
  | no ne ↦ let r = elem-below n i (omega arith) in ground arith
]

length-below : (n : ℕ) → length (below n) ≡ n
length-below zero = refl
length-below (suc n) = ap suc (length-below n)

length-present : (ts : Tasks) (i : ℕ) → present ts i ≡ true → i < length ts
length-present [] i e = absurd (cc)
length-present (t ∷ ts) zero e = omega arith
length-present (t ∷ ts) (suc i) e = omega (arith, length-present ts i e)

-- There are no more children than task slots.
kids_bound : (kids : ℕ → List ℕ) (ts : Tasks) (x : ℕ) → IsTree kids ts → length (kids x) ≤ length ts
kids_bound kids ts x v =
    let r =
      pigeons (kids x) (below (length ts)) (v.once x)
        (λ i m. elem-below (length ts) i (length-present ts i (v.member x i m).0)) in
    omega (arith, r, length-below (length ts))

length-update : (ts : Tasks) (i : ℕ) (t : Option Task) → length (set ts i t) ≡ length ts
length-update ts i t = length-set ts i t

-- A tree in which init is a child of task 0.
abbrev pub IsFamily : (ℕ → List ℕ) → Tasks → Type 0
IsFamily kids ts = IsTree kids ts × (elem 1 (kids 0) ≡ true)

die-SameLinks :
    (nothing : Task) (current code : ℕ) (ts : Tasks) → SameLinks ts (die nothing current code ts)
unfolding die
die-SameLinks nothing current code ts =
    let zombify : Task → Task =
      λ t. record t { process = record t.process { state = zombie; exit_code = code } } in
    let ts1 = update current zombify ts in
    let t = or_null nothing (task ts1 current) in
    let ts2 = hang_up nothing t t (follow nothing ts1 t.links.parent) ts1 in
    SameLinks-trans (update-SameLinks ts current zombify (λ t'. refl)) (
      SameLinks-trans (hang_up-SameLinks nothing t t (follow nothing ts1 t.links.parent) ts1)
        (tell-SameLinks (links ts2 current).parent ts2))

abbrev do_exit_from : Task → (current : ℕ) → (slots : ℕ) → Tasks → Option Tasks
do_exit_from nothing current slots ts3 = elim (links ts3 current).child [
  | none ↦ some ts3
  | some p ↦ inherit nothing slots current p ts3
]

no_given :
    (current : ℕ) (kids : ℕ → List ℕ) → kids current ≡ [] → (x : ℕ) → kids x ≡ given current kids x
no_given current kids e x = elim (ℕ_discrete x current) [
  | yes f ↦ let hit : (x == current) ≡ true = ground arith in rw hit (ap kids f ∙ e)
  | no ne ↦
      let miss : (x == current) ≡ false = ground arith in
      rw miss (elim (ℕ_discrete x 1) [
        | yes g ↦
            let hit : (x == 1) ≡ true = ground arith in
            rw hit (ap kids g ∙ ap (λ z. z ++ kids 1) (sym e))
        | no g ↦ let miss' : (x == 1) ≡ false = ground arith in rw miss' refl
      ])
]

inherits :
    (nothing : Task) (current slots : ℕ) (kids : ℕ → List ℕ) (ts : Tasks)
    → IsFamily kids ts
    → present ts current ≡ true
    → current ≢ 0
    → current ≢ 1
    → length (kids current) ≤ slots
    → (js : List ℕ) → kids current ≡ js
    → (ts' : Tasks) × (do_exit_from nothing current slots ts ≡ some ts')
      × IsTree (given current kids) ts'
inherits nothing current slots kids ts (v, init) here nz apart le [] e =
    let nobody : (links ts current).child ≡ none = v.youngest current ∙ ap first e in
    (
      ts,
      rw (do_exit_from, nobody) refl,
      same_kids kids (given current kids) ts (no_given current kids e) v,
    )
inherits nothing current slots kids ts (v, init) here nz apart le (p ∷ js) e =
    let somebody : (links ts current).child ≡ some p = v.youngest current ∙ ap first e in
    let not_init : elem 1 (kids current) ≡ false = elim (Bool-cases (elem 1 (kids current))) [
      | inr f ↦ f
      | inl f ↦ absurd (nz (one_parent kids ts v current 0 1 f init))
    ] in
    let (ts', runs, moved) =
      inherit_runs nothing slots current p js none ts (let f = ap length e in omega arith)
        (subst (λ z. Linked (younger_of ts) (older_of ts) none z) e (v.linked current)) in
    (
      adopt current (last p js) ts',
      rw (do_exit_from, somebody) runs,
      adopt-IsTree current p js kids ts ts' v apart here (v.member 0 1 init).0 not_init e moved,
    )

do_exit-IsTree :
    (nothing : Task) (current code : ℕ) (kids : ℕ → List ℕ) (ts : Tasks)
    → IsFamily kids ts
    → present ts current ≡ true
    → current ≢ 0
    → current ≢ 1
    → (ts' : Tasks) × (do_exit nothing current code ts ≡ some ts') × IsTree (given current kids) ts'
unfolding do_exit
do_exit-IsTree nothing current code kids ts (v, init) here nz apart =
    let quiet = die-SameLinks nothing current code ts in
    inherits nothing current (length ts) kids (die nothing current code ts)
      (SameLinks-IsTree kids ts (die nothing current code ts) quiet v, init)
      (quiet.same_present current ∙ here) nz apart (kids_bound kids ts current v) (kids current)
      refl

pub data Call : Type 0 where
  -- `nr` and `pid` are what find_empty_process gives.
  forks : (current nr pid : ℕ) → Call
  exits : (current code : ℕ) → Call
  releases : (current p : ℕ) → Call

abbrev pub released_to : Released → Option Tasks
released_to (released ts) = some ts
released_to itself = none
released_to panics = none

-- The tasks after a call, none where it does not return them.
abbrev pub step : Task → Call → Tasks → Option Tasks
step nothing (forks current nr pid) ts = some (copy_process nr current pid ts)
step nothing (exits current code) ts = do_exit nothing current code ts
step nothing (releases current p) ts = released_to (release current p ts)

-- When a call is made: by a task that is there, for an empty slot, by neither task 0 nor init, for
-- another task than these that has no children.
abbrev pub Allowed : Call → Tasks → Type 0
Allowed (forks current nr pid) ts =
    (present ts current ≡ true) × (present ts nr ≡ false) × (nr < length ts) × (nr ≢ 0)
Allowed (exits current code) ts = (present ts current ≡ true) × (current ≢ 0) × (current ≢ 1)
Allowed (releases current p) ts =
    (present ts p ≡ true) × ((links ts p).child ≡ none) × (p ≢ 0) × (p ≢ 1) × (p ≢ current)

-- What a call does to the children of each task.
abbrev pub children : Call → (ℕ → List ℕ) → ℕ → List ℕ
children (forks current nr pid) kids = with_kids current (nr ∷ kids current) kids
children (exits current code) kids = given current kids
children (releases current p) kids = λ x. without p (kids x)

init_stays :
    (current nr : ℕ) (kids : ℕ → List ℕ)
    → elem 1 (kids 0) ≡ true
    → elem 1 (with_kids current (nr ∷ kids current) kids 0) ≡ true
init_stays current nr kids e = elim (ℕ_discrete 0 current) [
  | yes f ↦
      let hit : (0 == current) ≡ true = ground arith in
      let m : elem 1 (kids current) ≡ true = ap (λ z. elem 1 (kids z)) (sym f) ∙ e in
      rw hit (ground arith)
  | no ne ↦ let miss : (0 == current) ≡ false = ground arith in rw miss e
]

release-IsTree :
    (current p : ℕ) (kids : ℕ → List ℕ) (ts : Tasks)
    → IsTree kids ts
    → Allowed (releases current p) ts
    → (released_to (release current p ts) ≡ some (unlink p ts))
      × IsTree (λ x. without p (kids x)) (unlink p ts)
release-IsTree current p kids ts v (here, alone, nz, ni, ne) =
    let (x, r, m) = v.has_parent p here nz in
    let none_of : kids p ≡ [] = first-none (kids p) (sym (v.youngest p) ∙ alone) in
    (
      ap released_to (release-unlink current p ts here nz ne),
      same_kids (with_kids x (without p (kids x)) kids) (λ z. without p (kids z)) (unlink p ts)
          (λ z. elim (ℕ_discrete z x) [
            | yes e ↦
                let hit : (z == x) ≡ true = ground arith in
                rw hit (ap (λ k. without p (kids k)) (sym e))
            | no f ↦
                let off : (z == x) ≡ false = ground arith in
                let stranger : elem p (kids z) ≡ false = elim (Bool-cases (elem p (kids z))) [
                  | inr g ↦ g
                  | inl g ↦ absurd (f (one_parent kids ts v z x p g m))
                ] in
                rw off (sym (without_absent p (kids z) stranger))
          ])
          (unlink-IsTree p ts kids v x m none_of),
    )

-- In a table of tasks whose links are a tree with init a child of task 0, fork by a task into an
-- empty slot other than 0, the exit of a task other than 0 and init, and the release of another
-- task without children, neither 0 nor init, all end with a table, and its links are again such a
-- tree: fork puts the new task before the children of its parent, exit moves the children of the
-- task, in their order, before those of init, and release takes the task out from among its
-- brothers.
pub step-IsFamily :
    (nothing : Task) (k : Call) (kids : ℕ → List ℕ) (ts : Tasks)
    → IsFamily kids ts
    → Allowed k ts
    → (ts' : Tasks) × (step nothing k ts ≡ some ts') × IsFamily (children k kids) ts'
step-IsFamily nothing (forks current nr pid) kids ts (v, init) (here, free, lt, nz) = (
  copy_process nr current pid ts,
  refl,
  (copy_process-IsTree nr current pid ts lt free here kids v nz, init_stays current nr kids init),
)
step-IsFamily nothing (exits current code) kids ts (v, init) (here, nz, apart) =
    let (ts', runs, v') = do_exit-IsTree nothing current code kids ts (v, init) here nz apart in
    let other : (0 == current) ≡ false = ground arith in (ts', runs, (v', rw other init))
step-IsFamily nothing (releases current p) kids ts (v, init) a =
    let (here, alone, nz, ni, ne) = a in
    let (runs, v') = release-IsTree current p kids ts v a in
    (unlink p ts, runs, (v', elem-without p 1 (kids 0) ∙ ground arith))
