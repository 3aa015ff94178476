-- ===== src/Kernel/Exit/Tests.antt =====
-- kernel/exit.c: task 2 exits, and task 3, its child, goes to init.
use lambda_linux_kernel.Prelude.{
  ℕ, zero, suc, ◌≡◌, ◌≢◌, refl, true, Option, none, some, List, [], ◌∷◌, replicate, arith, elem,
}
use lambda_linux_kernel.Kernel.Sched.{stopped}
use lambda_linux_kernel.Kernel.Tree.{Task, Tasks, links, task}
use lambda_linux_kernel.Kernel.Tree.Chains.{present, Linked, Once, first, younger_of, older_of}
use lambda_linux_kernel.Kernel.Exit.Steps.{exits, step, children, IsFamily, step-IsFamily}

abbrev child_of : Option ℕ → Option ℕ → ℕ → Task
child_of parent child pid = record {
  pid = pid;
  session = 1;
  process = record {
    pgrp = pid;
    euid = 0;
    state = stopped;
    exit_code = 0;
    signal = 0;
    handlers = replicate 32 0;
  };
  links = record { parent = parent; child = child; younger = none; older = none };
}

abbrev tasks : Tasks
tasks =
    some (child_of (some 0) (some 1) 0)
    ∷ some (child_of (some 0) (some 2) 1)
    ∷ some (child_of (some 1) (some 3) 2)
    ∷ some (child_of (some 2) none 3)
    ∷ []

abbrev kids : ℕ → List ℕ
kids zero = 1 ∷ []
kids (suc zero) = 2 ∷ []
kids (suc (suc zero)) = 3 ∷ []
kids (suc (suc (suc x))) = []

no_task : (x : ℕ) → task tasks (suc (suc (suc (suc x)))) ≡ none
no_task x = refl

youngest : (x : ℕ) → (links tasks x).child ≡ first (kids x)
youngest zero = refl
youngest (suc zero) = refl
youngest (suc (suc zero)) = refl
youngest (suc (suc (suc zero))) = refl
youngest (suc (suc (suc (suc x)))) = refl

linked : (x : ℕ) → Linked (younger_of tasks) (older_of tasks) none (kids x)
linked zero = (refl, refl, tt)
linked (suc zero) = (refl, refl, tt)
linked (suc (suc zero)) = (refl, refl, tt)
linked (suc (suc (suc x))) = tt

once : (x : ℕ) → Once (kids x)
once zero = (refl, tt)
once (suc zero) = (refl, tt)
once (suc (suc zero)) = (refl, tt)
once (suc (suc (suc x))) = tt

member :
    (x j : ℕ)
    → elem j (kids x) ≡ true
    → (present tasks j ≡ true) × ((links tasks j).parent ≡ some x) × (j ≢ 0)
member zero j e = let f : 1 ≡ j = ground arith in rw (← f) (refl, refl, ground arith)
member (suc zero) j e = let f : 2 ≡ j = ground arith in rw (← f) (refl, refl, ground arith)
member (suc (suc zero)) j e = let f : 3 ≡ j = ground arith in rw (← f) (refl, refl, ground arith)
member (suc (suc (suc x))) j e = absurd (cc)

has_parent :
    (j : ℕ)
    → present tasks j ≡ true
    → j ≢ 0
    → (x : ℕ) × ((links tasks j).parent ≡ some x) × (elem j (kids x) ≡ true)
has_parent zero e nz = absurd (nz refl)
has_parent (suc zero) e nz = (0, refl, refl)
has_parent (suc (suc zero)) e nz = (1, refl, refl)
has_parent (suc (suc (suc zero))) e nz = (2, refl, refl)
has_parent (suc (suc (suc (suc j)))) e nz = absurd (cc)

tasks-IsFamily : IsFamily kids tasks
tasks-IsFamily = (
  record {
    youngest = youngest;
    linked = linked;
    once = once;
    member = member;
    has_parent = has_parent;
  },
  refl,
)

step-IsFamily_example :
    (ts' : Tasks) × (step (child_of none none 0) (exits 2 256) tasks ≡ some ts')
    × IsFamily (children (exits 2 256) kids) ts'
step-IsFamily_example =
    step-IsFamily (child_of none none 0) (exits 2 256) kids tasks tasks-IsFamily
      (refl, ground arith, ground arith)
