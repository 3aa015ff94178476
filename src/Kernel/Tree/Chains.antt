-- ===== src/Kernel/Tree/Chains.antt =====
-- kernel/fork.c and kernel/exit.c: the links of the tasks as lists of children, the youngest first.
use lambda_linux_kernel.Prelude.{
  ℕ, zero, suc, ◌≡◌, ◌≢◌, refl, Bool, true, false, ◌&&◌, Option, none, some, List, [], ◌∷◌, ◌==◌,
  if◌then◌else◌, is_some, arith, ap, ◌∙◌, sym, inl, inr, Bool-cases, Option-cases, elem,
}
use lambda_linux_kernel.Kernel.Tree.{
  Links, Task, Tasks, links_of, task, links, at_task, update, relink, relink_if,
}

abbrev pub first : List ℕ → Option ℕ
first [] = none
first (j ∷ js) = some j

abbrev pub is : Option ℕ → ℕ → Bool
is none j = false
is (some i) j = i == j

abbrev pub present : Tasks → ℕ → Bool
present ts i = is_some (task ts i)

-- Brothers from the youngest on, by their links; the first has the younger brother `y`.
abbrev pub Linked : (y' o' : ℕ → Option ℕ) → Option ℕ → List ℕ → Type 0
Linked y' o' y [] = Unit
Linked y' o' y (j ∷ js) = (y' j ≡ y) × (o' j ≡ first js) × Linked y' o' (some j) js

abbrev pub Once : List ℕ → Type 0
Once [] = Unit
Once (j ∷ js) = (elem j js ≡ false) × Once js

abbrev pub younger_of : Tasks → ℕ → Option ℕ
younger_of ts j = (links ts j).younger

abbrev pub older_of : Tasks → ℕ → Option ℕ
older_of ts j = (links ts j).older

-- The tasks are a tree in which `kids x` are the children of `x`, the youngest first.
pub record IsTree (kids : ℕ → List ℕ) (ts : Tasks) : Type 0 where
  pub youngest : (x : ℕ) → (links ts x).child ≡ first (kids x)
  pub linked : (x : ℕ) → Linked (younger_of ts) (older_of ts) none (kids x)
  pub once : (x : ℕ) → Once (kids x)
  pub member :
      (x j : ℕ)
      → elem j (kids x) ≡ true
      → (present ts j ≡ true) × ((links ts j).parent ≡ some x) × (j ≢ 0)
  pub has_parent :
      (j : ℕ)
      → present ts j ≡ true
      → j ≢ 0
      → (x : ℕ) × ((links ts j).parent ≡ some x) × (elem j (kids x) ≡ true)

pub Linked-keeps :
    (y' o' y'' o'' : ℕ → Option ℕ) (y : Option ℕ) (js : List ℕ)
    → ((j : ℕ) → elem j js ≡ true → (y'' j ≡ y' j) × (o'' j ≡ o' j))
    → Linked y' o' y js
    → Linked y'' o'' y js
Linked-keeps y' o' y'' o'' y [] same l = tt
Linked-keeps y' o' y'' o'' y (j ∷ js) same (a, b, l) =
    let s = same j (ground arith) in
    (s.0 ∙ a, s.1 ∙ b, Linked-keeps y' o' y'' o'' (some j) js (λ k m. same k (ground arith)) l)

pub task-update :
    (ts : Tasks) (i j : ℕ) (f : Task → Task)
    → task (update i f ts) j ≡ (if i == j then at_task f (task ts j) else task ts j)
task-update [] i j f = ground arith
task-update (t ∷ ts) zero zero f = refl
task-update (t ∷ ts) zero (suc j) f = ground arith
task-update (t ∷ ts) (suc i) zero f = ground arith
task-update (t ∷ ts) (suc i) (suc j) f = task-update ts i j f ∙ ground arith

links-at_task :
    (f : Links → Links) (t : Option Task)
    → links_of (at_task (λ t'. record t' { links = f t'.links }) t)
      ≡ (if is_some t then f (links_of t) else links_of t)
links-at_task f none = refl
links-at_task f (some t) = refl

pub present-at_task : (f : Task → Task) (t : Option Task) → is_some (at_task f t) ≡ is_some t
present-at_task f none = refl
present-at_task f (some t) = refl

pub links-relink :
    (ts : Tasks) (i j : ℕ) (f : Links → Links)
    → links (relink i f ts) j ≡ (if (i == j) && present ts j then f (links ts j) else links ts j)
links-relink ts i j f = ap links_of (task-update ts i j _) ∙ (elim (Bool-cases (i == j)) [
  | inl e ↦ rw e (links-at_task f (task ts j))
  | inr e ↦ rw e refl
])

pub present-update :
    (ts : Tasks) (i j : ℕ) (f : Task → Task) → present (update i f ts) j ≡ present ts j
present-update ts i j f = ap is_some (task-update ts i j f) ∙ (elim (Bool-cases (i == j)) [
  | inl e ↦ rw e (present-at_task f (task ts j))
  | inr e ↦ rw e refl
])

pub links-relink_if :
    (ts : Tasks) (o : Option ℕ) (j : ℕ) (f : Links → Links)
    → links (relink_if o f ts) j ≡ (if is o j && present ts j then f (links ts j) else links ts j)
links-relink_if ts none j f = refl
links-relink_if ts (some i) j f = links-relink ts i j f

pub present-relink_if :
    (ts : Tasks) (o : Option ℕ) (j : ℕ) (f : Links → Links)
    → present (relink_if o f ts) j ≡ present ts j
present-relink_if ts none j f = refl
present-relink_if ts (some i) j f = present-update ts i j _

pub links-at_task_kept :
    (f : Task → Task)
    → ((t : Task) → (f t).links ≡ t.links)
    → (t : Option Task) → links_of (at_task f t) ≡ links_of t
links-at_task_kept f same none = refl
links-at_task_kept f same (some t) = same t

-- A write to a field other than the links.
pub links-update :
    (ts : Tasks) (i j : ℕ) (f : Task → Task)
    → ((t : Task) → (f t).links ≡ t.links)
    → links (update i f ts) j ≡ links ts j
links-update ts i j f same = ap links_of (task-update ts i j f) ∙ (elim (Bool-cases (i == j)) [
  | inl e ↦ rw e (links-at_task_kept f same (task ts j))
  | inr e ↦ rw e refl
])

pub first-none : (js : List ℕ) → first js ≡ none → js ≡ []
first-none [] e = refl
first-none (j ∷ js) e = absurd (cc)

-- What is no task has no children, and is no child.
module _ (kids : ℕ → List ℕ) (ts : Tasks) (v : IsTree kids ts) (i : ℕ)
    (free : present ts i ≡ false) where
  pub no_kids : kids i ≡ []
  no_kids = elim (Option-cases (task ts i)) [
    | inl e ↦ first-none (kids i) (sym (v.youngest i) ∙ ap (λ t. (links_of t).child) e)
    | inr (t, e) ↦ let f = ap is_some e in absurd (cc)
  ]

  pub no_kid : (x : ℕ) → elem i (kids x) ≡ false
  no_kid x = elim (Bool-cases (elem i (kids x))) [
    | inl e ↦ let f = (v.member x i e).0 in absurd (cc)
    | inr e ↦ e
  ]

-- A child has one parent.
pub one_parent :
    (kids : ℕ → List ℕ) (ts : Tasks)
    → IsTree kids ts
    → (x z j : ℕ) → elem j (kids x) ≡ true
    → elem j (kids z) ≡ true
    → x ≡ z
one_parent kids ts v x z j e f =
    let same : some x ≡ some z = sym (v.member x j e).1 ∙ (v.member z j f).1 in cc

pub first-elem : (js : List ℕ) (j : ℕ) → is (first js) j ≡ true → elem j js ≡ true
first-elem [] j e = absurd (cc)
first-elem (i ∷ js) j e = ground arith

pub parent_present :
    (kids : ℕ → List ℕ) (ts : Tasks)
    → IsTree kids ts
    → (x j : ℕ) → elem j (kids x) ≡ true
    → present ts x ≡ true
parent_present kids ts v x j m = elim (Bool-cases (present ts x)) [
  | inl e ↦ e
  | inr e ↦ let f = ap (elem j) (no_kids kids ts v x e) in absurd (cc)
]
