-- ===== src/Kernel/Exit/Inherit.antt =====
-- kernel/exit.c: the children of a task become those of init.
use lambda_linux_kernel.Prelude.{
  ℕ, zero, suc, ◌<◌, ◌≡◌, refl, ◌&&◌, Option, none, some, List, [], ◌∷◌, ◌==◌, if◌then◌else◌,
  length, arith, ap, ◌∙◌, inl, inr, Bool-cases, elem,
}
use lambda_linux_kernel.Kernel.Tree.{Task, Tasks, task, links, relink}
use lambda_linux_kernel.Kernel.Tree.Chains.{
  present, Linked, younger_of, older_of, Linked-keeps, links-relink, present-update,
}
use lambda_linux_kernel.Kernel.Exit.{or_null, is_zombie, tell, adopt, inherit_one, inherit}
use lambda_linux_kernel.Kernel.Exit.Quiet.{
  SameLinks, SameLinks-refl, SameLinks-trans, tell-SameLinks, either_SameLinks, hang_up-SameLinks,
}

-- The tasks of `js` have init as their parent, and nothing else is changed in the links.
pub record Inherits (js : List ℕ) (ts ts' : Tasks) : Type 0 where
  pub links_now :
      (j : ℕ)
      → links ts' j ≡ (
          if elem j js && present ts j then record (links ts j) { parent = some 1 } else links ts j)
  pub present_now : (j : ℕ) → present ts' j ≡ present ts j

pub brothers_kept :
    (js : List ℕ) (ts ts' : Tasks)
    → Inherits js ts ts'
    → (j : ℕ) → (younger_of ts' j ≡ younger_of ts j) × (older_of ts' j ≡ older_of ts j)
brothers_kept js ts ts' a j = (
  ap (λ l. l.younger) (a.links_now j) ∙ ground arith,
  ap (λ l. l.older) (a.links_now j) ∙ ground arith,
)

inherit_one-Inherits :
    (nothing : Task) (current p : ℕ) (ts : Tasks)
    → Inherits (p ∷ []) ts (inherit_one nothing current p ts)
unfolding inherit_one
inherit_one-Inherits nothing current p ts =
    let ts1 = relink p (λ l. record l { parent = some 1 }) ts in
    let ts2 =
      if is_zombie (or_null nothing (task ts1 p)).process.state then tell (some 1) ts1 else ts1 in
    let quiet : SameLinks ts1 (inherit_one nothing current p ts) =
      SameLinks-trans
        (either_SameLinks (is_zombie (or_null nothing (task ts1 p)).process.state) ts1
          (tell (some 1) ts1) ts1 (tell-SameLinks (some 1) ts1) (SameLinks-refl ts1))
        (hang_up-SameLinks nothing (or_null nothing (task ts2 current))
          (or_null nothing (task ts2 p)) (or_null nothing (task ts2 current)) ts2) in
    record {
      links_now = λ j.
          quiet.same_links j
          ∙ (links-relink ts p j (λ l. record l { parent = some 1 })
              ∙ (elim (Bool-cases (p == j)) [ inl e ↦ rw e refl | inr e ↦ rw e refl ]));
      present_now = λ j. quiet.same_present j ∙ present-update ts p j _;
    }

Inherits-cons :
    (p : ℕ) (js : List ℕ) (ts ts' ts'' : Tasks)
    → Inherits (p ∷ []) ts ts'
    → Inherits js ts' ts''
    → Inherits (p ∷ js) ts ts''
Inherits-cons p js ts ts' ts'' a b = record {
  links_now = λ j.
      rw (b.links_now j, a.present_now j, a.links_now j)
        (elim (Bool-cases (p == j)) [
          | inl e ↦ rw e (elim (Bool-cases (present ts j)) [
            | inl f ↦ rw f (elim (Bool-cases (elem j js)) [ inl g ↦ rw g refl | inr g ↦ rw g refl ])
            | inr f ↦ rw f (elim (Bool-cases (elem j js)) [ inl g ↦ rw g refl | inr g ↦ rw g refl ])
          ])
          | inr e ↦ rw e refl
        ]);
  present_now = λ j. b.present_now j ∙ a.present_now j;
}

abbrev pub last : ℕ → List ℕ → ℕ
last j [] = j
last j (k ∷ ks) = last k ks

-- The loop gives init the children from `p` on, and then links them to those of init.
pub inherit_runs :
    (nothing : Task) (fuel current p : ℕ) (js : List ℕ) (y : Option ℕ) (ts : Tasks)
    → length js < fuel
    → Linked (younger_of ts) (older_of ts) y (p ∷ js)
    → (ts' : Tasks) × (inherit nothing fuel current p ts ≡ some (adopt current (last p js) ts'))
      × Inherits (p ∷ js) ts ts'
unfolding inherit
inherit_runs nothing zero current p js y ts lt l = absurd (omega arith)
inherit_runs nothing (suc fuel) current p [] y ts lt (a, b, l) =
    let one = inherit_one-Inherits nothing current p ts in
    let done : (links (inherit_one nothing current p ts) p).older ≡ none =
      (brothers_kept (p ∷ []) ts (inherit_one nothing current p ts) one p).1 ∙ b in
    (inherit_one nothing current p ts, rw (inherit, done) refl, one)
inherit_runs nothing (suc fuel) current p (q ∷ js) y ts lt (a, b, l) =
    let ts1 = inherit_one nothing current p ts in
    let one = inherit_one-Inherits nothing current p ts in
    let kept = brothers_kept (p ∷ []) ts ts1 one in
    let more : (links ts1 p).older ≡ some q = (kept p).1 ∙ b in
    let (ts', runs, all) = inherit_runs nothing fuel current q js (some p) ts1 (omega arith) (
      Linked-keeps (younger_of ts) (older_of ts) (younger_of ts1) (older_of ts1) (some p) (q ∷ js)
        (λ j m. kept j) l) in
    (ts', rw (inherit, more) runs, Inherits-cons p (q ∷ js) ts ts1 ts' one all)
