-- ===== src/Kernel/Exit/Quiet.antt =====
-- kernel/exit.c: the signals that an exit sends leave the links as they are.
use lambda_linux_kernel.Prelude.{
  ℕ, zero, suc, ◌≡◌, refl, Bool, true, false, Option, none, some, List, [], ◌∷◌, if◌then◌else◌,
  is_some, map, ◌∙◌,
}
use lambda_linux_kernel.Kernel.Signal.{Process, kill_pg}
use lambda_linux_kernel.Kernel.Tree.{Task, Tasks, links, links_of, update}
use lambda_linux_kernel.Kernel.Tree.Chains.{present, links-update, present-update}
use lambda_linux_kernel.Kernel.Exit.{
  with_process, put_back, signal_group, hang_up, tell, process_of,
}

-- The same tasks with the same links.
pub record SameLinks (ts ts' : Tasks) : Type 0 where
  pub same_links : (j : ℕ) → links ts' j ≡ links ts j
  pub same_present : (j : ℕ) → present ts' j ≡ present ts j

pub SameLinks-refl : (ts : Tasks) → SameLinks ts ts
SameLinks-refl ts = record { same_links = λ j. refl; same_present = λ j. refl }

pub SameLinks-trans :
    {ts ts' ts'' : Tasks} → SameLinks ts ts' → SameLinks ts' ts'' → SameLinks ts ts''
SameLinks-trans a b = record {
  same_links = λ j. b.same_links j ∙ a.same_links j;
  same_present = λ j. b.same_present j ∙ a.same_present j;
}

pub update-SameLinks :
    (ts : Tasks) (i : ℕ) (f : Task → Task)
    → ((t : Task) → (f t).links ≡ t.links)
    → SameLinks ts (update i f ts)
update-SameLinks ts i f same = record {
  same_links = λ j. links-update ts i j f same;
  same_present = λ j. present-update ts i j f;
}

pub tell-SameLinks : (o : Option ℕ) (ts : Tasks) → SameLinks ts (tell o ts)
tell-SameLinks none ts = SameLinks-refl ts
tell-SameLinks (some i) ts = update-SameLinks ts i _ (λ t. refl)

links-with_process :
    (t : Option Task) (p : Option Process)
    → (links_of (with_process t p) ≡ links_of t) × (is_some (with_process t p) ≡ is_some t)
links-with_process none none = (refl, refl)
links-with_process none (some p) = (refl, refl)
links-with_process (some t) none = (refl, refl)
links-with_process (some t) (some p) = (refl, refl)

links-put_back :
    (ts : Tasks) (ps : List (Option Process)) (j : ℕ)
    → (links (put_back ts ps) j ≡ links ts j) × (present (put_back ts ps) j ≡ present ts j)
links-put_back [] [] j = (refl, refl)
links-put_back [] (p ∷ ps) j = (refl, refl)
links-put_back (t ∷ ts) [] j = (refl, refl)
links-put_back (t ∷ ts) (p ∷ ps) zero = links-with_process t p
links-put_back (t ∷ ts) (p ∷ ps) (suc j) = links-put_back ts ps j

signal_group-SameLinks :
    (nothing : Task) (euid pgrp sig : ℕ) (ts : Tasks)
    → SameLinks ts (signal_group nothing euid pgrp sig ts)
signal_group-SameLinks nothing euid pgrp sig ts =
    let ps = (kill_pg nothing.process.pgrp euid pgrp sig true (map process_of ts)).1 in
    record {
      same_links = λ j. (links-put_back ts ps j).0;
      same_present = λ j. (links-put_back ts ps j).1;
    }

pub either_SameLinks :
    (b : Bool) (ts ts' ts'' : Tasks)
    → SameLinks ts ts'
    → SameLinks ts ts''
    → SameLinks ts (if b then ts' else ts'')
either_SameLinks true ts ts' ts'' a c = a
either_SameLinks false ts ts' ts'' a c = c

pub hang_up-SameLinks :
    (nothing t p q : Task) (ts : Tasks) → SameLinks ts (hang_up nothing t p q ts)
unfolding hang_up
hang_up-SameLinks nothing t p q ts =
    either_SameLinks _ ts _ ts
      (SameLinks-trans (signal_group-SameLinks nothing t.process.euid p.process.pgrp 1 ts) (
        signal_group-SameLinks nothing t.process.euid p.process.pgrp 18
          (signal_group nothing t.process.euid p.process.pgrp 1 ts)))
      (SameLinks-refl ts)
