-- ===== src/Mm/Tables/Put.antt =====
-- mm/memory.c: the page tables that put_page and others make.
use lambda_linux_kernel.Prelude.{
  ℕ, zero, suc, ◌+◌, ◌*◌, ◌≤◌, ◌<◌, ◌≡◌, ◌≢◌, refl, Bool, true, false, Option, none, some, List, [],
  ◌∷◌, ◌==◌, if◌then◌else◌, is_some, get_or, set, get_or-replicate, get_or-set_self, get_or-set_ne,
  arith, ap, ◌∙◌, sym, Bool-cases, inl, inr,
}
use lambda_linux_kernel.Mm.{Table, Mem, ok, low_mem, is_present, entry, has_table, get_free_page}
use lambda_linux_kernel.Mm.Refs.{own_dirs}
use lambda_linux_kernel.Mm.Counted.{IsCounted, plus, Kept, Keeps}
use lambda_linux_kernel.Mm.Swapping.{then_do-Keeps}
use lambda_linux_kernel.Mm.FreePage.{Got, no_page, page, get_free_page-Keeps}
use lambda_linux_kernel.Mm.Tables.{set_table, fresh, make_table}
use lambda_linux_kernel.Mm.Tables.Links.{install-IsCounted}

-- A table at `d` after the call, and everything else as it was.
pub record HasTable (others : ℕ → ℕ) (d : ℕ) (m m' : Mem) : Type 0 where
  pub counted : IsCounted others m'
  pub there : has_table m' d ≡ true
  pub tables : (e : ℕ) → e ≢ d → has_table m' e ≡ has_table m e
  pub absent : (e i : ℕ) → is_present (entry m.dir e i) ≡ false → entry m'.dir e i ≡ entry m.dir e i
  pub same_high : m'.high ≡ m.high

-- What `make_table` gives.
abbrev pub Made : (ℕ → ℕ) → ℕ → Mem → Bool → Mem → Type 0
Made others d m made m' = if made then HasTable others d m m' else Kept others m m'

pub no_entry :
    (ts : List (Option Table)) (d i : ℕ) → is_some (get_or ts d none) ≡ false → entry ts d i ≡ 0
unfolding entry
no_entry [] d i h = refl
no_entry (none ∷ ts) zero i h = refl
no_entry (some t ∷ ts) zero i h = cc
no_entry (none ∷ ts) (suc d) i h = no_entry ts d i h
no_entry (some t ∷ ts) (suc d) i h = no_entry ts d i h

pub entry-set-fresh :
    (ts : List (Option Table)) (d e i a : ℕ)
    → is_some (get_or ts d none) ≡ false
    → entry (set ts d (some (fresh a))) e i ≡ entry ts e i
unfolding entry
entry-set-fresh [] d e i a h = refl
entry-set-fresh (none ∷ ts) zero zero i a h = get_or-replicate 1024 i 0
entry-set-fresh (none ∷ ts) zero (suc e) i a h = refl
entry-set-fresh (some t ∷ ts) zero e i a h = cc
entry-set-fresh (none ∷ ts) (suc d) zero i a h = refl
entry-set-fresh (some t ∷ ts) (suc d) zero i a h = refl
entry-set-fresh (none ∷ ts) (suc d) (suc e) i a h = entry-set-fresh ts d e i a h
entry-set-fresh (some t ∷ ts) (suc d) (suc e) i a h = entry-set-fresh ts d e i a h

-- A page just got becomes the table at `d`.
pub fresh-HasTable :
    (others : ℕ → ℕ) (m m' : Mem) (n d : ℕ)
    → own_dirs ≤ d
    → Kept (plus n others) m m'
    → low_mem + n * 4096 < m.high
    → has_table m d ≡ false
    → d < 1024
    → HasTable others d m (set_table d (some (fresh (low_mem + n * 4096))) m')
fresh-HasTable others m m' n d own k below absent lt =
    let none_there : has_table m' d ≡ false = k.tables d ∙ absent in
    record {
      counted =
          install-IsCounted others m' n d own k.counted (omega (arith, k.same_high)) none_there lt;
      there = ap is_some (
          get_or-set_self m'.dir d (some (fresh (low_mem + n * 4096))) none
            (omega (arith, k.counted.dirs)));
      tables = λ e ne. ap is_some (get_or-set_ne m'.dir _ none (λ q. ne (sym q))) ∙ k.tables e;
      absent =
          λ e i a. entry-set-fresh m'.dir d e i (low_mem + n * 4096) none_there ∙ k.absent e i a;
      same_high = k.same_high;
    }

pub make_table-Made :
    (others : ℕ → ℕ) (m : Mem) (d : ℕ)
    → own_dirs ≤ d
    → IsCounted others m
    → d < 1024
    → Keeps others (Made others d m) (make_table d m)
unfolding make_table
make_table-Made others m d own v lt = elim (Bool-cases (has_table m d)) [
  | inl there ↦ rw there (record {
    counted = v;
    there = there;
    tables = λ e ne. refl;
    absent = λ e i a. refl;
    same_high = refl;
  })
  | inr none_there ↦ rw none_there (
      then_do-Keeps others (Got others m) (Made others d m) (get_free_page m) _
        (get_free_page-Keeps others m v) (λ addr m' got. after addr m' none_there got))
]
  where
    after :
        (addr : ℕ) (m' : Mem)
        → has_table m d ≡ false
        → Got others m addr m'
        → Keeps others
            (Made others d m)
            (if addr == 0 then ok false m' else ok true (set_table d (some (fresh addr)) m'))
    after addr m' absent (no_page _ out) = out.kept
    after addr m' absent (page n _ in_map below k) =
        let nonzero : (low_mem + n * 4096 == 0) ≡ false = ground arith in
        rw nonzero (fresh-HasTable others m m' n d own k below absent lt)
