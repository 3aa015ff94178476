-- ===== src/Mm/Tables/Share.antt =====
-- mm/memory.c: the body of the inner loop of copy_page_tables.
use lambda_linux_kernel.Prelude.{
  ℕ, ◌+◌, ◌*◌, ◌≤◌, ◌<◌, ◌≡◌, ◌≢◌, refl, Bool, true, false, ◌&&◌, ltb, leb, ◌==◌, if◌then◌else◌,
  arith, ◌∙◌, sym, Bool-cases, inl, inr, ◌⊎◌,
}
use lambda_linux_kernel.Mm.{
  Mem, ok, low_mem, is_present, page_of, map_nr, entry, put_entry, set_entry, has_table, zeros,
  get_free_page,
}
use lambda_linux_kernel.Mm.Refs.{own_dirs, put_entry-tables, entry-put_entry_ne}
use lambda_linux_kernel.Mm.Counted.{
  IsCounted, plus, Kept, Keeps, set_entry-IsCounted, entry-inside, Same-Kept,
}
use lambda_linux_kernel.Mm.Swapping.{then_do-Keeps}
use lambda_linux_kernel.Mm.FreePage.{Got, no_page, page, get_free_page-Keeps}
use lambda_linux_kernel.Mm.Tables.{protect, count_up, share_entry, copy_entry}
use lambda_linux_kernel.Mm.Tables.Links.{count_up-IsCounted}

-- What a step of the copy to the table at `d'` does: entries that were absent there, other than
-- `i`, stay so.
pub record Copied (others : ℕ → ℕ) (d' i : ℕ) (m : Mem) (good : Bool) (m' : Mem) : Type 0 where
  pub counted : IsCounted others m'
  -- it fails only with no page free
  pub failed : good ≡ false → zeros m'.mem_map ≡ 0
  pub tables : (e : ℕ) → has_table m' e ≡ has_table m e
  pub absent :
      (j : ℕ) → i < j → is_present (entry m.dir d' j) ≡ false → entry m'.dir d' j ≡ entry m.dir d' j

Kept-Copied :
    (others : ℕ → ℕ) (d' i : ℕ) (m : Mem) (good : Bool) (m' : Mem)
    → (good ≡ false → zeros m'.mem_map ≡ 0)
    → Kept others m m'
    → Copied others d' i m good m'
Kept-Copied others d' i m good m' failed k = record {
  counted = k.counted;
  failed = failed;
  tables = k.tables;
  absent = λ j lt a. k.absent d' j a;
}

-- The old table is a process's, or the entry is one of the 160 that fork of task 0 copies.
abbrev pub IsSource : (d i : ℕ) → Type 0
IsSource d i = (own_dirs ≤ d) ⊎ ((d ≡ 0) × (i < 160))

-- The source of a copy of a present entry is inside the memory; where it is not a process's it is
-- below 1 MB.
source-inside :
    (others : ℕ → ℕ) (m : Mem) (d i : ℕ)
    → IsSource d i
    → IsCounted others m
    → is_present (entry m.dir d i) ≡ true
    → page_of (entry m.dir d i) < m.high
source-inside others m d i (inl own) v p = entry-inside others m d i own v p
source-inside others m d i (inr (at, first)) v p =
    let (_, low) = v.booted.low_pages i first in
    let top = v.booted.low_in in let low' : entry m.dir d i < low_mem = rw at low in omega arith

-- An entry that is counted, or not present, is in the table of a process.
source-own :
    (others : ℕ → ℕ) (m : Mem) (d i : ℕ)
    → IsSource d i
    → IsCounted others m
    → (is_present (entry m.dir d i) ≡ false) ⊎ (low_mem ≤ entry m.dir d i)
    → own_dirs ≤ d
source-own others m d i (inl own) v h = own
source-own others m d i (inr (at, first)) v h =
    let (p, low) = v.booted.low_pages i first in
    let p' : is_present (entry m.dir d i) ≡ true = rw at p in
    let low' : entry m.dir d i < low_mem = rw at low in
    elim h [ inl absent ↦ absurd (cc) | inr high ↦ absurd (omega arith) ]

module _ (others : ℕ → ℕ) (d d' i : ℕ) (ne : d ≢ d') (lt : i < 1024) (source : IsSource d i)
    (own' : own_dirs ≤ d') where
  -- Both entries written.
  two_entries :
      (m : Mem) (w' w : ℕ)
      → IsCounted others (set_entry d i w (set_entry d' i w' m))
      → Copied others d' i m true (set_entry d i w (set_entry d' i w' m))
  two_entries m w' w v = record {
    counted = v;
    failed = λ q. cc;
    tables =
        λ e. put_entry-tables (put_entry m.dir d' i w') d i w e ∙ put_entry-tables m.dir d' i w' e;
    absent = λ j lt_j a.
        entry-put_entry_ne (put_entry m.dir d' i w') d i w d' j (inl ne)
        ∙ entry-put_entry_ne m.dir d' i w' d' j (inr (λ q. omega arith));
  }

  share_entry-Copied :
      (m : Mem)
      → IsCounted others m
      → has_table m d ≡ true
      → has_table m d' ≡ true
      → is_present (entry m.dir d' i) ≡ false
      → is_present (entry m.dir d i) ≡ true
      → Keeps others (Copied others d' i m) (share_entry d d' i (entry m.dir d i) m)
  unfolding share_entry
  share_entry-Copied m v there there' a p =
      let w = entry m.dir d i in
      let pw = protect w in
      let in_memory = source-inside others m d i source v p in
      let fits : (is_present pw && leb m.high (page_of pw)) ≡ false = ground arith in
      elim (Bool-cases (ltb low_mem pw)) [
        | inr low ↦
            let v' =
              set_entry-IsCounted others others m d' i pw own' v there' lt fits
                (λ k lt_k. ground arith) in
            rw low (record {
              counted = v';
              failed = λ q. cc;
              tables = put_entry-tables m.dir d' i pw;
              absent = λ j lt_j a'. entry-put_entry_ne m.dir d' i pw d' j (inr (λ q. omega arith));
            })
        | inl high ↦
            let n = map_nr pw in
            let m1 = count_up n m in
            let m2 = set_entry d' i pw m1 in
            let hi = v.high_in in
            let above_low : low_mem < pw = ground arith in
            let own = source-own others m d i source v (inr (ground arith)) in
            let v1 = count_up-IsCounted others m n v (omega arith) (omega arith) in
            let v2 =
              set_entry-IsCounted (plus n others) others m1 d' i pw own' v1 there' lt fits
                (λ k lt_k. ground arith) in
            let still : entry m2.dir d i ≡ w =
              entry-put_entry_ne m.dir d' i pw d i (inl (λ q. ne (sym q))) in
            let there2 : has_table m2 d ≡ true = put_entry-tables m.dir d' i pw d ∙ there in
            let v3 =
              set_entry-IsCounted others others m2 d i pw own v2 there2 lt fits
                (λ k lt_k. rw still (ground arith)) in
            let c = two_entries m1 pw pw v3 in
            rw high
              (record { counted = v3; failed = λ q. cc; tables = c.tables; absent = c.absent })
      ]

  -- A swapped page read into a new page, and its swap page handed on.
  swapped_in :
      (m : Mem) (addr : ℕ) (m' : Mem)
      → has_table m d ≡ true
      → has_table m d' ≡ true
      → is_present (entry m.dir d' i) ≡ false
      → is_present (entry m.dir d i) ≡ false
      → own_dirs ≤ d
      → Got others m addr m'
      → Keeps others (Copied others d' i m) (
          if addr == 0
          then ok false m'
          else ok true (set_entry d i (addr + 0x47) (set_entry d' i (entry m.dir d i) m')))
  swapped_in m addr m' there there' a swapped own (no_page _ out) =
      Kept-Copied others d' i m false m' (λ q. out.spent) out.kept
  swapped_in m addr m' there there' a swapped own (page n _ in_map below k) =
      let nonzero : (low_mem + n * 4096 == 0) ≡ false = ground arith in
      let w = entry m.dir d i in
      let new = low_mem + n * 4096 + 0x47 in
      let same = k.same_high in
      let empty : entry m'.dir d' i ≡ entry m.dir d' i = k.absent d' i a in
      let v1 =
        set_entry-IsCounted (plus n others) (plus n others) m' d' i w own' k.counted
          (k.tables d' ∙ there') lt (ground arith) (λ j lt_j. rw empty (ground arith)) in
      let m1 = set_entry d' i w m' in
      let old : entry m1.dir d i ≡ w =
        entry-put_entry_ne m'.dir d' i w d i (inl (λ q. ne (sym q))) ∙ k.absent d i swapped in
      let there1 : has_table m1 d ≡ true =
        put_entry-tables m'.dir d' i w d ∙ (k.tables d ∙ there) in
      let v2 =
        set_entry-IsCounted (plus n others) others m1 d i new own v1 there1 lt (ground arith)
          (λ j lt_j. rw old (ground arith)) in
      let c = two_entries m' w new v2 in
      rw nonzero (record {
        counted = v2;
        failed = λ q. cc;
        tables = λ e. c.tables e ∙ k.tables e;
        absent = λ j lt_j b. let still = k.absent d' j b in c.absent j lt_j (rw still b) ∙ still;
      })

  pub copy_entry-Copied :
      (m : Mem)
      → IsCounted others m
      → has_table m d ≡ true
      → has_table m d' ≡ true
      → is_present (entry m.dir d' i) ≡ false
      → Keeps others (Copied others d' i m) (copy_entry d d' i m)
  unfolding copy_entry
  copy_entry-Copied m v there there' a = elim (Bool-cases (entry m.dir d i == 0)) [
    | inl z ↦ rw z (
        Kept-Copied others d' i m true m (λ q. cc)
          (Same-Kept others m m (refl, refl, refl, λ h. h) v))
    | inr nz ↦ elim (Bool-cases (is_present (entry m.dir d i))) [
      | inl p ↦ rw (nz, p) (share_entry-Copied m v there there' a p)
      | inr swapped ↦
          rw (nz, swapped)
            (then_do-Keeps others (Got others m) (Copied others d' i m) (get_free_page m) _
              (get_free_page-Keeps others m v)
              (λ addr m' got.
                swapped_in m addr m' there there' a swapped
                  (source-own others m d i source v (inl swapped)) got))
    ]
  ]
