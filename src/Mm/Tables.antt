-- ===== src/Mm/Tables.antt =====
-- mm/memory.c: the operations on page tables. An address of 32 bits is the directory entry
-- `address / 2 ^ 22` and the entry `address / 2 ^ 12 % 1024` of its table.
pub mod Links
pub mod Clear
pub mod Free
pub mod Share
pub mod Copy
pub mod Put
pub mod Empty
pub mod Write
use lambda_linux_kernel.Prelude.{
  ℕ, zero, suc, ◌+◌, ◌-◌, ◌*◌, ◌/◌, ◌%◌, ◌^◌, Bool, true, false, not, ◌&&◌, ◌||◌, Option, none,
  some, List, [], ◌∷◌, ltb, leb, ◌==◌, if◌then◌else◌, get_or, set, replicate, is_some,
}
use lambda_linux_kernel.Mm.{
  Table, Mem, Result, ok, dies, panics, rejects, M, pure, oom, then_do, low_mem, is_present,
  page_of, map_nr, count_of, set_count, entry, set_entry, has_table, free_page, swap_free,
  get_free_page,
}

abbrev pub dir_of : ℕ → ℕ
dir_of address = address / 2 ^ 22 % 1024

abbrev pub index_of : ℕ → ℕ
index_of address = address / 2 ^ 12 % 1024

abbrev pub table_at : Mem → ℕ → ℕ
table_at m d = elim (get_or m.dir d none) [ none ↦ 0 | some t ↦ t.address ]

abbrev pub set_table : ℕ → Option Table → Mem → Mem
set_table d t m = record m { dir = set m.dir d t }

-- A page that is just got, as a table.
abbrev pub fresh : ℕ → Table
fresh address = record { address = address; entries = replicate 1024 0 }

-- The body of the inner loop of `free_page_tables`.
pub free_entry : ℕ → ℕ → M (Unit {0})
free_entry d i m =
    let w = entry m.dir d i in
    if w == 0
    then ok tt m
    else if is_present w
    then then_do (free_page (page_of w) m) (λ _ m'. ok tt (set_entry d i 0 m'))
    else ok tt (set_entry d i 0 (swap_free (w / 2) m))

pub free_entries : (rounds d i : ℕ) → M (Unit {0})
free_entries zero d i m = ok tt m
free_entries (suc rounds) d i m =
    then_do (free_entry d i m) (λ _ m'. free_entries rounds d (i + 1) m')

pub free_table : ℕ → M (Unit {0})
free_table d m =
    if has_table m d
    then then_do (free_entries 1024 d 0 m)
        (λ _ m'. then_do (free_page (table_at m' d) m') (λ _ m''. ok tt (set_table d none m'')))
    else ok tt m

pub free_tables : (rounds d : ℕ) → M (Unit {0})
free_tables zero d m = ok tt m
free_tables (suc rounds) d m = then_do (free_table d m) (λ _ m'. free_tables rounds (d + 1) m')

-- `(size + 0x3fffff) >> 22`
abbrev pub tables_of : ℕ → ℕ
tables_of size = (size + 0x3fffff) % 2 ^ 32 / 2 ^ 22

pub free_page_tables : (from size : ℕ) → M (Unit {0})
free_page_tables from size m =
    if not (from % 0x400000 == 0) || from == 0
    then rejects
    else free_tables (tables_of size) (dir_of from) m

-- `w & ~2` and `w | 2`.
abbrev pub protect : ℕ → ℕ
protect w = w - w / 2 % 2 * 2

abbrev pub writable : ℕ → ℕ
writable w = protect w + 2

-- `mem_map[n]++`, of a byte.
abbrev pub count_up : ℕ → Mem → Mem
count_up n m = set_count n ((count_of m n + 1) % 256) m

-- A present page shared: write-protected on both sides, and counted if it is above the low memory.
pub share_entry : (d d' i w : ℕ) → M Bool
share_entry d d' i w m =
    let m' = set_entry d' i (protect w) m in
    if ltb low_mem (protect w)
    then ok true (count_up (map_nr (protect w)) (set_entry d i (protect w) m'))
    else ok true m'

-- The body of the inner loop of `copy_page_tables`: false is `return -1`. A swapped page is read
-- into a new page of the old table, and the swap page goes to the new one.
pub copy_entry : (d d' i : ℕ) → M Bool
copy_entry d d' i m =
    let w = entry m.dir d i in
    if w == 0
    then ok true m
    else if is_present w
    then share_entry d d' i w m
    else then_do (get_free_page m) (λ page m'.
      if page == 0
      then ok false m'
      else ok true (set_entry d i (page + 0x47) (set_entry d' i w m')))

pub copy_entries : (rounds d d' i : ℕ) → M Bool
copy_entries zero d d' i m = ok true m
copy_entries (suc rounds) d d' i m =
    then_do (copy_entry d d' i m)
      (λ good m'. elim good [ true ↦ copy_entries rounds d d' (i + 1) m' | false ↦ ok false m' ])

-- The body of the outer loop, for `nr` entries.
pub copy_table : (nr d d' : ℕ) → M Bool
copy_table nr d d' m =
    if has_table m d'
    then rejects
    else if has_table m d
    then then_do (get_free_page m) (λ page m'.
      if page == 0
      then ok false m'
      else copy_entries nr d d' 0 (set_table d' (some (fresh page)) m'))
    else ok true m

pub copy_tables : (rounds nr d d' : ℕ) → M Bool
copy_tables zero nr d d' m = ok true m
copy_tables (suc rounds) nr d d' m = then_do (copy_table nr d d' m) (λ good m'. elim good [
  | true ↦ copy_tables rounds nr (d + 1) (d' + 1) m'
  | false ↦ ok false m'
])

pub copy_page_tables : (from to size : ℕ) → M Bool
copy_page_tables from to size m =
    if not (from % 0x400000 == 0) || not (to % 0x400000 == 0)
    then rejects
    else copy_tables (tables_of size) (if from == 0 then 0xa0 else 1024) (dir_of from) (dir_of to) m

-- The table of an address, made if there is none: whether there is one then.
pub make_table : ℕ → M Bool
make_table d m =
    if has_table m d
    then ok true m
    else then_do (get_free_page m)
        (λ page m'. if page == 0 then ok false m' else ok true (set_table d (some (fresh page)) m'))

-- `put_page` and `put_dirty_page`, which differ in the bits of the entry: the page, or 0.
abbrev pub put_with : (bits page address : ℕ) → M ℕ
put_with bits page address m = then_do (make_table (dir_of address) m) (λ made m'.
    if made
    then ok page (set_entry (dir_of address) (index_of address) (page + bits) m')
    else ok 0 m')

pub put_page : (page address : ℕ) → M ℕ
put_page = put_with 7

pub put_dirty_page : (page address : ℕ) → M ℕ
put_dirty_page = put_with 0x47

pub get_empty_page : ℕ → M (Unit {0})
get_empty_page address m = then_do (get_free_page m) (λ page m'.
    if page == 0
    then oom m'
    else then_do (put_page page address m')
        (λ put m''. if put == 0 then then_do (free_page page m'') (λ _. oom) else ok tt m''))

-- The copy of a page that is written to; the old page is taken off one count.
pub un_wp_page : (d i : ℕ) → M (Unit {0})
un_wp_page d i m =
    let old = page_of (entry m.dir d i) in
    if leb low_mem old && count_of m (map_nr old) == 1
    then ok tt (set_entry d i (writable (entry m.dir d i)) m)
    else then_do (get_free_page m) (λ page m'.
      if page == 0
      then oom m'
      else ok tt (
          set_entry d i (page + 7) (
            if leb low_mem old
            then set_count (map_nr old) ((count_of m' (map_nr old) + 255) % 256) m'
            else m')))

pub write_verify : ℕ → M (Unit {0})
write_verify address m =
    let d = dir_of address in
    let i = index_of address in
    if has_table m d && entry m.dir d i % 4 == 1 then un_wp_page d i m else ok tt m

-- `try_to_share` of an address with a process whose code starts at `theirs`: false is 0. The page
-- must not be there yet on this side.
pub try_to_share : (address theirs ours : ℕ) → M Bool
try_to_share address theirs ours m =
    let d = dir_of address + dir_of theirs in
    let d' = dir_of address + dir_of ours in
    let i = index_of address in
    let w = entry m.dir d i in
    let page = page_of w in
    if not (has_table m d) || not (w % 2 == 1 && w / 64 % 2 == 0)
    then ok false m
    else if leb m.high page || ltb page low_mem
    then ok false m
    else then_do (make_table d' m) (λ made m'.
      if not made
      then oom m'
      else if is_present (entry m'.dir d' i)
      then rejects
      else let w' = protect (entry m'.dir d i) in
        ok true (count_up (map_nr page) (set_entry d' i w' (set_entry d i w' m'))))
