-- ===== src/Mm.antt =====
-- mm/memory.c and mm/swap.c: the count of each page, the page tables and the swap space. A page table
-- is kept with the one entry of the directory that is present and points to it; `none` is an entry
-- that is not present. What pages hold besides page tables is not modelled, nor are the transfers of
-- swapped pages. On page addresses `page | 7` is written `page + 7`.
pub mod Refs
pub mod Counted
pub mod Swapping
pub mod FreePage
pub mod Tables
mod Tests
use lambda_linux_kernel.Prelude.{
  ℕ, zero, suc, ◌+◌, ◌-◌, ◌*◌, ◌/◌, ◌%◌, ◌^◌, Bool, true, false, not, ◌&&◌, ◌||◌, Option, none,
  some, List, [], ◌∷◌, ltb, leb, ◌==◌, if◌then◌else◌, get_or, set, replicate, is_some,
}

abbrev pub low_mem : ℕ
low_mem = 0x100000

abbrev pub paging_memory : ℕ
paging_memory = 15 * 1024 * 1024

abbrev pub paging_pages : ℕ
paging_pages = 3840

-- A page table and its physical address.
pub record Table : Type 0 where
  pub address : ℕ
  pub entries : List ℕ

-- `high_memory`, `mem_map`, `pg_dir`, `swap_bitmap` (a set bit is a free swap page), and the static
-- variables of `swap_out`: `page_entry` here is one more than in the code, where it starts at -1.
pub record Mem : Type 0 where
  pub high : ℕ
  pub mem_map : List ℕ
  pub dir : List (Option Table)
  pub swap : Option (List Bool)
  pub dir_entry : ℕ
  pub page_entry : ℕ

-- What a call comes to: a value, the end of the process by `oom`, a panic over a page whose count
-- is 0, or a panic over the arguments.
pub data Result (A : Type 0) : Type 0 where
  ok : A → Mem → Result A
  dies : Mem → Result A
  panics : Mem → Result A
  rejects : Result A

abbrev pub M : Type 0 → Type 0
M A = Mem → Result A

abbrev pub pure : {A : Type 0} → A → M A
pure a m = ok a m

abbrev pub oom : {A : Type 0} → M A
oom m = dies m

abbrev pub then_do : {A B : Type 0} → Result A → (A → M B) → Result B
then_do (ok a m) k = k a m
then_do (dies m) k = dies m
then_do (panics m) k = panics m
then_do rejects k = rejects

infixl 5 ◌>>=◌ ◌>>◌
abbrev pub ◌>>=◌ : {A B : Type 0} → M A → (A → M B) → M B
◌>>=◌ f k m = then_do (f m) k

abbrev pub ◌>>◌ : {B : Type 0} → M (Unit {0}) → M B → M B
f >> k = f >>= λ _. k

-- The bits of an entry, and `0xfffff000 & w`.
abbrev pub is_present : ℕ → Bool
is_present w = w % 2 == 1

abbrev pub is_dirty : ℕ → Bool
is_dirty w = w / 64 % 2 == 1

abbrev pub page_of : ℕ → ℕ
page_of w = w / 4096 * 4096

-- `MAP_NR`
abbrev pub map_nr : ℕ → ℕ
map_nr addr = (addr - low_mem) / 4096

abbrev pub count_of : Mem → ℕ → ℕ
count_of m n = get_or m.mem_map n 0

abbrev pub set_count : ℕ → ℕ → Mem → Mem
set_count n c m = record m { mem_map = set m.mem_map n c }

-- The entry `i` of the table at directory entry `d`, and a write to it.
pub entry : List (Option Table) → ℕ → ℕ → ℕ
entry [] d i = 0
entry (none ∷ ts) zero i = 0
entry (some t ∷ ts) zero i = get_or t.entries i 0
entry (t ∷ ts) (suc d) i = entry ts d i

pub put_entry : List (Option Table) → ℕ → ℕ → ℕ → List (Option Table)
put_entry [] d i w = []
put_entry (none ∷ ts) zero i w = none ∷ ts
put_entry (some t ∷ ts) zero i w = some (record t { entries = set t.entries i w }) ∷ ts
put_entry (t ∷ ts) (suc d) i w = t ∷ put_entry ts d i w

abbrev pub set_entry : ℕ → ℕ → ℕ → Mem → Mem
set_entry d i w m = record m { dir = put_entry m.dir d i w }

abbrev pub has_table : Mem → ℕ → Bool
has_table m d = is_some (get_or m.dir d none)

pub free_page : ℕ → M (Unit {0})
free_page addr m =
    if ltb addr low_mem
    then ok tt m
    else if leb m.high addr
    then rejects
    else if count_of m (map_nr addr) == 0
    then panics m
    else ok tt (set_count (map_nr addr) (count_of m (map_nr addr) - 1) m)

-- The first swap page from `nr` on whose bit is set, over the pages left; 0 if there is none.
pub find_swap : ℕ → List Bool → ℕ → ℕ
find_swap zero bits nr = 0
find_swap (suc left) bits nr =
    let rest = find_swap left bits (nr + 1) in if get_or bits nr false then nr else rest

pub get_swap_page : Mem → ℕ × Mem
get_swap_page m = elim m.swap [
  | none ↦ (0, m)
  | some bits ↦
      let nr = find_swap 32767 bits 1 in
      if nr == 0 then (0, m) else (nr, record m { swap = some (set bits nr false) })
]

-- A swap page that is not in use already, or past the bitmap, is only reported.
pub swap_free : ℕ → Mem → Mem
swap_free nr m = elim m.swap [
  | none ↦ m
  | some bits ↦ if nr == 0 || leb 32768 nr then m else record m { swap = some (set bits nr true) }
]

-- `try_to_swap_out` on the entry `i` of the table at `d`. The first test is unsigned.
pub swap_dirty : ℕ → ℕ → ℕ → M Bool
swap_dirty d i page m =
    if not (count_of m (map_nr page) == 1)
    then ok false m
    else let (nr, m') = get_swap_page m in
      if nr == 0
      then ok false m'
      else then_do (free_page page (set_entry d i (nr * 2) m')) (λ _. pure true)

pub try_to_swap_out : ℕ → ℕ → M Bool
try_to_swap_out d i m =
    let w = entry m.dir d i in
    if not (is_present w)
    then ok false m
    else if ltb w low_mem || ltb (low_mem + paging_memory) w
    then ok false m
    else if is_dirty w
    then swap_dirty d i (page_of w) m
    else then_do (free_page (page_of w) (set_entry d i 0 m)) (λ _. pure true)

-- FIRST_VM_PAGE >> 10, and VM_PAGES.
abbrev pub first_dir : ℕ
first_dir = 16

abbrev pub vm_pages : ℕ
vm_pages = 1008 * 1024

abbrev pub next_dir : ℕ → ℕ
next_dir d = if leb 1024 (d + 1) then first_dir else d + 1

-- The first loop of `swap_out`: the counter is `rounds * 1024`.
pub find_table : ℕ → Mem → ℕ × Mem
find_table zero m = (0, m)
find_table (suc rounds) m =
    let rest = find_table rounds (record m { dir_entry = next_dir m.dir_entry }) in
    if has_table m m.dir_entry then (suc rounds * 1024, m) else rest

-- `repeat` to `break`: the next directory entry with a table, and the counter left; no counter is
-- left for `break`.
pub next_table : ℕ → ℕ → Mem → ℕ × Mem
next_table zero counter m = (0, record m { page_entry = 1 })
next_table (suc fuel) counter m =
    let m' = record m { dir_entry = next_dir m.dir_entry } in
    let rest = next_table fuel (counter - 1024) m' in
    if has_table m' m'.dir_entry
    then (counter + 1, m')
    else if ltb 1024 counter
    then rest
    else (0, record m' { page_entry = 1 })

-- `page_entry++` and what follows it up to the call of `try_to_swap_out`.
abbrev pub advance : ℕ → Mem → ℕ × Mem
advance counter m =
    if leb 1024 m.page_entry
    then next_table 1009 counter (record m { page_entry = 0 })
    else (counter + 1, m)

-- The second loop: `fuel` bounds the counter.
pub scan : ℕ → ℕ → M Bool
scan zero counter m = ok false m
scan (suc fuel) zero m = ok false m
scan (suc fuel) (suc counter) m =
    let (left, m') = advance counter m in
    if left == 0
    then ok false m'
    else let i = m'.page_entry in
      then_do (try_to_swap_out m'.dir_entry i (record m' { page_entry = i + 1 }))
        (λ done m''. elim done [ true ↦ ok true m'' | false ↦ scan fuel (left - 1) m'' ])

pub swap_out : M Bool
swap_out m = let (counter, m') = find_table 1008 m in scan vm_pages counter m'

-- The last page of `mem_map` with count 0, from page `n` on.
pub last_free : List ℕ → ℕ → Option ℕ
last_free [] n = none
last_free (c ∷ cs) n = elim (last_free cs (n + 1)) [
  | some k ↦ some k
  | none ↦ if c == 0 then some n else none
]

-- The sum of a weight over the tables and one over their entries.
abbrev pub sum_of : (ℕ → ℕ) → List ℕ → ℕ
sum_of f [] = 0
sum_of f (w ∷ ws) = f w + sum_of f ws

abbrev pub total : (tw ew : ℕ → ℕ) → List (Option Table) → ℕ
total tw ew [] = 0
total tw ew (none ∷ ts) = total tw ew ts
total tw ew (some t ∷ ts) = tw t.address + sum_of ew t.entries + total tw ew ts

abbrev pub one_if : Bool → ℕ
one_if b = if b then 1 else 0

-- How many entries are present, and how many pages are free.
abbrev pub presents : Mem → ℕ
presents m = total (λ a. 0) (λ w. one_if (is_present w)) m.dir

abbrev pub zeros : List ℕ → ℕ
zeros cs = sum_of (λ c. one_if (c == 0)) cs

-- The loop of `get_free_page`: 0 if there is no page; out of fuel it would reject.
pub take_page : ℕ → M ℕ
take_page zero m = rejects
take_page (suc fuel) m = elim (last_free m.mem_map 0) [
  | some n ↦
      let again = take_page fuel (set_count n 1 m) in
      if leb m.high (low_mem + n * 4096) then again else ok (low_mem + n * 4096) (set_count n 1 m)
  | none ↦
      then_do (swap_out m) (λ done m'. elim done [ true ↦ take_page fuel m' | false ↦ ok 0 m' ])
]

-- Each round takes a page or swaps one out.
pub get_free_page : M ℕ
get_free_page m = take_page (2 * presents m + zeros m.mem_map + 1) m
