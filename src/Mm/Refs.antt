-- ===== src/Mm/Refs.antt =====
-- mm/memory.c: sums over the page tables, and the references to a page.
use lambda_linux_kernel.Prelude.{
  ℕ, zero, suc, ◌+◌, ◌≤◌, ◌<◌, ◌≡◌, ◌≢◌, refl, Bool, true, ◌&&◌, Option, none, some, List, [], ◌∷◌,
  leb, ◌==◌, is_some, get_or, set, length, length-set, arith, All, ap, get_or-set_ne,
  get_or-set_self, ◌⊎◌, inl, inr,
}
use lambda_linux_kernel.Mm.{
  Table, low_mem, is_present, page_of, map_nr, entry, put_entry, sum_of, total, one_if,
}

-- Whether an address lies in page `n` of `mem_map`.
abbrev pub in_page : ℕ → ℕ → Bool
in_page n addr = leb low_mem addr && map_nr addr == n

-- A sum that leaves out the first directory entries.
unfoldable pub total_after : ℕ → (tw ew : ℕ → ℕ) → List (Option Table) → ℕ
total_after zero tw ew ts = total tw ew ts
total_after (suc k) tw ew [] = 0
total_after (suc k) tw ew (t ∷ ts) = total_after k tw ew ts

-- head.s fills the first four directory entries with tables that map the memory to itself, up to
-- 16 MB. mem_map does not count what they lead to.
abbrev pub own_dirs : ℕ
own_dirs = 4

-- The references of a directory to page `n`: its tables and their present entries, but for the
-- first four.
abbrev pub points : ℕ → ℕ → ℕ
points n w = one_if (is_present w && in_page n (page_of w))

abbrev pub refs : List (Option Table) → ℕ → ℕ
refs ts n = total_after own_dirs (λ a. one_if (in_page n a)) (points n) ts

-- The tables and the entries that lead past the end of memory.
abbrev pub strays : ℕ → List (Option Table) → ℕ
strays high ts =
    total_after own_dirs (λ a. one_if (leb high a))
      (λ w. one_if (is_present w && leb high (page_of w))) ts

pub sum_of-set :
    (f : ℕ → ℕ) (ws : List ℕ) (i w : ℕ)
    → i < length ws
    → sum_of f (set ws i w) + f (get_or ws i 0) ≡ sum_of f ws + f w
sum_of-set f [] i w h = absurd (omega arith)
sum_of-set f (v ∷ ws) zero w h = omega arith
sum_of-set f (v ∷ ws) (suc i) w h = omega (arith, sum_of-set f ws i w (omega arith))

pub sum_of-ge : (f : ℕ → ℕ) (ws : List ℕ) (i : ℕ) → f 0 ≡ 0 → f (get_or ws i 0) ≤ sum_of f ws
sum_of-ge f [] i z = omega arith
sum_of-ge f (v ∷ ws) zero z = omega arith
sum_of-ge f (v ∷ ws) (suc i) z = omega (arith, sum_of-ge f ws i z)

-- Every table has 1024 entries.
abbrev pub IsFull : Option Table → Type 0
IsFull none = Unit
IsFull (some t) = length t.entries ≡ 1024

pub total-put_entry :
    (tw ew : ℕ → ℕ) (ts : List (Option Table)) (d i w : ℕ)
    → All IsFull ts
    → is_some (get_or ts d none) ≡ true
    → i < 1024
    → total tw ew (put_entry ts d i w) + ew (entry ts d i) ≡ total tw ew ts + ew w
unfolding entry put_entry
total-put_entry tw ew [] d i w full there lt = cc
total-put_entry tw ew (none ∷ ts) zero i w full there lt = cc
total-put_entry tw ew (some t ∷ ts) zero i w (full, _) there lt =
    omega (arith, sum_of-set ew t.entries i w (omega (arith, full)))
total-put_entry tw ew (none ∷ ts) (suc d) i w (_, full) there lt =
    total-put_entry tw ew ts d i w full there lt
total-put_entry tw ew (some t ∷ ts) (suc d) i w (_, full) there lt =
    omega (arith, total-put_entry tw ew ts d i w full there lt)

pub total-ge :
    (tw ew : ℕ → ℕ) (ts : List (Option Table)) (d i : ℕ)
    → ew 0 ≡ 0
    → ew (entry ts d i) ≤ total tw ew ts
unfolding entry
total-ge tw ew [] d i z = omega arith
total-ge tw ew (none ∷ ts) zero i z = omega arith
total-ge tw ew (some t ∷ ts) zero i z = omega (arith, sum_of-ge ew t.entries i z)
total-ge tw ew (none ∷ ts) (suc d) i z = total-ge tw ew ts d i z
total-ge tw ew (some t ∷ ts) (suc d) i z = omega (arith, total-ge tw ew ts d i z)

pub total_after-put_entry :
    (k : ℕ) (tw ew : ℕ → ℕ) (ts : List (Option Table)) (d i w : ℕ)
    → k ≤ d
    → All IsFull ts
    → is_some (get_or ts d none) ≡ true
    → i < 1024
    → total_after k tw ew (put_entry ts d i w) + ew (entry ts d i) ≡ total_after k tw ew ts + ew w
unfolding entry put_entry total_after
total_after-put_entry zero tw ew ts d i w le full there lt =
    total-put_entry tw ew ts d i w full there lt
total_after-put_entry (suc k) tw ew [] d i w le full there lt = cc
total_after-put_entry (suc k) tw ew (t ∷ ts) zero i w le full there lt = absurd (omega arith)
total_after-put_entry (suc k) tw ew (none ∷ ts) (suc d) i w le (_, full) there lt =
    total_after-put_entry k tw ew ts d i w (omega arith) full there lt
total_after-put_entry (suc k) tw ew (some t ∷ ts) (suc d) i w le (_, full) there lt =
    total_after-put_entry k tw ew ts d i w (omega arith) full there lt

pub total_after-ge :
    (k : ℕ) (tw ew : ℕ → ℕ) (ts : List (Option Table)) (d i : ℕ)
    → k ≤ d
    → ew 0 ≡ 0
    → ew (entry ts d i) ≤ total_after k tw ew ts
unfolding entry total_after
total_after-ge zero tw ew ts d i le z = total-ge tw ew ts d i z
total_after-ge (suc k) tw ew [] d i le z = omega arith
total_after-ge (suc k) tw ew (t ∷ ts) zero i le z = absurd (omega arith)
total_after-ge (suc k) tw ew (none ∷ ts) (suc d) i le z =
    total_after-ge k tw ew ts d i (omega arith) z
total_after-ge (suc k) tw ew (some t ∷ ts) (suc d) i le z =
    total_after-ge k tw ew ts d i (omega arith) z

pub put_entry-IsFull :
    (ts : List (Option Table)) (d i w : ℕ) → All IsFull ts → All IsFull (put_entry ts d i w)
unfolding put_entry
put_entry-IsFull [] d i w full = full
put_entry-IsFull (none ∷ ts) zero i w full = full
put_entry-IsFull (some t ∷ ts) zero i w (full, rest) =
    (omega (arith, length-set {0} t.entries i w, full), rest)
put_entry-IsFull (none ∷ ts) (suc d) i w (full, rest) = (full, put_entry-IsFull ts d i w rest)
put_entry-IsFull (some t ∷ ts) (suc d) i w (full, rest) = (full, put_entry-IsFull ts d i w rest)

pub length-put_entry :
    (ts : List (Option Table)) (d i w : ℕ) → length (put_entry ts d i w) ≡ length ts
unfolding put_entry
length-put_entry [] d i w = refl
length-put_entry (none ∷ ts) zero i w = refl
length-put_entry (some t ∷ ts) zero i w = refl
length-put_entry (none ∷ ts) (suc d) i w = ap suc (length-put_entry ts d i w)
length-put_entry (some t ∷ ts) (suc d) i w = ap suc (length-put_entry ts d i w)

-- A write to an entry leaves the tables where they are.
pub put_entry-tables :
    (ts : List (Option Table)) (d i w e : ℕ)
    → is_some (get_or (put_entry ts d i w) e none) ≡ is_some (get_or ts e none)
unfolding put_entry
put_entry-tables [] d i w e = refl
put_entry-tables (none ∷ ts) zero i w e = refl
put_entry-tables (some t ∷ ts) zero i w zero = refl
put_entry-tables (some t ∷ ts) zero i w (suc e) = refl
put_entry-tables (none ∷ ts) (suc d) i w zero = refl
put_entry-tables (none ∷ ts) (suc d) i w (suc e) = put_entry-tables ts d i w e
put_entry-tables (some t ∷ ts) (suc d) i w zero = refl
put_entry-tables (some t ∷ ts) (suc d) i w (suc e) = put_entry-tables ts d i w e

get_or_inside : (ws : List ℕ) (i : ℕ) → is_present (get_or ws i 0) ≡ true → i < length ws
get_or_inside [] i p = cc
get_or_inside (w ∷ ws) zero p = omega arith
get_or_inside (w ∷ ws) (suc i) p = omega (arith, get_or_inside ws i p)

-- An entry that is present stands in a table.
pub entry_there :
    (ts : List (Option Table)) (d i : ℕ)
    → All IsFull ts
    → is_present (entry ts d i) ≡ true
    → (is_some (get_or ts d none) ≡ true) × (i < 1024)
unfolding entry
entry_there [] d i full p = cc
entry_there (none ∷ ts) zero i full p = cc
entry_there (some t ∷ ts) zero i (full, _) p =
    (refl, omega (arith, get_or_inside t.entries i p, full))
entry_there (none ∷ ts) (suc d) i (_, full) p = entry_there ts d i full p
entry_there (some t ∷ ts) (suc d) i (_, full) p = entry_there ts d i full p

pub entry-put_entry_ne :
    (ts : List (Option Table)) (d i w e j : ℕ)
    → (d ≢ e) ⊎ (i ≢ j)
    → entry (put_entry ts d i w) e j ≡ entry ts e j
unfolding entry put_entry
entry-put_entry_ne [] d i w e j ne = refl
entry-put_entry_ne (none ∷ ts) zero i w e j ne = refl
entry-put_entry_ne (some t ∷ ts) zero i w zero j (inl ne) = absurd (ne refl)
entry-put_entry_ne (some t ∷ ts) zero i w zero j (inr ne) = get_or-set_ne t.entries w 0 ne
entry-put_entry_ne (some t ∷ ts) zero i w (suc e) j ne = refl
entry-put_entry_ne (none ∷ ts) (suc d) i w zero j ne = refl
entry-put_entry_ne (none ∷ ts) (suc d) i w (suc e) j (inl ne) =
    entry-put_entry_ne ts d i w e j (inl (λ q. ne (ap suc q)))
entry-put_entry_ne (none ∷ ts) (suc d) i w (suc e) j (inr ne) =
    entry-put_entry_ne ts d i w e j (inr ne)
entry-put_entry_ne (some t ∷ ts) (suc d) i w zero j ne = refl
entry-put_entry_ne (some t ∷ ts) (suc d) i w (suc e) j (inl ne) =
    entry-put_entry_ne ts d i w e j (inl (λ q. ne (ap suc q)))
entry-put_entry_ne (some t ∷ ts) (suc d) i w (suc e) j (inr ne) =
    entry-put_entry_ne ts d i w e j (inr ne)

pub entry-put_entry_self :
    (ts : List (Option Table)) (d i w : ℕ)
    → All IsFull ts
    → is_some (get_or ts d none) ≡ true
    → i < 1024
    → entry (put_entry ts d i w) d i ≡ w
unfolding entry put_entry
entry-put_entry_self [] d i w full there lt = cc
entry-put_entry_self (none ∷ ts) zero i w full there lt = cc
entry-put_entry_self (some t ∷ ts) zero i w (full, _) there lt =
    get_or-set_self t.entries i w 0 (omega (arith, full))
entry-put_entry_self (none ∷ ts) (suc d) i w (_, full) there lt =
    entry-put_entry_self ts d i w full there lt
entry-put_entry_self (some t ∷ ts) (suc d) i w (_, full) there lt =
    entry-put_entry_self ts d i w full there lt
