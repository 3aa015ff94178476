-- ===== src/Fs/Bitmap/Bits.antt =====
-- The search for a free bit, and the bits after one is written.
use lambda_linux_kernel.Prelude.{
  ℕ, zero, suc, ◌+◌, ◌*◌, ◌/◌, ◌%◌, ◌≤◌, ◌<◌, ◌≡◌, ◌≢◌, refl, sym, ◌∙◌, length-set, inl, inr, Bool,
  true, false, ◌&&◌, ◌==◌, Option, none, some, List, [], ◌∷◌, ltb, if◌then◌else◌, get_or, set,
  length, get_or-set_self, get_or-set_ne, arith, All, Bool-cases, ap,
}
use native.Mathlib.Decide.{ℕ_discrete}
use lambda_linux_kernel.Fs.Bitmap.{Map, block_bits, find_first_zero, find_block, put_bit, bit_at}

-- Every block that is there is a whole one.
abbrev pub IsWhole : Option (List Bool) → Type 0
IsWhole none = Unit
IsWhole (some bs) = length bs ≡ block_bits

pub find_first_zero-clear :
    (bs : List Bool) → find_first_zero bs < length bs → get_or bs (find_first_zero bs) true ≡ false
unfolding find_first_zero
find_first_zero-clear [] h = absurd (omega arith)
find_first_zero-clear (true ∷ bs) h = find_first_zero-clear bs (omega arith)
find_first_zero-clear (false ∷ bs) h = refl

pub find_first_zero-set :
    (bs : List Bool) (j : ℕ) → j < find_first_zero bs → get_or bs j true ≡ true
unfolding find_first_zero
find_first_zero-set [] j h = refl
find_first_zero-set (true ∷ bs) zero h = refl
find_first_zero-set (true ∷ bs) (suc j) h = find_first_zero-set bs j (omega arith)
find_first_zero-set (false ∷ bs) j h = absurd (omega arith)

-- A bit found is in its block, and free.
pub find_block-free :
    (ms : Map) (k i j : ℕ)
    → All IsWhole ms
    → find_block ms k ≡ some (i, j)
    → (n : ℕ) × (i ≡ k + n) × (j < block_bits) × (bit_at ms n j ≡ some false)
unfolding find_block bit_at
find_block-free [] k i j w h = absurd (cc)
find_block-free (none ∷ ms) k i j (_, w) h =
    let (n, e, lt, free) = find_block-free ms (k + 1) i j w h in (suc n, omega arith, lt, free)
find_block-free (some bs ∷ ms) k i j (whole, w) h =
    elim (Bool-cases (ltb (find_first_zero bs) block_bits)) [
      | inl e ↦
          let h' : ◌≡◌ {A = Option (ℕ × ℕ)} (some (k, find_first_zero bs)) (some (i, j)) =
            rw e at h in
          let lt : find_first_zero bs < block_bits = ground arith in
          let inside : find_first_zero bs < length bs = omega (arith, whole) in
          let free : get_or bs (find_first_zero bs) true ≡ false =
            find_first_zero-clear bs inside in
          let ei : k ≡ i = cc in
          let ej : find_first_zero bs ≡ j = cc in
          let free' : get_or bs j true ≡ false = rw ej at free in
          (0, omega arith, omega (arith, ej), ap some free')
      | inr e ↦
          let h' : find_block ms (k + 1) ≡ some (i, j) = rw e at h in
          let (n, e', lt, free) = find_block-free ms (k + 1) i j w h' in
          (suc n, omega arith, lt, free)
    ]

-- No bit before the one found is free.
pub find_block-first :
    (ms : Map) (k n j a l : ℕ)
    → All IsWhole ms
    → find_block ms k ≡ some (k + n, j)
    → l < block_bits
    → l + a * block_bits < j + n * block_bits
    → bit_at ms a l ≢ some false
unfolding find_block bit_at
find_block-first [] k n j a l w h lt before f = absurd (cc)
find_block-first (none ∷ ms) k n j zero l w h lt before f = cc
find_block-first (none ∷ ms) k n j (suc a) l (_, w) h lt before f =
    let (n', e, _, _) = find_block-free ms (k + 1) (k + n) j w h in
    let at : k + n ≡ k + 1 + n' = e in
    let h' : find_block ms (k + 1) ≡ some (k + 1 + n', j) = rw at at h in
    find_block-first ms (k + 1) n' j a l w h' lt (omega arith) f
find_block-first (some bs ∷ ms) k n j zero l (whole, w) h lt before f =
    elim (Bool-cases (ltb (find_first_zero bs) block_bits)) [
      | inl e ↦
          let h' : ◌≡◌ {A = Option (ℕ × ℕ)} (some (k, find_first_zero bs)) (some (k + n, j)) =
            rw e at h in
          let ei : k ≡ k + n = cc in
          let ej : find_first_zero bs ≡ j = cc in
          let taken = find_first_zero-set bs l (omega arith) in cc
      | inr e ↦ let taken = find_first_zero-set bs l (ground arith) in cc
    ]
find_block-first (some bs ∷ ms) k n j (suc a) l (whole, w) h lt before f =
    elim (Bool-cases (ltb (find_first_zero bs) block_bits)) [
      | inl e ↦
          let h' : ◌≡◌ {A = Option (ℕ × ℕ)} (some (k, find_first_zero bs)) (some (k + n, j)) =
            rw e at h in
          let ei : k ≡ k + n = cc in
          let ej : find_first_zero bs ≡ j = cc in
          let in_first : find_first_zero bs < block_bits = ground arith in absurd (omega arith)
      | inr e ↦
          let h' : find_block ms (k + 1) ≡ some (k + n, j) = rw e at h in
          let (n', at, _, _) = find_block-free ms (k + 1) (k + n) j w h' in
          let h'' : find_block ms (k + 1) ≡ some (k + 1 + n', j) = rw at at h' in
          find_block-first ms (k + 1) n' j a l w h'' lt (omega arith) f
    ]

find_block-tail :
    (bs : List Bool) (ms : Map) (k : ℕ)
    → find_block (some bs ∷ ms) k ≡ none
    → (block_bits ≤ find_first_zero bs) × (find_block ms (k + 1) ≡ none)
unfolding find_block
find_block-tail bs ms k h = elim (Bool-cases (ltb (find_first_zero bs) block_bits)) [
  | inl e ↦
      let h' : ◌≡◌ {A = Option (ℕ × ℕ)} (some (k, find_first_zero bs)) none = rw e at h in
      absurd (cc)
  | inr e ↦ let h' : find_block ms (k + 1) ≡ none = rw e at h in (ground arith, h')
]

-- With none found every bit of every block that is there is set.
pub find_block-full :
    (ms : Map) (k i j : ℕ) → find_block ms k ≡ none → j < block_bits → bit_at ms i j ≢ some false
unfolding find_block bit_at
find_block-full [] k i j h lt f = cc
find_block-full (none ∷ ms) k zero j h lt f = cc
find_block-full (none ∷ ms) k (suc i) j h lt f = find_block-full ms (k + 1) i j h lt f
find_block-full (some bs ∷ ms) k zero j h lt f =
    let (le, _) = find_block-tail bs ms k h in
    let full = find_first_zero-set bs j (omega arith) in cc
find_block-full (some bs ∷ ms) k (suc i) j h lt f =
    let (_, rest) = find_block-tail bs ms k h in find_block-full ms (k + 1) i j rest lt f

-- The bits after a write to a block that is there.
pub bit_at-put_bit :
    (ms : Map) (i j : ℕ) (v b : Bool) (k l : ℕ)
    → All IsWhole ms
    → bit_at ms i j ≡ some b
    → j < block_bits
    → bit_at (put_bit ms i j v) k l ≡ (if i == k && j == l then some v else bit_at ms k l)
unfolding put_bit bit_at
bit_at-put_bit [] i j v b k l w h lt = absurd (cc)
bit_at-put_bit (none ∷ ms) zero j v b k l w h lt = absurd (cc)
bit_at-put_bit (some bs ∷ ms) zero j v b zero l (whole, w) h lt = elim (ℕ_discrete j l) [
  | yes e ↦
      let g : get_or (set bs j v) l true ≡ v =
        rw (sym e) (get_or-set_self bs j v true (omega arith)) in
      ground arith
  | no ne ↦ let g = get_or-set_ne bs v true ne in ground arith
]
bit_at-put_bit (some bs ∷ ms) zero j v b (suc k) l (whole, w) h lt = ground arith
bit_at-put_bit (none ∷ ms) (suc i) j v b zero l w h lt = ground arith
bit_at-put_bit (some bs ∷ ms) (suc i) j v b zero l w h lt = ground arith
bit_at-put_bit (m ∷ ms) (suc i) j v b (suc k) l (_, w) h lt =
    let rest = bit_at-put_bit ms i j v b k l w h lt in ground arith

pub put_bit-IsWhole :
    (ms : Map) (i j : ℕ) (v : Bool) → All IsWhole ms → All IsWhole (put_bit ms i j v)
unfolding put_bit
put_bit-IsWhole [] i j v w = w
put_bit-IsWhole (none ∷ ms) zero j v w = w
put_bit-IsWhole (some bs ∷ ms) zero j v (whole, w) = (length-set bs j v ∙ whole, w)
put_bit-IsWhole (none ∷ ms) (suc i) j v (_, w) = (tt, put_bit-IsWhole ms i j v w)
put_bit-IsWhole (some bs ∷ ms) (suc i) j v (whole, w) = (whole, put_bit-IsWhole ms i j v w)

-- A bitmap by the number of the bit.
abbrev pub bit_of : Map → ℕ → Option Bool
bit_of ms n = bit_at ms (n / block_bits) (n % block_bits)

-- `ms'` is `ms` with bit `n` now `v`.
abbrev pub IsPut : Map → ℕ → Bool → Map → Type 0
IsPut ms n v ms' = (k : ℕ) → bit_of ms' k ≡ (if n == k then some v else bit_of ms k)

pub put_bit-IsPut :
    (ms : Map) (i j : ℕ) (v b : Bool)
    → All IsWhole ms
    → bit_at ms i j ≡ some b
    → j < block_bits
    → IsPut ms (j + i * block_bits) v (put_bit ms i j v)
put_bit-IsPut ms i j v b w h lt k =
    let at_k = bit_at-put_bit ms i j v b (k / block_bits) (k % block_bits) w h lt in ground arith

-- A free bit is not bit 0 where that is set.
pub free_bit_positive :
    (ms : Map) (i j : ℕ)
    → bit_of ms 0 ≡ some true
    → bit_at ms i j ≡ some false
    → 1 ≤ j + i * block_bits
free_bit_positive ms i j taken free = elim (ℕ_discrete (j + i * block_bits) 0) [
  | yes e ↦
      let ei : i ≡ 0 = omega arith in
      let ej : j ≡ 0 = omega arith in
      let free' : bit_at ms 0 0 ≡ some false = rw (ei, ej) at free in absurd (cc)
  | no ne ↦ omega arith
]

-- A clear bit set and then cleared leaves the bitmap as it was.
pub IsPut-undo :
    (ms ms' ms'' : Map) (n : ℕ)
    → bit_of ms n ≡ some false
    → IsPut ms n true ms'
    → IsPut ms' n false ms''
    → (k : ℕ) → bit_of ms'' k ≡ bit_of ms k
IsPut-undo ms ms' ms'' n free put put' k = elim (ℕ_discrete n k) [
  | yes e ↦ let now = put' k in let free' : bit_of ms k ≡ some false = rw e at free in ground arith
  | no other ↦ let before = put k in let now = put' k in ground arith
]
