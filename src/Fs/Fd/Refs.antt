-- ===== src/Fs/Fd/Refs.antt =====
-- The references of a process to a file, and the searches for free descriptors and files.
use lambda_linux_kernel.Prelude.{
  ℕ, zero, suc, ◌+◌, ◌≤◌, ◌<◌, ◌≡◌, true, Option, none, some, List, [], ◌∷◌, ◌==◌, if◌then◌else◌,
  is_some, get_or, set, length, arith,
}
use native.Mathlib.Decide.{ℕ_discrete}
use lambda_linux_kernel.Fs.Fd.{File, unused, free_fd, free_file}

abbrev pub one_if : ℕ → ℕ → ℕ
one_if f g = if f == g then 1 else 0

-- How many descriptors stand for the file `f`.
unfoldable pub refs : List (Option ℕ) → ℕ → ℕ
refs [] f = 0
refs (none ∷ os) f = refs os f
refs (some g ∷ os) f = one_if g f + refs os f

pub refs-le-length : (os : List (Option ℕ)) (f : ℕ) → refs os f ≤ length os
unfolding refs
refs-le-length [] f = omega arith
refs-le-length (none ∷ os) f = omega (arith, refs-le-length os f)
refs-le-length (some g ∷ os) f = ground (arith, refs-le-length os f)

pub refs-set-none :
    (os : List (Option ℕ)) (fd f g : ℕ)
    → get_or os fd none ≡ some f
    → refs (set os fd none) g + one_if f g ≡ refs os g
unfolding refs
refs-set-none [] fd f g h = ground arith
refs-set-none (o ∷ os) zero f g h = let e : o ≡ some f = h in rw e (ground arith)
refs-set-none (none ∷ os) (suc fd) f g h = refs-set-none os fd f g h
refs-set-none (some k ∷ os) (suc fd) f g h = ground (arith, refs-set-none os fd f g h)

pub refs-set-some :
    (os : List (Option ℕ)) (fd f g : ℕ)
    → get_or os fd none ≡ none
    → fd < length os
    → refs (set os fd (some f)) g ≡ refs os g + one_if f g
unfolding refs
refs-set-some [] fd f g h lt = absurd (omega arith)
refs-set-some (o ∷ os) zero f g h lt = let e : o ≡ none = h in rw e (ground arith)
refs-set-some (none ∷ os) (suc fd) f g h lt = refs-set-some os fd f g h (omega arith)
refs-set-some (some k ∷ os) (suc fd) f g h lt = ground (arith, refs-set-some os fd f g h)

-- A descriptor that stands for a file is a reference to it.
pub refs_positive : (os : List (Option ℕ)) (fd f : ℕ) → get_or os fd none ≡ some f → 0 < refs os f
unfolding refs
refs_positive [] fd f h = ground arith
refs_positive (o ∷ os) zero f h = let e : o ≡ some f = h in rw e (ground arith)
refs_positive (none ∷ os) (suc fd) f h = refs_positive os fd f h
refs_positive (some k ∷ os) (suc fd) f h = ground (arith, refs_positive os fd f h)

-- The lowest free descriptor: free, and everything below it is taken.
pub free_fd_bounds :
    (rounds : ℕ) (os : List (Option ℕ)) (fd : ℕ)
    → (fd ≤ free_fd rounds os fd) × (free_fd rounds os fd ≤ fd + rounds)
unfolding free_fd
free_fd_bounds zero os fd = omega arith
free_fd_bounds (suc rounds) os fd = ground (arith, free_fd_bounds rounds os (fd + 1))

pub free_fd_free :
    (rounds : ℕ) (os : List (Option ℕ)) (fd : ℕ)
    → free_fd rounds os fd < fd + rounds
    → get_or os (free_fd rounds os fd) none ≡ none
unfolding free_fd
free_fd_free zero os fd h = absurd (omega arith)
free_fd_free (suc rounds) os fd h = ground (arith, free_fd_free rounds os (fd + 1))

pub free_fd_lowest :
    (rounds : ℕ) (os : List (Option ℕ)) (fd i : ℕ)
    → fd ≤ i
    → i < free_fd rounds os fd
    → is_some (get_or os i none) ≡ true
unfolding free_fd
free_fd_lowest zero os fd i lo hi = absurd (omega arith)
free_fd_lowest (suc rounds) os fd i lo hi = elim (ℕ_discrete fd i) [
  | yes e ↦ rw (← e) (ground arith)
  | no ne ↦ ground (arith, free_fd_lowest rounds os (fd + 1) i)
]

pub free_file_bounds :
    (rounds : ℕ) (fs : List File) (f : ℕ)
    → (f ≤ free_file rounds fs f) × (free_file rounds fs f ≤ f + rounds)
unfolding free_file
free_file_bounds zero fs f = omega arith
free_file_bounds (suc rounds) fs f = ground (arith, free_file_bounds rounds fs (f + 1))

pub free_file_free :
    (rounds : ℕ) (fs : List File) (f : ℕ)
    → free_file rounds fs f < f + rounds
    → (get_or fs (free_file rounds fs f) unused).count ≡ 0
unfolding free_file
free_file_free zero fs f h = absurd (omega arith)
free_file_free (suc rounds) fs f h = ground (arith, free_file_free rounds fs (f + 1))
