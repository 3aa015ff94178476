-- ===== src/Prelude/Members.antt =====
-- Members of lists of numbers.
use Prim.Native.Nat.{ℕ}
use mathlib.Core.Path.{◌≡◌, refl}
use mathlib.Core.Bool.{Bool, false, not, ◌&&◌, ◌||◌}
use mathlib.Core.List.{List, [], ◌∷◌, ◌++◌}
use native.Mathlib.Omega.{arith}
use lambda_linux_kernel.Prelude.Tests.{◌==◌, if◌then◌else◌}

abbrev pub elem : ℕ → List ℕ → Bool
elem i [] = false
elem i (j ∷ js) = j == i || elem i js

abbrev pub without : ℕ → List ℕ → List ℕ
without i [] = []
without i (j ∷ js) = if j == i then without i js else j ∷ without i js

pub elem-without : (i j : ℕ) (is : List ℕ) → elem j (without i is) ≡ (elem j is && not (i == j))
elem-without i j [] = refl
elem-without i j (k ∷ is) = ground (arith, elem-without i j is)

pub elem-append : (i : ℕ) (is js : List ℕ) → elem i (is ++ js) ≡ (elem i is || elem i js)
elem-append i [] js = refl
elem-append i (k ∷ is) js = ground (arith, elem-append i is js)
