-- ===== src/Fs/Bmap/Tree.antt =====
-- fs/inode.c: the zones that hold entries, apart from each other and from the zones to come.
use lambda_linux_kernel.Prelude.{
  ℕ, zero, suc, ◌-◌, ◌/◌, ◌%◌, ◌≡◌, ◌≢◌, Bool, List, [], ◌∷◌, false, ◌⊎◌, ltb, ◌==◌, if◌then◌else◌,
  length, All,
}
use lambda_linux_kernel.Fs.Bmap.{File, zone_of}

-- The first indirect zone, the second one, and the zones of its entries; 0 is none.
abbrev pub node : File → ℕ → ℕ
node s zero = zone_of s 7
node s (suc zero) = zone_of s 8
node s (suc (suc j)) = if zone_of s 8 == 0 then 0 else s.entries (zone_of s 8) j

abbrev pub IsApart : List ℕ → Type 0
IsApart [] = Unit
IsApart (z ∷ zs) = All (λ y. y ≢ z) zs × IsApart zs

abbrev pub IsFresh : File → ℕ → Type 0
IsFresh s z = (z ≢ 0) × ((r : ℕ) → node s r ≢ z)

pub record IsTree (s : File) : Type 0 where
  pub size : length s.zones ≡ 9
  pub sep : (r r' : ℕ) → node s r ≡ node s r' → node s r ≢ 0 → r ≡ r'
  pub fresh : All (IsFresh s) s.supply
  pub apart : IsApart s.supply

module _ (readable : ℕ → Bool) where
  -- No zone is left to supply, or a zone of entries of the file cannot be read.
  abbrev pub IsShort : File → Type 0
  IsShort s = (s.supply ≡ []) ⊎ ((r : ℕ) × (node s r ≢ 0) × (readable (node s r) ≡ false))

  -- An entry that can be read, or 0.
  abbrev pub entry : File → (z k : ℕ) → ℕ
  entry s z k = if z == 0 then 0 else if readable z then s.entries z k else 0

  -- The zone of a block, or 0.
  abbrev pub found : File → ℕ → ℕ
  found s block =
      if ltb block 7
      then zone_of s block
      else if ltb block 519
      then entry s (zone_of s 7) (block - 7)
      else entry s (entry s (zone_of s 8) ((block - 519) / 512)) ((block - 519) % 512)
