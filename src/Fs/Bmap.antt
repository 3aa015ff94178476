-- ===== src/Fs/Bmap.antt =====
-- fs/inode.c: `_bmap`, from the blocks of a file to the zones of its device. The entries of the zones
-- are a function of the zone and the index. What new_block answers in turn is `supply`, each of these
-- zones filled with 0; a zone that cannot be read is told by `readable`, a parameter. An
-- entry is written in the buffer of its zone, which is marked to be written back.
pub mod Tree
pub mod Slots
pub mod Put
pub mod Create
pub mod Enter
pub mod Entries
pub mod Refine
mod Tests
use lambda_linux_kernel.Prelude.{
  ℕ, zero, suc, ◌+◌, ◌-◌, ◌*◌, ◌/◌, ◌%◌, Bool, true, false, not, ◌&&◌, Option, none, some, List, [],
  ◌∷◌, ltb, leb, ◌==◌, if◌then◌else◌, get_or, set,
}

-- The fields of an inode that `_bmap` uses, with the device.
pub record File : Type 0 where
  pub zones : List ℕ
  pub dirt : Bool
  pub ctime : ℕ
  pub entries : ℕ → ℕ → ℕ
  pub supply : List ℕ

abbrev pub zone_of : File → ℕ → ℕ
zone_of s k = get_or s.zones k 0

abbrev pub clear : ℕ → (ℕ → ℕ → ℕ) → ℕ → ℕ → ℕ
clear z entries z' k = if z' == z then 0 else entries z' k

abbrev pub write : (z k w : ℕ) → (ℕ → ℕ → ℕ) → ℕ → ℕ → ℕ
write z k w entries z' k' = if z' == z && k' == k then w else entries z' k'

-- new_block, from what is left of the supply.
abbrev pub zone_from : List ℕ → File → ℕ × File
zone_from [] s = (0, s)
zone_from (z ∷ zs) s = (z, record s { supply = zs; entries = clear z s.entries })

abbrev pub new_zone : File → ℕ × File
new_zone s = zone_from s.supply s

module _ (readable : ℕ → Bool) (now : ℕ) where
  -- A zone number of the inode, made if there is none.
  pub inode_zone : (create : Bool) (k : ℕ) → File → ℕ × File
  inode_zone create k s =
      let (z, s') = new_zone s in
      if create && zone_of s k == 0
      then (
        z,
        if z == 0 then s' else record s' { zones = set s'.zones k z; dirt = true; ctime = now },
      )
      else (zone_of s k, s)

  -- An entry of a zone, made if there is none.
  pub block_entry : (create : Bool) (z k : ℕ) → File → ℕ × File
  block_entry create z k s =
      let (i, s') = new_zone s in
      if not (readable z)
      then (0, s)
      else if create && s.entries z k == 0
      then (i, if i == 0 then s' else record s' { entries = write z k i s'.entries })
      else (s.entries z k, s)

  -- `none` is a panic.
  pub bmap_with : (create : Bool) (block : ℕ) → File → Option (ℕ × File)
  bmap_with create block s =
      let (z7, s7) = inode_zone create 7 s in
      let (z8, s8) = inode_zone create 8 s in
      let (i, s9) = block_entry create z8 ((block - 519) / 512) s8 in
      if leb 262663 block
      then none
      else if ltb block 7
      then some (inode_zone create block s)
      else if ltb block 519
      then some (if z7 == 0 then (0, s7) else block_entry create z7 (block - 7) s7)
      else some (
          if z8 == 0
          then (0, s8)
          else if i == 0
          then (0, s9)
          else block_entry create i ((block - 519) % 512) s9)

  pub bmap : (block : ℕ) → File → Option (ℕ × File)
  bmap = bmap_with false

  pub create_block : (block : ℕ) → File → Option (ℕ × File)
  create_block = bmap_with true
