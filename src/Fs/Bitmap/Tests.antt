-- ===== src/Fs/Bitmap/Tests.antt =====
-- The theorems on bitmaps at a small disk.
use lambda_linux_kernel.Prelude.{
  ◌≡◌, refl, Bool, true, false, none, some, List, [], ◌∷◌, replicate, length-replicate, arith,
}
use lambda_linux_kernel.Fs.Bitmap.{
  Super, new_block, find_block, find_first_zero, bit_at, new_inode, take_zone,
}
use lambda_linux_kernel.Fs.Bitmap.Bits.{IsWhole}
use lambda_linux_kernel.Fs.Bitmap.Zones
use lambda_linux_kernel.Fs.Bitmap.Inodes

-- One block, its first `n` bits set of `n + m`.
abbrev block : List Bool
block = true ∷ true ∷ true ∷ replicate 8189 false

abbrev disk : Super
disk = record {
  ninodes = 100;
  nzones = 200;
  firstdatazone = 10;
  imap = some block ∷ none ∷ [];
  zmap = some block ∷ none ∷ [];
}

block-IsWhole : IsWhole (some block)
block-IsWhole = omega (arith, length-replicate 8189 false)

zones-IsSound : Zones.IsSound disk
unfolding bit_at
zones-IsSound = record {
  whole = (block-IsWhole, (tt, tt));
  first_positive = omega arith;
  bit_zero = refl;
}

inodes-IsSound : Inodes.IsSound disk
unfolding bit_at
inodes-IsSound = record { whole = (block-IsWhole, (tt, tt)); bit_zero = refl }

-- Bit 3 is the third zone after the first data zone.
gives_zone : (new_block disk).0 ≡ 12
unfolding new_block find_block find_first_zero take_zone
gives_zone = refl

new_block-NewZone_example : Zones.NewZone disk (new_block disk)
new_block-NewZone_example = Zones.new_block-NewZone disk zones-IsSound

new_block-GivesBack_example : Zones.GivesBack (some 0) disk (new_block disk)
new_block-GivesBack_example =
    Zones.new_block-GivesBack (some 0) disk zones-IsSound refl (λ e. omega (arith, gives_zone))

new_inode-NewInode_example : Inodes.NewInode 769 0 0 5 disk (new_inode 769 0 0 5 disk)
new_inode-NewInode_example = Inodes.new_inode-NewInode 769 0 0 5 disk inodes-IsSound

new_inode-GivesBack_example : Inodes.GivesBack disk (new_inode 769 0 0 5 disk)
new_inode-GivesBack_example = Inodes.new_inode-GivesBack 769 0 0 5 disk inodes-IsSound (omega arith)
