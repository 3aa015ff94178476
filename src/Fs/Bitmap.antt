-- ===== src/Fs/Bitmap.antt =====
-- fs/bitmap.c: the bitmaps of free inodes and zones. A super block keeps its bitmaps as lists of
-- blocks, a block as the list of its 8192 bits (`none` for a block that is not there). What the buffer
-- cache answers is an argument: the users of a cached buffer. A device has a super block, a new zone
-- a free buffer, and there is a free inode; the first data zone is not zone 0.
pub mod Bits
pub mod Zones
pub mod Inodes
mod Tests
use lambda_linux_kernel.Prelude.{
  ℕ, zero, suc, ◌+◌, ◌-◌, ◌*◌, ◌/◌, ◌%◌, ◌^◌, Bool, true, false, not, ◌&&◌, ◌||◌, Option, none,
  some, List, [], ◌∷◌, ltb, leb, ◌==◌, if◌then◌else◌, get_or, set,
}

abbrev pub block_bits : ℕ
block_bits = 8192

abbrev pub Map : Type 0
Map = List (Option (List Bool))

pub record Super : Type 0 where
  pub ninodes : ℕ
  pub nzones : ℕ
  pub firstdatazone : ℕ
  pub imap : Map
  pub zmap : Map

-- `find_first_zero`: the number of bits if all are set.
pub find_first_zero : List Bool → ℕ
find_first_zero [] = 0
find_first_zero (b ∷ bs) = let next = find_first_zero bs in if b then suc next else 0

-- The loop over the eight blocks: the first with a free bit, and that bit.
pub find_block : Map → ℕ → Option (ℕ × ℕ)
find_block [] i = none
find_block (none ∷ ms) i = find_block ms (i + 1)
find_block (some bs ∷ ms) i =
    let next = find_block ms (i + 1) in
    if ltb (find_first_zero bs) block_bits then some (i, find_first_zero bs) else next

-- `set_bit` and `clear_bit` on block `i`, bit `j`.
pub put_bit : Map → ℕ → ℕ → Bool → Map
put_bit [] i j v = []
put_bit (none ∷ ms) zero j v = none ∷ ms
put_bit (some bs ∷ ms) zero j v = some (set bs j v) ∷ ms
put_bit (m ∷ ms) (suc i) j v = m ∷ put_bit ms i j v

-- The bit of block `i`, if the block is there.
pub bit_at : Map → ℕ → ℕ → Option Bool
bit_at [] i j = none
bit_at (none ∷ ms) zero j = none
bit_at (some bs ∷ ms) zero j = some (get_or bs j true)
bit_at (m ∷ ms) (suc i) j = bit_at ms i j

-- `free_block`: a panic (also where the block of the bitmap is not there, which the code reads
-- through a null pointer), a busy buffer (0), or the freed zone (1) and whether its bit was clear.
pub data Freed : Type 0 where
  panics : Freed
  busy : Freed
  freed : Super → (was_clear : Bool) → Freed

-- `block -= sb->s_firstdatazone - 1`
abbrev pub zone_bit : Super → ℕ → ℕ
zone_bit s block = block + 1 - s.firstdatazone

clear_zone : ℕ → Super → Freed
clear_zone n s = elim (bit_at s.zmap (n / block_bits) (n % block_bits)) [
  | none ↦ panics
  | some b ↦
      freed (record s { zmap = put_bit s.zmap (n / block_bits) (n % block_bits) false }) (not b)
]

-- `users` is `b_count`, a byte, of the cached buffer of the block, if it is cached, before the call;
-- get_hash_table, which finds it, counts it once more.
pub free_block : Option ℕ → ℕ → Super → Freed
free_block users block s =
    if ltb block s.firstdatazone || leb s.nzones block then panics else elim users [
      | some n ↦ if ltb 1 ((n + 1) % 2 ^ 8) then busy else clear_zone (zone_bit s block) s
      | none ↦ clear_zone (zone_bit s block) s
    ]

-- `new_block`: the zone, or 0 for none.
take_zone : ℕ → ℕ → Super → ℕ × Super
take_zone i j s =
    let s' = record s { zmap = put_bit s.zmap i j true } in
    let zone = j + i * block_bits + s.firstdatazone - 1 in
    if leb s.nzones zone then (0, s') else (zone, s')

pub new_block : Super → ℕ × Super
new_block s = elim (find_block s.zmap 0) [ none ↦ (0, s) | some (i, j) ↦ take_zone i j s ]

-- What `new_inode` fills in of a free inode.
pub record Inode : Type 0 where
  pub num : ℕ
  pub dev : ℕ
  pub count : ℕ
  pub nlinks : ℕ
  pub uid : ℕ
  pub gid : ℕ
  pub dirt : Bool
  pub time : ℕ

-- The inode, or `none` where the free inode is given back with `iput`.
take_inode : (dev euid egid now i j : ℕ) → Super → Option Inode × Super
take_inode dev euid egid now i j s = if ltb s.ninodes (j + i * block_bits) then (none, s) else (
  some (record {
    num = j + i * block_bits;
    dev = dev;
    count = 1;
    nlinks = 1;
    uid = euid;
    gid = egid % 2 ^ 8;
    dirt = true;
    time = now;
  }),
  record s { imap = put_bit s.imap i j true },
)

pub new_inode : (dev euid egid now : ℕ) → Super → Option Inode × Super
new_inode dev euid egid now s = elim (find_block s.imap 0) [
  | none ↦ (none, s)
  | some (i, j) ↦ take_inode dev euid egid now i j s
]

-- `free_inode`: a panic, nothing for no inode, an inode that is cleared for one of no device, or
-- the bit cleared too. A bitmap block that is not there is a panic.
pub data Dropped : Type 0 where
  panics : Dropped
  ignored : Dropped
  wiped : Dropped
  dropped : Super → (was_clear : Bool) → Dropped

clear_inode : ℕ → Super → Dropped
clear_inode n s = elim (bit_at s.imap (n / block_bits) (n % block_bits)) [
  | none ↦ panics
  | some b ↦
      dropped (record s { imap = put_bit s.imap (n / block_bits) (n % block_bits) false }) (not b)
]

pub free_inode : Option Inode → Super → Dropped
free_inode none s = ignored
free_inode (some inode) s =
    if inode.dev == 0
    then wiped
    else if ltb 1 inode.count || not (inode.nlinks == 0)
    then panics
    else if ltb inode.num 1 || ltb s.ninodes inode.num
    then panics
    else clear_inode inode.num s
