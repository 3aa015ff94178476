-- ===== src/Fs/Bitmap/Inodes.antt =====
-- `new_inode` and `free_inode` on the numbers of inodes.
use lambda_linux_kernel.Prelude.{
  ℕ, ◌+◌, ◌*◌, ◌/◌, ◌%◌, ◌^◌, ◌≤◌, ◌<◌, ◌≡◌, ◌≢◌, refl, subst, inl, inr, Bool, true, false, not,
  ◌||◌, Option, none, some, ltb, ◌==◌, arith, All, Bool-cases, Option-cases,
}
use lambda_linux_kernel.Fs.Bitmap.{
  block_bits, Super, Map, Inode, find_block, put_bit, bit_at, dropped, clear_inode, free_inode,
  take_inode, new_inode,
}
use lambda_linux_kernel.Fs.Bitmap.Bits.{
  IsWhole, find_block-free, find_block-first, find_block-full, put_bit-IsWhole, bit_of, IsPut,
  put_bit-IsPut, free_bit_positive, IsPut-undo,
}

-- The inode that a call for these arguments hands out under a number.
abbrev pub fresh : (dev euid egid now num : ℕ) → Inode
fresh dev euid egid now num = record {
  num = num;
  dev = dev;
  count = 1;
  nlinks = 1;
  uid = euid;
  gid = egid % 2 ^ 8;
  dirt = true;
  time = now;
}

-- The bit of a number is clear, and that of no smaller one.
abbrev pub IsFirst : Map → ℕ → Type 0
IsFirst ms num = (bit_of ms num ≡ some false) × ((k : ℕ) → k < num → bit_of ms k ≢ some false)

-- What `new_inode` can come to, for super blocks with bit 0 of the inode map set.
pub data NewInode (dev euid egid now : ℕ) (s : Super) : Option Inode × Super → Type 0 where
  none_free : ((n : ℕ) → bit_of s.imap n ≢ some false) → NewInode dev euid egid now s (none, s)
  -- the first clear bit is past the last inode
  past_end :
      (num : ℕ) → s.ninodes < num → IsFirst s.imap num → NewInode dev euid egid now s (none, s)
  taken :
      (num : ℕ) (imap : Map)
      → 1 ≤ num
      → num ≤ s.ninodes
      → IsFirst s.imap num
      → IsPut s.imap num true imap
      → All IsWhole imap
      → NewInode dev euid egid now s (some (fresh dev euid egid now num), record s { imap = imap })

-- An inode map with whole blocks and bit 0, which stands for no inode, set.
pub record IsSound (s : Super) : Type 0 where
  pub whole : All IsWhole s.imap
  pub bit_zero : bit_of s.imap 0 ≡ some true

take_inode-NewInode :
    (dev euid egid now : ℕ) (s : Super) (i j : ℕ)
    → IsSound s
    → j < block_bits
    → bit_at s.imap i j ≡ some false
    → ((k : ℕ) → k < j + i * block_bits → bit_of s.imap k ≢ some false)
    → NewInode dev euid egid now s (take_inode dev euid egid now i j s)
unfolding take_inode
take_inode-NewInode dev euid egid now s i j sound lt free first =
    let m' = put_bit s.imap i j true in
    let n : (j + i * block_bits) / block_bits ≡ i = omega arith in
    let r : (j + i * block_bits) % block_bits ≡ j = omega arith in
    let free' : bit_of s.imap (j + i * block_bits) ≡ some false = rw n (rw r free) in
    let from = free_bit_positive s.imap i j sound.bit_zero free in
    let put = put_bit-IsPut s.imap i j true false sound.whole free lt in
    let whole = put_bit-IsWhole s.imap i j true sound.whole in
    elim (Bool-cases (ltb s.ninodes (j + i * block_bits))) [
      | inl e ↦ rw e (past_end (j + i * block_bits) (ground arith) (free', first))
      | inr e ↦ rw e (taken (j + i * block_bits) m' from (ground arith) (free', first) put whole)
    ]

-- On a super block with whole bitmap blocks and bit 0 of the inode map set, new_inode takes the
-- first clear bit, which is from 1 to the number of inodes, sets it and no other, and returns the
-- inode of that number with one user and one link, owned by the effective user and by the low 8
-- bits of the effective group; or it returns none and changes nothing, no bit being clear or the
-- first clear one being past the last inode.
pub new_inode-NewInode :
    (dev euid egid now : ℕ) (s : Super)
    → IsSound s
    → NewInode dev euid egid now s (new_inode dev euid egid now s)
unfolding new_inode
new_inode-NewInode dev euid egid now s sound = elim (Option-cases (find_block s.imap 0)) [
  | inl e ↦
      rw (e, new_inode)
        (none_free
          (λ n. find_block-full s.imap 0 (n / block_bits) (n % block_bits) e (omega arith)))
  | inr ((i, j), e) ↦
      let (n, ei, lt, free) = find_block-free s.imap 0 i j sound.whole e in
      let ei' : n ≡ i = omega arith in
      let e' : find_block s.imap 0 ≡ some (0 + i, j) =
        let at : 0 + i ≡ i = omega arith in rw at e in
      rw (e, new_inode)
        (take_inode-NewInode dev euid egid now s i j sound lt (rw ei' at free) (λ k before.
          find_block-first s.imap 0 i j (k / block_bits) (k % block_bits) sound.whole e'
            (omega arith) (omega arith)))
]

clear_inode-dropped :
    (s : Super) (n : ℕ) (b : Bool)
    → All IsWhole s.imap
    → bit_of s.imap n ≡ some b
    → (imap : Map) × (clear_inode n s ≡ dropped (record s { imap = imap }) (not b))
      × IsPut s.imap n false imap
unfolding clear_inode
clear_inode-dropped s n b whole at_n =
    let i = n / block_bits in
    let j = n % block_bits in
    let number : j + i * block_bits ≡ n = omega arith in
    let put : IsPut s.imap n false (put_bit s.imap i j false) =
      subst (λ m. IsPut s.imap m false (put_bit s.imap i j false)) number
        (put_bit-IsPut s.imap i j false b whole at_n (omega arith)) in
    (put_bit s.imap i j false, rw (at_n, clear_inode) refl, put)

-- Freed once it has no links left, the inode goes back to the map it was taken from.
abbrev pub GivesBack : Super → Option Inode × Super → Type 0
GivesBack s (none, s') = s' ≡ s
GivesBack s (some inode, s') =
    (imap : Map) × (free_inode (some (record inode { nlinks = 0 })) s'
      ≡ dropped (record s { imap = imap }) false)
    × ((n : ℕ) → bit_of imap n ≡ bit_of s.imap n)

NewInode-GivesBack :
    (dev euid egid now : ℕ) (s : Super) (r : Option Inode × Super)
    → 1 ≤ dev
    → NewInode dev euid egid now s r
    → GivesBack s r
unfolding free_inode
NewInode-GivesBack dev euid egid now s r d (none_free _) = refl
NewInode-GivesBack dev euid egid now s r d (past_end _ _ _) = refl
NewInode-GivesBack dev euid egid now s r d (taken num imap lo hi (free, _) put whole) =
    let at_num = put num in
    let set_now : bit_of imap num ≡ some true = ground arith in
    let (imap', e, put') = clear_inode-dropped (record s { imap = imap }) num true whole set_now in
    let real : (dev == 0) ≡ false = ground arith in
    let inside : (ltb num 1 || ltb s.ninodes num) ≡ false = ground arith in
    (imap', rw real (rw inside e), IsPut-undo s.imap imap imap' num free put put')

-- On such a super block of a device other than 0, an inode that new_inode returns is freed by
-- free_inode, once it has no links, with no panic or complaint, and every bit of the inode map is
-- again as before; if new_inode returns none it leaves the super block as it was.
pub new_inode-GivesBack :
    (dev euid egid now : ℕ) (s : Super)
    → IsSound s
    → 1 ≤ dev
    → GivesBack s (new_inode dev euid egid now s)
new_inode-GivesBack dev euid egid now s sound d =
    NewInode-GivesBack dev euid egid now s (new_inode dev euid egid now s) d
      (new_inode-NewInode dev euid egid now s sound)
