-- ===== src/Fs/Bitmap/Zones.antt =====
-- `new_block` and `free_block` on the numbers of zones.
use lambda_linux_kernel.Prelude.{
  ℕ, ◌+◌, ◌-◌, ◌*◌, ◌/◌, ◌%◌, ◌^◌, ◌≤◌, ◌<◌, ◌≡◌, ◌≢◌, refl, subst, inl, inr, Bool, true, false,
  not, ◌||◌, Option, none, some, ltb, leb, arith, All, Bool-cases, Option-cases,
}
use lambda_linux_kernel.Fs.Bitmap.{
  block_bits, Super, Map, find_block, put_bit, bit_at, freed, zone_bit, clear_zone, free_block,
  take_zone, new_block,
}
use lambda_linux_kernel.Fs.Bitmap.Bits.{
  IsWhole, find_block-free, find_block-full, put_bit-IsWhole, bit_of, IsPut, put_bit-IsPut,
  free_bit_positive, IsPut-undo,
}

-- A super block with whole bitmap blocks, and bit 0, which stands for no zone, set.
pub record IsSound (s : Super) : Type 0 where
  pub whole : All IsWhole s.zmap
  pub first_positive : 1 ≤ s.firstdatazone
  pub bit_zero : bit_of s.zmap 0 ≡ some true

-- What `new_block` can come to.
pub data NewZone (s : Super) : ℕ × Super → Type 0 where
  none_free : ((n : ℕ) → bit_of s.zmap n ≢ some false) → NewZone s (0, s)
  -- a bit past the end of the device is set and stays so
  past_end :
      (zone : ℕ) (zmap : Map)
      → s.nzones ≤ zone
      → bit_of s.zmap (zone_bit s zone) ≡ some false
      → IsPut s.zmap (zone_bit s zone) true zmap
      → NewZone s (0, record s { zmap = zmap })
  new_zone :
      (zone : ℕ) (zmap : Map)
      → s.firstdatazone ≤ zone
      → zone < s.nzones
      → bit_of s.zmap (zone_bit s zone) ≡ some false
      → IsPut s.zmap (zone_bit s zone) true zmap
      → All IsWhole zmap
      → NewZone s (zone, record s { zmap = zmap })

zone_of : Super → ℕ → ℕ → ℕ
zone_of s i j = j + i * block_bits + s.firstdatazone - 1

-- The zone of a free bit: its number, and the bit of that number.
zone_of_free :
    (s : Super) (i j : ℕ)
    → IsSound s
    → j < block_bits
    → bit_at s.zmap i j ≡ some false
    → (s.firstdatazone ≤ zone_of s i j) × (zone_bit s (zone_of s i j) ≡ j + i * block_bits)
unfolding zone_of
zone_of_free s i j sound lt free =
    let from = free_bit_positive s.zmap i j sound.bit_zero free in
    let pos = sound.first_positive in (omega arith, omega arith)

take_zone-NewZone :
    (s : Super) (i j : ℕ)
    → IsSound s
    → j < block_bits
    → bit_at s.zmap i j ≡ some false
    → NewZone s (take_zone i j s)
unfolding take_zone zone_of
take_zone-NewZone s i j sound lt free =
    let (from, number) = zone_of_free s i j sound lt free in
    let m' = put_bit s.zmap i j true in
    let n : (j + i * block_bits) / block_bits ≡ i = omega arith in
    let r : (j + i * block_bits) % block_bits ≡ j = omega arith in
    let free' : bit_of s.zmap (zone_bit s (zone_of s i j)) ≡ some false =
      rw number (rw n (rw r free)) in
    let put : IsPut s.zmap (zone_bit s (zone_of s i j)) true m' =
      rw number (put_bit-IsPut s.zmap i j true false sound.whole free lt) in
    elim (Bool-cases (leb s.nzones (zone_of s i j))) [
      | inl e ↦ rw e (past_end (zone_of s i j) m' (ground arith) free' put)
      | inr e ↦ rw e (
          new_zone (zone_of s i j) m' from (ground arith) free' put
            (put_bit-IsWhole s.zmap i j true sound.whole))
    ]

-- On a super block with whole bitmap blocks, a positive first data zone and bit 0 set, new_block
-- returns a zone of the data zones whose bit was clear, and sets that bit and no other; or it
-- returns 0 and changes nothing, no bit being clear; or it returns 0 and sets the bit of a zone
-- past the end of the device.
pub new_block-NewZone : (s : Super) → IsSound s → NewZone s (new_block s)
unfolding new_block
new_block-NewZone s sound = elim (Option-cases (find_block s.zmap 0)) [
  | inl e ↦
      rw (e, new_block)
        (none_free
          (λ n. find_block-full s.zmap 0 (n / block_bits) (n % block_bits) e (omega arith)))
  | inr ((i, j), e) ↦
      let (n, ei, lt, free) = find_block-free s.zmap 0 i j sound.whole e in
      let ei' : n ≡ i = omega arith in
      rw (e, new_block) (take_zone-NewZone s i j sound lt (rw ei' at free))
]

-- A cached buffer of the block, if there is one, has no user.
abbrev pub IsUnused : Option ℕ → Type 0
IsUnused none = Unit
IsUnused (some n) = n ≡ 0

clear_zone-freed :
    (s : Super) (n : ℕ) (b : Bool)
    → All IsWhole s.zmap
    → bit_of s.zmap n ≡ some b
    → (zmap : Map) × (clear_zone n s ≡ freed (record s { zmap = zmap }) (not b))
      × IsPut s.zmap n false zmap
unfolding clear_zone
clear_zone-freed s n b whole at_n =
    let i = n / block_bits in
    let j = n % block_bits in
    let number : j + i * block_bits ≡ n = omega arith in
    let put : IsPut s.zmap n false (put_bit s.zmap i j false) =
      subst (λ m. IsPut s.zmap m false (put_bit s.zmap i j false)) number
        (put_bit-IsPut s.zmap i j false b whole at_n (omega arith)) in
    (put_bit s.zmap i j false, rw (at_n, clear_zone) refl, put)

pub free_block-freed :
    (users : Option ℕ) (block : ℕ) (s : Super) (b : Bool)
    → All IsWhole s.zmap
    → IsUnused users
    → s.firstdatazone ≤ block
    → block < s.nzones
    → bit_of s.zmap (zone_bit s block) ≡ some b
    → (zmap : Map) × (free_block users block s ≡ freed (record s { zmap = zmap }) (not b))
      × IsPut s.zmap (zone_bit s block) false zmap
unfolding free_block
free_block-freed none block s b whole alone lo hi at_n =
    let inside : (ltb block s.firstdatazone || leb s.nzones block) ≡ false = ground arith in
    let (zmap, e, put) = clear_zone-freed s (zone_bit s block) b whole at_n in
    (zmap, rw inside e, put)
free_block-freed (some n) block s b whole alone lo hi at_n =
    let inside : (ltb block s.firstdatazone || leb s.nzones block) ≡ false = ground arith in
    let one : ltb 1 ((n + 1) % 2 ^ 8) ≡ false = rw alone refl in
    let (zmap, e, put) = clear_zone-freed s (zone_bit s block) b whole at_n in
    (zmap, rw inside (rw one e), put)

-- What gives a zone back to the bitmap it was taken from.
abbrev pub GivesBack : Option ℕ → Super → ℕ × Super → Type 0
GivesBack users s (zone, s') =
    (zmap : Map) × (free_block users zone s' ≡ freed (record s { zmap = zmap }) false)
    × ((n : ℕ) → bit_of zmap n ≡ bit_of s.zmap n)

NewZone-GivesBack :
    (users : Option ℕ) (s : Super) (r : ℕ × Super)
    → IsUnused users
    → NewZone s r
    → r.0 ≢ 0
    → GivesBack users s r
NewZone-GivesBack users s r alone (none_free _) ne = absurd (ne refl)
NewZone-GivesBack users s r alone (past_end _ _ _ _ _) ne = absurd (ne refl)
NewZone-GivesBack users s r alone (new_zone zone zmap lo hi free put whole) ne =
    let at_zone = put (zone_bit s zone) in
    let taken : bit_of zmap (zone_bit s zone) ≡ some true = ground arith in
    let (zmap', e, put') =
      free_block-freed users zone (record s { zmap = zmap }) true whole alone lo hi taken in
    (zmap', e, IsPut-undo s.zmap zmap zmap' (zone_bit s zone) free put put')

-- On such a super block a zone that new_block returns, freed while nobody uses its buffer in the
-- cache, is freed by free_block with no complaint, and every bit of the zone map is again as
-- before.
pub new_block-GivesBack :
    (users : Option ℕ) (s : Super)
    → IsSound s
    → IsUnused users
    → (new_block s).0 ≢ 0
    → GivesBack users s (new_block s)
new_block-GivesBack users s sound alone ne =
    NewZone-GivesBack users s (new_block s) alone (new_block-NewZone s sound) ne
