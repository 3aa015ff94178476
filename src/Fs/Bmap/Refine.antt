-- ===== src/Fs/Bmap/Refine.antt =====
-- fs/inode.c: create_block and bmap on the map from blocks to zones.
use lambda_linux_kernel.Prelude.{
  ℕ, ◌-◌, ◌/◌, ◌%◌, ◌<◌, ◌≡◌, ◌≢◌, refl, Bool, true, false, ◌&&◌, Option, none, some, ltb, leb,
  ◌==◌, if◌then◌else◌, arith, inl, inr, ◌∙◌, sym, Bool-cases, ap,
}
use native.Mathlib.Decide.{ℕ_discrete}
use lambda_linux_kernel.Fs.Bmap.{
  File, zone_of, inode_zone, block_entry, bmap_with, bmap, create_block,
}
use lambda_linux_kernel.Fs.Bmap.Tree.{IsTree, IsShort, entry, found}
use lambda_linux_kernel.Fs.Bmap.Create.{IsEntered, IsMade, inode_zone-IsMade}
use lambda_linux_kernel.Fs.Bmap.Enter.{Placed, block_entry-Placed, after-IsEntered}
use lambda_linux_kernel.Fs.Bmap.Entries.{
  IsIndexed, second-IsIndexed, first-IsEntered, third-IsEntered, nothing-IsEntered, made_map,
}

-- The answer and the file that a call leaves.
abbrev pub Returns : (ℕ → File → Type 0) → Option (ℕ × File) → Type 0
Returns P none = ⊥
Returns P (some (z, s')) = P z s'

module _ (readable : ℕ → Bool) (now : ℕ) (block : ℕ) (s : File) (t : IsTree s) where
  direct-IsEntered :
      ltb block 7 ≡ true
      → (let r = inode_zone readable now true block s in IsEntered readable block s r.0 r.1)
  direct-IsEntered near =
      let r = inode_zone readable now true block s in
      let m = inode_zone-IsMade readable now block s t (ground arith) in
      record {
        tree = m.tree;
        map = λ b.
            let same : (ltb b 7 && b == block) ≡ (b == block) = ground arith in
            m.map b ∙ rw same refl;
        kept = rw near m.kept;
        given = λ q. inl (m.given q);
      }

  single-IsEntered :
      (z : ℕ) (s' : File)
      → ltb block 7 ≡ false
      → ltb block 519 ≡ true
      → IsMade readable 7 s z s'
      → (let r = if z == 0 then (0, s') else block_entry readable now true z (block - 7) s' in
          IsEntered readable block s r.0 r.1)
  single-IsEntered z s' far near m = elim (ℕ_discrete z 0) [
    | yes full ↦
        let hit : (z == 0) ≡ true = ground arith in
        let empty : zone_of s' 7 ≡ 0 = m.there ∙ full in
        let free : found readable s' block ≡ 0 = rw (far, near) (rw empty refl) in
        rw hit (
          after-IsEntered readable block s s' s' 0 (made_map readable 7 s z s' (omega arith) m)
            (nothing-IsEntered readable block s' m.tree free (inl (m.given full))))
    | no ne ↦
        let miss : (z == 0) ≡ false = ground arith in
        let (w, s'') = block_entry readable now true z (block - 7) s' in
        let p : Placed readable (zone_of s' 7) (block - 7) s' m.tree w s'' =
          rw m.there (block_entry-Placed readable now z (block - 7) s' m.tree ne) in
        let nz : zone_of s' 7 ≢ 0 = λ q. ne (sym m.there ∙ q) in
        rw miss (
          after-IsEntered readable block s s' s'' w (made_map readable 7 s z s' (omega arith) m)
            (first-IsEntered readable block s' m.tree w s'' far near nz p))
  ]

  last-IsEntered :
      (s' : File) (i : ℕ) (s'' : File)
      → ltb block 519 ≡ false
      → ((b : ℕ) → found readable s' b ≡ found readable s b)
      → IsIndexed readable ((block - 519) / 512) s' i s''
      → (let r =
            if i == 0
            then (0, s'')
            else block_entry readable now true i ((block - 519) % 512) s'' in
          IsEntered readable block s r.0 r.1)
  last-IsEntered s' i s'' far before x =
      let beyond : ltb block 7 ≡ false = ground arith in
      let same : (b : ℕ) → found readable s'' b ≡ found readable s b = λ b. x.map b ∙ before b in
      elim (ℕ_discrete i 0) [
        | yes full ↦
            let hit : (i == 0) ≡ true = ground arith in
            let empty : entry readable s'' (zone_of s'' 8) ((block - 519) / 512) ≡ 0 =
              x.there ∙ full in
            let free : found readable s'' block ≡ 0 = rw (far, beyond) (rw empty refl) in
            rw hit (
              after-IsEntered readable block s s'' s'' 0 same
                (nothing-IsEntered readable block s'' x.tree free (x.given full)))
        | no ne ↦
            let miss : (i == 0) ≡ false = ground arith in
            let (w, s3) = block_entry readable now true i ((block - 519) % 512) s'' in
            let p : Placed readable (entry readable s'' (zone_of s'' 8) ((block - 519) / 512))
                ((block - 519) % 512) s'' x.tree w s3 =
              rw x.there (block_entry-Placed readable now i ((block - 519) % 512) s'' x.tree ne) in
            rw miss (
              after-IsEntered readable block s s'' s3 w same
                (third-IsEntered readable block s'' x.tree w s3 far (λ q. ne (sym x.there ∙ q)) p))
      ]

  double-IsEntered :
      (z : ℕ) (s' : File)
      → ltb block 519 ≡ false
      → IsMade readable 8 s z s'
      → (let (i, s'') = block_entry readable now true z ((block - 519) / 512) s' in
          let r =
            if z == 0
            then (0, s')
            else if i == 0
            then (0, s'')
            else block_entry readable now true i ((block - 519) % 512) s'' in
          IsEntered readable block s r.0 r.1)
  double-IsEntered z s' far m =
      let same = made_map readable 8 s z s' (omega arith) m in
      elim (ℕ_discrete z 0) [
        | yes full ↦
            let hit : (z == 0) ≡ true = ground arith in
            let beyond : ltb block 7 ≡ false = ground arith in
            let empty : zone_of s' 8 ≡ 0 = m.there ∙ full in
            let free : found readable s' block ≡ 0 = rw (far, beyond) (rw empty refl) in
            rw hit (
              after-IsEntered readable block s s' s' 0 same
                (nothing-IsEntered readable block s' m.tree free (inl (m.given full))))
        | no ne ↦
            let miss : (z == 0) ≡ false = ground arith in
            let (i, s'') = block_entry readable now true z ((block - 519) / 512) s' in
            let p : Placed readable (zone_of s' 8) ((block - 519) / 512) s' m.tree i s'' =
              rw m.there (block_entry-Placed readable now z ((block - 519) / 512) s' m.tree ne) in
            let nz : zone_of s' 8 ≢ 0 = λ q. ne (sym m.there ∙ q) in
            rw miss (
              last-IsEntered s' i s'' far same
                (second-IsIndexed readable ((block - 519) / 512) s' m.tree i s'' nz p))
      ]

  create_block-Returns :
      block < 262663 → Returns (IsEntered readable block s) (create_block readable now block s)
  unfolding create_block bmap_with
  create_block-Returns lt =
      let inside : leb 262663 block ≡ false = ground arith in
      rw inside (elim (Bool-cases (ltb block 7)) [
        | inl near ↦ rw near (direct-IsEntered near)
        | inr far ↦ rw far (elim (Bool-cases (ltb block 519)) [
          | inl single ↦
              rw single (
                single-IsEntered _ _ far single
                  (inode_zone-IsMade readable now 7 s t (omega arith)))
          | inr double ↦
              rw double
                (double-IsEntered _ _ double (inode_zone-IsMade readable now 8 s t (omega arith)))
        ])
      ])

-- bmap is a map from blocks to zones, 0 for none, and create_block enters the block in it with the
-- zone `z`: the one that was there, if there was one.
pub record IsMapped (readable : ℕ → Bool) (now block : ℕ) (s : File) (z : ℕ) (s' : File)
    : Type 0 where
  pub tree : IsTree s'
  pub before : (b : ℕ) → b < 262663 → bmap readable now b s ≡ some (found readable s b, s)
  pub after :
      (b : ℕ)
      → b < 262663
      → bmap readable now b s' ≡ some (if b == block then z else found readable s b, s')
  pub kept : found readable s block ≢ 0 → z ≡ found readable s block
  -- no zone comes of it only where new_block has none left or a zone of entries cannot be read
  pub given : z ≡ 0 → IsShort readable s'

-- A zone of entries is read, if there is one.
block_entry-read :
    (readable : ℕ → Bool) (now z k : ℕ) (s : File)
    → (z == 0) ≡ false
    → block_entry readable now false z k s ≡ (entry readable s z k, s)
unfolding block_entry
block_entry-read readable now z k s e = elim (Bool-cases (readable z)) [
  | inl r ↦ rw (e, r) refl
  | inr r ↦ rw (e, r) refl
]

block_entry-entry :
    (readable : ℕ → Bool) (now z k : ℕ) (s : File)
    → (if z == 0 then (0, s) else block_entry readable now false z k s) ≡ (entry readable s z k, s)
block_entry-entry readable now z k s = elim (Bool-cases (z == 0)) [
  | inl e ↦ rw e refl
  | inr e ↦ rw (block_entry-read readable now z k s e) (rw e refl)
]

bmap-double :
    (readable : ℕ → Bool) (now z j k : ℕ) (s : File)
    → (let (i, s') = block_entry readable now false z j s in
        if z == 0
        then (0, s)
        else if i == 0
        then (0, s')
        else block_entry readable now false i k s')
      ≡ (entry readable s (entry readable s z j) k, s)
bmap-double readable now z j k s = elim (Bool-cases (z == 0)) [
  | inl e ↦ rw e refl
  | inr e ↦
      rw (block_entry-read readable now z j s e)
        (rw (block_entry-entry readable now (entry readable s z j) k s) (rw e refl))
]

bmap-found :
    (readable : ℕ → Bool) (now b : ℕ) (s : File)
    → b < 262663
    → bmap readable now b s ≡ some (found readable s b, s)
unfolding bmap bmap_with inode_zone
bmap-found readable now b s lt =
    let inside : leb 262663 b ≡ false = ground arith in
    rw inside (elim (Bool-cases (ltb b 7)) [
      | inl near ↦ rw near refl
      | inr far ↦ rw far (elim (Bool-cases (ltb b 519)) [
        | inl single ↦ rw single (ap some (block_entry-entry readable now (zone_of s 7) (b - 7) s))
        | inr double ↦
            rw double (
              ap some
                (bmap-double readable now (zone_of s 8) ((b - 519) / 512) ((b - 519) % 512) s))
      ])
    ])

-- In a file whose zones of entries are apart from each other and from the zones to come, for a
-- block below 7+512+512*512, bmap is a map from blocks to zones, 0 for none, that leaves the file
-- alone, and create_block returns, keeps these zones apart, and changes that map at the block
-- only, to the zone it returns: the one that was there if there was one, and 0 only if new_block has
-- no zone left or a zone of entries of the file cannot be read.
pub create_block-IsMapped :
    (readable : ℕ → Bool) (now block : ℕ) (s : File)
    → IsTree s
    → block < 262663
    → Returns (IsMapped readable now block s) (create_block readable now block s)
create_block-IsMapped readable now block s t lt =
    mapped (create_block readable now block s) (create_block-Returns readable now block s t lt)
  where
    mapped :
        (r : Option (ℕ × File))
        → Returns (IsEntered readable block s) r
        → Returns (IsMapped readable now block s) r
    mapped none h = h
    mapped (some (z, s')) n = record {
      tree = n.tree;
      before = λ b lt_b. bmap-found readable now b s lt_b;
      after = λ b lt_b. bmap-found readable now b s' lt_b ∙ ap (λ x. some (x, s')) (n.map b);
      kept = n.kept;
      given = n.given;
    }
