-- ===== src/Fs/Bmap/Create.antt =====
-- fs/inode.c: the zone numbers of the inode, in create_block.
use lambda_linux_kernel.Prelude.{
  ℕ, ◌<◌, ◌≡◌, ◌≢◌, refl, Bool, true, false, ◌&&◌, List, [], ◌∷◌, ltb, ◌==◌, if◌then◌else◌,
  get_or-set_self, All, arith, inl, inr, Bool-cases, ap,
}
use native.Mathlib.Decide.{ℕ_discrete}
use lambda_linux_kernel.Fs.Bmap.{File, zone_of, clear, new_zone, zone_from, inode_zone}
use lambda_linux_kernel.Fs.Bmap.Tree.{IsTree, IsFresh, IsShort, found}
use lambda_linux_kernel.Fs.Bmap.Slots.{z-IsFresh, with_zone, with_zone-IsTree, found-with_zone}

module _ (readable : ℕ → Bool) where
  -- The map from blocks to zones has `z` at the block, which is what was there if it was not 0.
  pub record IsEntered (block : ℕ) (s : File) (z : ℕ) (s' : File) : Type 0 where
    pub tree : IsTree s'
    pub map : (b : ℕ) → found readable s' b ≡ (if b == block then z else found readable s b)
    pub kept : found readable s block ≢ 0 → z ≡ found readable s block
    pub given : z ≡ 0 → IsShort readable s'

  pub record IsMade (k : ℕ) (s : File) (z : ℕ) (s' : File) : Type 0 where
    pub tree : IsTree s'
    pub there : zone_of s' k ≡ z
    pub map : (b : ℕ) → found readable s' b ≡ (if ltb b 7 && b == k then z else found readable s b)
    pub kept : zone_of s k ≢ 0 → z ≡ zone_of s k
    pub given : z ≡ 0 → s'.supply ≡ []

  unchanged-IsMade :
      (k : ℕ) (s : File) → IsTree s → (zone_of s k ≡ 0 → s.supply ≡ []) → IsMade k s (zone_of s k) s
  unchanged-IsMade k s t given = record {
    tree = t;
    there = refl;
    map = λ b. elim (Bool-cases (ltb b 7 && b == k)) [
      | inl here ↦
          let direct : ltb b 7 ≡ true = ground arith in
          let same : b ≡ k = ground arith in rw here (rw direct (rw same refl))
      | inr other ↦ rw other refl
    ];
    kept = λ nz. refl;
    given = given;
  }

  new-IsMade :
      (now k z : ℕ) (zs : List ℕ) (s : File) (t : IsTree s) (e : s.supply ≡ z ∷ zs)
      → k < 9
      → zone_of s k ≡ 0
      → IsMade k s z (with_zone readable s z zs t e k now)
  new-IsMade now k z zs s t e lt free = record {
    tree = with_zone-IsTree readable s z zs t e k now lt free;
    there = get_or-set_self s.zones k z 0 (omega (arith, t.size));
    map = λ b. found-with_zone readable s z zs t e k now b lt free;
    kept = λ nz. absurd (nz free);
    given = λ q. absurd ((z-IsFresh readable s z zs t e).0 q);
  }

  pub inode_zone-IsMade :
      (now k : ℕ) (s : File)
      → IsTree s
      → k < 9
      → (let r = inode_zone readable now true k s in IsMade k s r.0 r.1)
  unfolding inode_zone
  inode_zone-IsMade now k s t lt = elim (ℕ_discrete (zone_of s k) 0) [
    | no ne ↦
        let there : (zone_of s k == 0) ≡ false = ground arith in
        rw there (unchanged-IsMade k s t (λ q. absurd (ne q)))
    | yes free ↦ made s.supply refl free
  ]
    where
      made :
          (l : List ℕ)
          → s.supply ≡ l
          → zone_of s k ≡ 0
          → (let r = inode_zone readable now true k s in IsMade k s r.0 r.1)
      made [] e free =
          let hit : (zone_of s k == 0) ≡ true = ground arith in
          let got : new_zone s ≡ (0, s) = ap (λ l. zone_from l s) e in
          rw (hit, got) (rw (← free) (unchanged-IsMade k s t (λ q. e)))
      made (z ∷ zs) e free =
          let hit : (zone_of s k == 0) ≡ true = ground arith in
          let got : new_zone s ≡ (z, record s { supply = zs; entries = clear z s.entries }) =
            ap (λ l. zone_from l s) e in
          let fresh : All (IsFresh s) (z ∷ zs) = rw e at t.fresh in
          let nonzero : (z == 0) ≡ false = let ne = fresh.0.0 in ground arith in
          rw (hit, got) (rw nonzero (new-IsMade now k z zs s t e lt free))
