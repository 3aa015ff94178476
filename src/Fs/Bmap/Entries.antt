-- ===== src/Fs/Bmap/Entries.antt =====
-- fs/inode.c: what an entry that is made enters in the map from blocks to zones.
use lambda_linux_kernel.Prelude.{
  ℕ, suc, ◌+◌, ◌-◌, ◌*◌, ◌/◌, ◌%◌, ◌≤◌, ◌<◌, ◌≡◌, ◌≢◌, refl, Bool, true, false, ◌&&◌, ltb, ◌==◌,
  arith, [], inl, inr, ◌⊎◌, ◌∙◌, sym, Bool-cases, ap,
}
use lambda_linux_kernel.Fs.Bmap.{File, zone_of}
use lambda_linux_kernel.Fs.Bmap.Tree.{node, IsTree, IsShort, entry, found}
use lambda_linux_kernel.Fs.Bmap.Put.{
  with_entry-IsTree, found-first_entry, found-second_entry, found-third_entry,
}
use lambda_linux_kernel.Fs.Bmap.Slots.{z-IsFresh}
use lambda_linux_kernel.Fs.Bmap.Put.{entry_self}
use lambda_linux_kernel.Fs.Bmap.Create.{IsEntered, IsMade}
use lambda_linux_kernel.Fs.Bmap.Enter.{Placed, stays, placed, same-IsEntered}

module _ (readable : ℕ → Bool) where
  -- What is short for an entry of a zone of the file.
  node-IsShort :
      (s : File) (r : ℕ)
      → node s r ≢ 0
      → (s.supply ≡ []) ⊎ (readable (node s r) ≡ false)
      → IsShort readable s
  node-IsShort s r nz (inl spent) = inl spent
  node-IsShort s r nz (inr unread) = inr (r, nz, unread)

  -- A zone of entries is at index `j` of the second indirect zone; nothing more is found.
  pub record IsIndexed (j : ℕ) (s : File) (i : ℕ) (s' : File) : Type 0 where
    pub tree : IsTree s'
    pub there : entry readable s' (zone_of s' 8) j ≡ i
    pub map : (b : ℕ) → found readable s' b ≡ found readable s b
    pub given : i ≡ 0 → IsShort readable s'

  pub second-IsIndexed :
      (j : ℕ) (s : File) (t : IsTree s) (i : ℕ) (s' : File)
      → zone_of s 8 ≢ 0
      → Placed readable (zone_of s 8) j s t i s'
      → IsIndexed j s i s'
  second-IsIndexed j s t _ _ nz (stays short) = record {
    tree = t;
    there = refl;
    map = λ b. refl;
    given = λ q. node-IsShort s 1 nz (short q);
  }
  second-IsIndexed j s t i _ nz (placed _ zs e r free) = record {
    tree = with_entry-IsTree readable s i zs t e 1 j nz;
    there =
        let hit : (j == j) ≡ true = ground arith in
        entry_self readable s i zs t e (zone_of s 8) j j nz r ((z-IsFresh readable s i zs t e).1 1)
        ∙ rw hit refl;
    map = λ b. found-second_entry readable s i zs t e j b nz r free;
    given = λ q. absurd ((z-IsFresh readable s i zs t e).0 q);
  }

  pub first-IsEntered :
      (block : ℕ) (s : File) (t : IsTree s) (z : ℕ) (s' : File)
      → ltb block 7 ≡ false
      → ltb block 519 ≡ true
      → zone_of s 7 ≢ 0
      → Placed readable (zone_of s 7) (block - 7) s t z s'
      → IsEntered readable block s z s'
  first-IsEntered block s t _ _ far near nz (stays short) =
      let same : found readable s block ≡ entry readable s (zone_of s 7) (block - 7) =
        rw (far, near) refl in
      rw (← same)
        (same-IsEntered readable block s t (λ q. node-IsShort s 0 nz (short (sym same ∙ q))))
  first-IsEntered block s t z _ far near nz (placed _ zs e r free) =
      let before : found readable s block ≡ 0 = rw (far, near) (rw r (ground arith)) in
      let at : 7 + (block - 7) ≡ block = ground arith in
      record {
        tree = with_entry-IsTree readable s z zs t e 0 (block - 7) nz;
        map = λ b.
            found-first_entry readable s z zs t e (block - 7) b (ground arith) nz r ∙ rw at refl;
        kept = λ ne. absurd (ne before);
        given = λ q. absurd ((z-IsFresh readable s z zs t e).0 q);
      }

  node-IsEntered :
      (j k : ℕ) (s : File) (t : IsTree s) (z : ℕ) (s' : File)
      → k < 512
      → readable (zone_of s 8) ≡ true
      → node s (suc (suc j)) ≢ 0
      → found readable s (519 + 512 * j + k) ≡ entry readable s (node s (suc (suc j))) k
      → Placed readable (node s (suc (suc j))) k s t z s'
      → IsEntered readable (519 + 512 * j + k) s z s'
  node-IsEntered j k s t _ _ lt r8 nz same (stays short) = rw (← same) (
      same-IsEntered readable (519 + 512 * j + k) s t
        (λ q. node-IsShort s (suc (suc j)) nz (short (sym same ∙ q))))
  node-IsEntered j k s t z _ lt r8 nz same (placed _ zs e r free) =
      let before : found readable s (519 + 512 * j + k) ≡ 0 = same ∙ rw (r, free) (ground arith) in
      record {
        tree = with_entry-IsTree readable s z zs t e (suc (suc j)) k nz;
        map = λ b. found-third_entry readable s z zs t e j k b lt nz r8 r;
        kept = λ ne. absurd (ne before);
        given = λ q. absurd ((z-IsFresh readable s z zs t e).0 q);
      }

  pub third-IsEntered :
      (block : ℕ) (s : File) (t : IsTree s) (z : ℕ) (s' : File)
      → ltb block 519 ≡ false
      → entry readable s (zone_of s 8) ((block - 519) / 512) ≢ 0
      → Placed readable
          (entry readable s (zone_of s 8) ((block - 519) / 512))
          ((block - 519) % 512)
          s
          t
          z
          s'
      → IsEntered readable block s z s'
  third-IsEntered block s t z s' far nz p = elim (Bool-cases (readable (zone_of s 8))) [
    | inr unread ↦ absurd (nz (rw unread (ground arith)))
    | inl r8 ↦
        let j = (block - 519) / 512 in
        let k = (block - 519) % 512 in
        let at : 519 + 512 * j + k ≡ block = ground arith in
        let beyond : ltb block 7 ≡ false = ground arith in
        let same : entry readable s (zone_of s 8) j ≡ node s (suc (suc j)) = rw r8 refl in
        let here : found readable s (519 + 512 * j + k)
            ≡ entry readable s (node s (suc (suc j))) k =
          rw at (rw (far, beyond) (ap (λ n. entry readable s n k) same)) in
        let p' : Placed readable (node s (suc (suc j))) k s t z s' = rw same at p in
        let nz' : node s (suc (suc j)) ≢ 0 = λ q. nz (same ∙ q) in
        rw (← at) (node-IsEntered j k s t z s' (omega arith) r8 nz' here p')
  ]

  -- Nothing is found there, and nothing is entered.
  pub nothing-IsEntered :
      (block : ℕ) (s : File)
      → IsTree s
      → found readable s block ≡ 0
      → IsShort readable s
      → IsEntered readable block s 0 s
  nothing-IsEntered block s t free short =
      rw free at (same-IsEntered readable block s t (λ q. short))

  pub made_map :
      (k : ℕ) (s : File) (z : ℕ) (s' : File)
      → 7 ≤ k
      → IsMade readable k s z s'
      → (b : ℕ) → found readable s' b ≡ found readable s b
  made_map k s z s' le m b =
      let miss : (ltb b 7 && b == k) ≡ false = ground arith in m.map b ∙ rw miss refl
