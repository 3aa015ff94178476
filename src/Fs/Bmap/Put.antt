-- ===== src/Fs/Bmap/Put.antt =====
-- fs/inode.c: a zone from the supply is put in a zone that holds entries.
use lambda_linux_kernel.Prelude.{
  ℕ, zero, suc, ◌+◌, ◌-◌, ◌*◌, ◌/◌, ◌%◌, ◌<◌, ◌≡◌, ◌≢◌, refl, Bool, true, false, ◌&&◌, List, ◌∷◌,
  ltb, ◌==◌, if◌then◌else◌, arith, ◌⊎◌, inl, inr, ◌∙◌, sym, Bool-cases,
}
use native.Mathlib.Decide.{ℕ_discrete}
use lambda_linux_kernel.Fs.Bmap.{File, zone_of, clear, write}
use lambda_linux_kernel.Fs.Bmap.Tree.{node, IsTree, entry, found}
use lambda_linux_kernel.Fs.Bmap.Slots.{grown-IsTree, z-IsFresh, second_node, second_ne}

module _ (readable : ℕ → Bool) (s : File) (z : ℕ) (zs : List ℕ) (t : IsTree s)
    (e : s.supply ≡ z ∷ zs) where
  -- An entry of a node.
  abbrev pub with_entry : (n k : ℕ) → File
  with_entry n k = record s { supply = zs; entries = write n k z (clear z s.entries) }

  pub with_entry-IsTree : (r k : ℕ) → node s r ≢ 0 → IsTree (with_entry (node s r) k)
  with_entry-IsTree r k nz =
      grown-IsTree s (with_entry (node s r) k) z (k + 2) zs t e refl t.size change
    where
      change :
          (r' : ℕ)
          → (node (with_entry (node s r) k) r' ≡ node s r')
            ⊎ ((r' ≡ k + 2) × (node (with_entry (node s r) k) r' ≡ z))
      change zero = inl refl
      change (suc zero) = inl refl
      change (suc (suc j)) =
          let fresh = (z-IsFresh readable s z zs t e).1 1 in
          elim (Bool-cases (zone_of s 8 == node s r && j == k)) [
            | inr miss ↦ inl (rw miss (ground arith))
            | inl hit ↦ inr (ground arith, rw hit (ground arith))
          ]

  entry-with_entry :
      (n k n' i : ℕ)
      → n ≢ 0
      → readable n ≡ true
      → n' ≢ z
      → entry readable (with_entry n k) n' i
        ≡ (if n' == n && i == k then z else entry readable s n' i)
  entry-with_entry n k n' i nz r ne = elim (ℕ_discrete n' n) [
    | yes same ↦ rw (same, r) (ground arith)
    | no other ↦ ground arith
  ]

  other_node : (r r' : ℕ) → r ≢ r' → node s r ≢ 0 → node s r' ≢ node s r
  other_node r r' ne nz q = ne (t.sep r r' (sym q) nz)

  other_second :
      (r j : ℕ) → r ≢ suc (suc j) → node s r ≢ 0 → entry readable s (zone_of s 8) j ≢ node s r
  other_second r j ne nz q = elim (second_node readable s z zs t e j) [
    | inl zero_there ↦ nz (sym q ∙ zero_there)
    | inr at ↦ other_node r (suc (suc j)) ne nz (sym at ∙ q)
  ]

  entry-other :
      (n k n' i : ℕ)
      → n ≢ 0
      → readable n ≡ true
      → n' ≢ z
      → n' ≢ n
      → entry readable (with_entry n k) n' i ≡ entry readable s n' i
  entry-other n k n' i nz r ne other =
      let miss : (n' == n) ≡ false = ground arith in
      entry-with_entry n k n' i nz r ne ∙ rw miss refl

  pub entry_self :
      (n k i : ℕ)
      → n ≢ 0
      → readable n ≡ true
      → n ≢ z
      → entry readable (with_entry n k) n i ≡ (if i == k then z else entry readable s n i)
  entry_self n k i nz r ne =
      let hit : (n == n) ≡ true = ground arith in entry-with_entry n k n i nz r ne ∙ rw hit refl

  entry-new : (n k i : ℕ) → n ≢ z → entry readable (with_entry n k) z i ≡ 0
  entry-new n k i ne = elim (Bool-cases (readable z)) [
    | inl r ↦ rw r (ground arith)
    | inr r ↦ rw r (ground arith)
  ]

  pub found-first_entry :
      (k b : ℕ)
      → k < 512
      → zone_of s 7 ≢ 0
      → readable (zone_of s 7) ≡ true
      → found readable (with_entry (zone_of s 7) k) b
        ≡ (if b == 7 + k then z else found readable s b)
  found-first_entry k b lt nz r = elim (Bool-cases (ltb b 519)) [
    | inl single ↦ elim (Bool-cases (ltb b 7)) [
      | inl direct ↦ let miss : (b == 7 + k) ≡ false = ground arith in rw (direct, miss) refl
      | inr further ↦
          let same : (b - 7 == k) ≡ (b == 7 + k) = ground arith in
          rw (further, single, ← same)
            (entry_self (zone_of s 7) k (b - 7) nz r ((z-IsFresh readable s z zs t e).1 0))
    ]
    | inr double ↦
        let j = (b - 519) / 512 in
        let inner : entry readable (with_entry (zone_of s 7) k) (zone_of s 8) j
            ≡ entry readable s (zone_of s 8) j =
          entry-other (zone_of s 7) k (zone_of s 8) j nz r ((z-IsFresh readable s z zs t e).1 1)
            (other_node 0 1 (λ q. omega arith) nz) in
        let further : ltb b 7 ≡ false = ground arith in
        let miss : (b == 7 + k) ≡ false = ground arith in
        rw (further, double, miss)
          (rw inner (
            entry-other (zone_of s 7) k _ _ nz r (second_ne readable s z zs t e j)
              (other_second 0 j (λ q. omega arith) nz)))
  ]

  -- A zone of entries is empty when it is put in the second indirect zone.
  pub found-second_entry :
      (k b : ℕ)
      → zone_of s 8 ≢ 0
      → readable (zone_of s 8) ≡ true
      → s.entries (zone_of s 8) k ≡ 0
      → found readable (with_entry (zone_of s 8) k) b ≡ found readable s b
  found-second_entry k b nz r free = elim (Bool-cases (ltb b 519)) [
    | inl single ↦ elim (Bool-cases (ltb b 7)) [
      | inl direct ↦ rw direct refl
      | inr further ↦
          rw (further, single)
            (entry-other (zone_of s 8) k (zone_of s 7) (b - 7) nz r
              ((z-IsFresh readable s z zs t e).1 0) (other_node 1 0 (λ q. omega arith) nz))
    ]
    | inr double ↦
        let j = (b - 519) / 512 in
        let further : ltb b 7 ≡ false = ground arith in
        let inner = entry_self (zone_of s 8) k j nz r ((z-IsFresh readable s z zs t e).1 1) in
        rw (further, double)
          (rw inner (elim (ℕ_discrete j k) [
            | no other ↦
                let miss : (j == k) ≡ false = ground arith in
                rw miss (
                  entry-other (zone_of s 8) k _ _ nz r (second_ne readable s z zs t e j)
                    (other_second 1 j (λ q. omega arith) nz))
            | yes same ↦
                let hit : (j == k) ≡ true = ground arith in
                let before : entry readable s (zone_of s 8) j ≡ 0 = rw same (rw r (ground arith)) in
                rw hit
                  (rw before (entry-new (zone_of s 8) k _ ((z-IsFresh readable s z zs t e).1 1)))
          ]))
  ]

  pub found-third_entry :
      (j k b : ℕ)
      → k < 512
      → node s (suc (suc j)) ≢ 0
      → readable (zone_of s 8) ≡ true
      → readable (node s (suc (suc j))) ≡ true
      → found readable (with_entry (node s (suc (suc j))) k) b
        ≡ (if b == 519 + 512 * j + k then z else found readable s b)
  found-third_entry j k b lt nz r8 r = elim (Bool-cases (ltb b 519)) [
    | inl single ↦
        let miss : (b == 519 + 512 * j + k) ≡ false = ground arith in
        elim (Bool-cases (ltb b 7)) [
          | inl direct ↦ rw (direct, miss) refl
          | inr further ↦
              rw (further, single, miss)
                (entry-other _ k (zone_of s 7) (b - 7) nz r ((z-IsFresh readable s z zs t e).1 0)
                  (other_node (suc (suc j)) 0 (λ q. omega arith) nz))
        ]
    | inr double ↦
        let j' = (b - 519) / 512 in
        let further : ltb b 7 ≡ false = ground arith in
        let inner =
          entry-other (node s (suc (suc j))) k (zone_of s 8) j' nz r
            ((z-IsFresh readable s z zs t e).1 1)
            (other_node (suc (suc j)) 1 (λ q. omega arith) nz) in
        rw (further, double)
          (rw inner (elim (ℕ_discrete j' j) [
            | no other ↦
                let miss : (b == 519 + 512 * j + k) ≡ false = ground arith in
                rw miss (
                  entry-other _ k _ _ nz r (second_ne readable s z zs t e j')
                    (other_second (suc (suc j)) j' (λ q. omega arith) nz))
            | yes same ↦
                let at : entry readable s (zone_of s 8) j' ≡ node s (suc (suc j)) =
                  rw same (rw r8 refl) in
                let hit : (b == 519 + 512 * j + k) ≡ ((b - 519) % 512 == k) = ground arith in
                rw (at, hit)
                  (entry_self _ k _ nz r ((z-IsFresh readable s z zs t e).1 (suc (suc j))))
          ]))
  ]
