-- ===== src/Fs/Bmap/Slots.antt =====
-- fs/inode.c: a zone from the supply is put in a slot of the inode.
use lambda_linux_kernel.Prelude.{
  ℕ, zero, suc, ◌-◌, ◌/◌, ◌<◌, ◌≡◌, ◌≢◌, refl, Bool, true, false, ◌&&◌, List, [], ◌∷◌, ltb, ◌==◌,
  if◌then◌else◌, set, length, length-set, get_or-set_self, get_or-set_ne, All, arith, ◌⊎◌, inl, inr,
  ◌∙◌, sym, Bool-cases,
}
use native.Mathlib.Decide.{ℕ_discrete}
use lambda_linux_kernel.Fs.Bmap.{File, zone_of, clear}
use lambda_linux_kernel.Fs.Bmap.Tree.{node, IsApart, IsFresh, IsTree, entry, found}

-- What is free stays so, if only `z` has become a node.
rest-IsFresh :
    (s s' : File) (z : ℕ) (zs : List ℕ)
    → ((r : ℕ) → (node s' r ≡ node s r) ⊎ (node s' r ≡ z))
    → All (IsFresh s) zs
    → All (λ y. y ≢ z) zs
    → All (IsFresh s') zs
rest-IsFresh s s' z [] change fresh apart = tt
rest-IsFresh s s' z (y ∷ zs) change ((ne, free), fresh) (out, apart) = (
  (ne, λ r e. elim (change r) [ inl same ↦ free r (sym same ∙ e) | inr new ↦ out (sym e ∙ new) ]),
  rest-IsFresh s s' z zs change fresh apart,
)

pub grown-IsTree :
    (s s' : File) (z r0 : ℕ) (zs : List ℕ)
    → IsTree s
    → s.supply ≡ z ∷ zs
    → s'.supply ≡ zs
    → length s'.zones ≡ 9
    → ((r : ℕ) → (node s' r ≡ node s r) ⊎ ((r ≡ r0) × (node s' r ≡ z)))
    → IsTree s'
grown-IsTree s s' z r0 zs t e e' size change =
    let fresh : All (IsFresh s) (z ∷ zs) = rw e at t.fresh in
    let apart : IsApart (z ∷ zs) = rw e at t.apart in
    record {
      size = size;
      sep = λ r r' q nz. elim (change r) [
        | inl same ↦ elim (change r') [
          | inl same' ↦ t.sep r r' (sym same ∙ q ∙ same') (λ none. nz (same ∙ none))
          | inr (_, new') ↦ absurd (fresh.0.1 r (sym same ∙ q ∙ new'))
        ]
        | inr (at, new) ↦ elim (change r') [
          | inl same' ↦ absurd (fresh.0.1 r' (sym same' ∙ sym q ∙ new))
          | inr (at', _) ↦ at ∙ sym at'
        ]
      ];
      fresh = rw e' (
          rest-IsFresh s s' z zs
            (λ r. elim (change r) [ inl same ↦ inl same | inr (_, new) ↦ inr new ]) fresh.1
            apart.0);
      apart = rw e' apart.1;
    }

module _ (readable : ℕ → Bool) (s : File) (z : ℕ) (zs : List ℕ) (t : IsTree s)
    (e : s.supply ≡ z ∷ zs) where
  pub z-IsFresh : IsFresh s z
  z-IsFresh = let fresh : All (IsFresh s) (z ∷ zs) = rw e at t.fresh in fresh.0

  -- A zone number of the inode.
  abbrev pub with_zone : (k now : ℕ) → File
  with_zone k now = record s {
    supply = zs;
    entries = clear z s.entries;
    zones = set s.zones k z;
    dirt = true;
    ctime = now;
  }

  zone_of-set :
      (k now j : ℕ) → k < 9 → zone_of (with_zone k now) j ≡ (if k == j then z else zone_of s j)
  zone_of-set k now j lt = elim (ℕ_discrete k j) [
    | yes q ↦
        let hit : (k == j) ≡ true = ground arith in
        rw hit (rw (← q) (get_or-set_self s.zones k z 0 (omega (arith, t.size))))
    | no ne ↦ let miss : (k == j) ≡ false = ground arith in rw miss (get_or-set_ne s.zones z 0 ne)
  ]

  pub with_zone-IsTree : (k now : ℕ) → k < 9 → zone_of s k ≡ 0 → IsTree (with_zone k now)
  with_zone-IsTree k now lt free =
      grown-IsTree s (with_zone k now) z (k - 7) zs t e refl (length-set s.zones k z ∙ t.size)
        change
    where
      change :
          (r : ℕ)
          → (node (with_zone k now) r ≡ node s r) ⊎ ((r ≡ k - 7) × (node (with_zone k now) r ≡ z))
      change zero = ground (arith, zone_of-set k now 7 lt)
      change (suc zero) = ground (arith, zone_of-set k now 8 lt)
      change (suc (suc j)) =
          let fresh = z-IsFresh.1 1 in inl (rw (zone_of-set k now 8 lt) (ground arith))

  entry-clear :
      (k now n i : ℕ) → n ≢ z → entry readable (with_zone k now) n i ≡ entry readable s n i
  entry-clear k now n i ne = ground arith

  entry-first :
      (k now q i : ℕ)
      → k < 9
      → zone_of s k ≡ 0
      → zone_of s q ≢ z
      → entry readable (with_zone k now) (zone_of (with_zone k now) q) i
        ≡ entry readable s (zone_of s q) i
  entry-first k now q i lt free ne = elim (ℕ_discrete k q) [
    | yes same ↦
        let here : zone_of (with_zone k now) q ≡ z = ground (arith, zone_of-set k now q lt) in
        let before : zone_of s q ≡ 0 = rw (← same) free in
        rw (here, before)
          (elim (Bool-cases (readable z)) [
            | inl r ↦ rw r (ground arith)
            | inr r ↦ rw r (ground arith)
          ])
    | no other ↦
        let here : zone_of (with_zone k now) q ≡ zone_of s q =
          ground (arith, zone_of-set k now q lt) in
        rw here (entry-clear k now (zone_of s q) i ne)
  ]

  -- What is found in the second indirect zone is a node, or 0.
  pub second_node :
      (j : ℕ)
      → (entry readable s (zone_of s 8) j ≡ 0)
        ⊎ (entry readable s (zone_of s 8) j ≡ node s (suc (suc j)))
  second_node j = elim (Bool-cases (readable (zone_of s 8))) [
    | inl r ↦ inr (rw r refl)
    | inr r ↦ inl (rw r (ground arith))
  ]

  pub second_ne : (j : ℕ) → entry readable s (zone_of s 8) j ≢ z
  second_ne j q = elim (second_node j) [
    | inl zero_there ↦ z-IsFresh.0 (sym q ∙ zero_there)
    | inr at ↦ z-IsFresh.1 (suc (suc j)) (sym at ∙ q)
  ]

  pub found-with_zone :
      (k now b : ℕ)
      → k < 9
      → zone_of s k ≡ 0
      → found readable (with_zone k now) b ≡ (if ltb b 7 && b == k then z else found readable s b)
  found-with_zone k now b lt free = elim (Bool-cases (ltb b 7)) [
    | inl direct ↦ rw direct (zone_of-set k now b lt ∙ ground arith)
    | inr further ↦ rw further (elim (Bool-cases (ltb b 519)) [
      | inl single ↦ rw single (entry-first k now 7 (b - 7) lt free (z-IsFresh.1 0))
      | inr double ↦ rw double (
          rw (entry-first k now 8 ((b - 519) / 512) lt free (z-IsFresh.1 1))
            (entry-clear k now _ _ (second_ne ((b - 519) / 512))))
    ])
  ]
