-- ===== src/Fs/Bmap/Enter.antt =====
-- fs/inode.c: the entries of a zone, in create_block.
use lambda_linux_kernel.Prelude.{
  ℕ, ◌≡◌, ◌≢◌, refl, Bool, true, false, List, [], ◌∷◌, ◌==◌, if◌then◌else◌, All, arith, inl, inr,
  ◌⊎◌, ◌∙◌, sym, Bool-cases, ap,
}
use native.Mathlib.Decide.{ℕ_discrete}
use lambda_linux_kernel.Fs.Bmap.{File, clear, new_zone, zone_from, block_entry}
use lambda_linux_kernel.Fs.Bmap.Tree.{IsTree, IsFresh, IsShort, entry, found}
use lambda_linux_kernel.Fs.Bmap.Put.{with_entry}
use lambda_linux_kernel.Fs.Bmap.Create.{IsEntered}

module _ (readable : ℕ → Bool) where
  -- What block_entry leaves, if it makes an entry or not.
  pub data Placed (n k : ℕ) (s : File) (t : IsTree s) : ℕ → File → Type 0 where
    stays :
        (entry readable s n k ≡ 0 → (s.supply ≡ []) ⊎ (readable n ≡ false))
        → Placed n k s t (entry readable s n k) s
    placed :
        (z : ℕ) (zs : List ℕ) (e : s.supply ≡ z ∷ zs)
        → readable n ≡ true
        → s.entries n k ≡ 0
        → Placed n k s t z (with_entry readable s z zs t e n k)

  pub block_entry-Placed :
      (now n k : ℕ) (s : File) (t : IsTree s)
      → n ≢ 0
      → (let r = block_entry readable now true n k s in Placed n k s t r.0 r.1)
  unfolding block_entry
  block_entry-Placed now n k s t nz = elim (Bool-cases (readable n)) [
    | inr unread ↦
        let first : Placed n k s t (entry readable s n k) s = stays (λ q. inr unread) in
        let out : entry readable s n k ≡ 0 = rw unread (ground arith) in
        let kept : Placed n k s t 0 s = rw out at first in rw unread kept
    | inl read ↦ elim (ℕ_discrete (s.entries n k) 0) [
      | no ne ↦
          let there : (s.entries n k == 0) ≡ false = ground arith in
          let out : entry readable s n k ≡ s.entries n k = rw read (ground arith) in
          let first : Placed n k s t (entry readable s n k) s =
            stays (λ q. absurd (ne (sym out ∙ q))) in
          let kept : Placed n k s t (s.entries n k) s = rw out at first in rw (read, there) kept
      | yes free ↦ made s.supply refl read free
    ]
  ]
    where
      made :
          (l : List ℕ)
          → s.supply ≡ l
          → readable n ≡ true
          → s.entries n k ≡ 0
          → (let r = block_entry readable now true n k s in Placed n k s t r.0 r.1)
      made [] e read free =
          let hit : (s.entries n k == 0) ≡ true = ground arith in
          let got : new_zone s ≡ (0, s) = ap (λ l. zone_from l s) e in
          let first : Placed n k s t (entry readable s n k) s = stays (λ q. inl e) in
          let out : entry readable s n k ≡ 0 = rw read (ground arith) in
          let kept : Placed n k s t 0 s = rw out at first in rw (read, hit, got) kept
      made (z ∷ zs) e read free =
          let hit : (s.entries n k == 0) ≡ true = ground arith in
          let got : new_zone s ≡ (z, record s { supply = zs; entries = clear z s.entries }) =
            ap (λ l. zone_from l s) e in
          let fresh : All (IsFresh s) (z ∷ zs) = rw e at t.fresh in
          let nonzero : (z == 0) ≡ false = let ne = fresh.0.0 in ground arith in
          rw (read, hit, got) (rw nonzero (placed z zs e read free))

  pub same-IsEntered :
      (block : ℕ) (s : File)
      → IsTree s
      → (found readable s block ≡ 0 → IsShort readable s)
      → IsEntered readable block s (found readable s block) s
  same-IsEntered block s t given = record {
    tree = t;
    map = λ b. elim (ℕ_discrete b block) [
      | yes q ↦ let hit : (b == block) ≡ true = ground arith in rw hit (rw q refl)
      | no ne ↦ let miss : (b == block) ≡ false = ground arith in rw miss refl
    ];
    kept = λ nz. refl;
    given = given;
  }

  pub after-IsEntered :
      (block : ℕ) (s s' s'' : File) (z : ℕ)
      → ((b : ℕ) → found readable s' b ≡ found readable s b)
      → IsEntered readable block s' z s''
      → IsEntered readable block s z s''
  after-IsEntered block s s' s'' z same n = record {
    tree = n.tree;
    map = λ b. n.map b ∙ ap (λ x. if b == block then z else x) (same b);
    kept = λ nz. n.kept (λ q. nz (sym (same block) ∙ q)) ∙ same block;
    given = n.given;
  }
