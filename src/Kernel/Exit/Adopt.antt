-- ===== src/Kernel/Exit/Adopt.antt =====
-- kernel/exit.c: the children of a task in front of those of init.
use lambda_linux_kernel.Prelude.{
  ℕ, ◌≡◌, ◌≢◌, refl, true, false, Option, none, some, List, [], ◌∷◌, ◌++◌, ◌==◌, if◌then◌else◌,
  arith, subst, ap, ◌∙◌, sym, inl, inr, Bool-cases, elem, elem-append,
}
use native.Mathlib.Decide.{ℕ_discrete}
use lambda_linux_kernel.Kernel.Tree.Chains.{first, is, Linked, Once, Linked-keeps, first-elem}
use lambda_linux_kernel.Kernel.Exit.Inherit.{last}

different : (js : List ℕ) (i k : ℕ) → elem i js ≡ false → elem k js ≡ true → (i == k) ≡ false
different js i k e f = elim (ℕ_discrete i k) [
  | yes g ↦ let h = ap (λ z. elem z js) g in absurd (cc)
  | no ne ↦ ground arith
]

differ : (i k : ℕ) → i ≢ k → (i == k) ≡ false
differ i k ne = ground arith

elem_later : (i j : ℕ) (js : List ℕ) → elem i js ≡ true → elem i (j ∷ js) ≡ true
elem_later i j js m = ground arith

pub last-elem : (j : ℕ) (js : List ℕ) → elem (last j js) (j ∷ js) ≡ true
last-elem j [] = ground arith
last-elem j (k ∷ ks) = let r = last-elem k ks in ground arith

pub Once-append :
    (js ks : List ℕ)
    → Once js
    → Once ks
    → ((k : ℕ) → elem k js ≡ true → elem k ks ≡ false)
    → Once (js ++ ks)
Once-append [] ks u w d = w
Once-append (j ∷ js) ks (u, us) w d = (
  elem-append j js ks ∙ (let e = d j (ground arith) in ground arith),
  Once-append js ks us w (λ k m. d k (ground arith)),
)

module _ (y' o' : ℕ → Option ℕ) (ks : List ℕ) (p : ℕ) where
  abbrev pub younger'' : ℕ → Option ℕ
  younger'' j = if is (first ks) j then some p else y' j

  abbrev pub older'' : ℕ → Option ℕ
  older'' j = if p == j then first ks else o' j

  not_first : (j : ℕ) → elem j ks ≡ false → is (first ks) j ≡ false
  not_first j e = elim (Bool-cases (is (first ks) j)) [
    | inr f ↦ f
    | inl f ↦ let g = first-elem ks j f in absurd (cc)
  ]

  brothers_behind :
      (ls : List ℕ)
      → first ls ≡ first ks
      → Linked y' o' none ls
      → Once ls
      → elem p ls ≡ false
      → Linked younger'' older'' (some p) ls
  brothers_behind [] e l u fresh = tt
  brothers_behind (k ∷ ls) e (a, b, l) (u, us) fresh =
      let self : is (some k) k ≡ true = ground arith in
      let hit : is (first ks) k ≡ true = ap (λ z. is z k) (sym e) ∙ self in
      let away = different (k ∷ ls) p k fresh (ground arith) in
      (
        rw hit refl,
        rw away b,
        Linked-keeps y' o' younger'' older'' (some k) ls
            (λ i m.
              let later : is (first ks) i ≡ false =
                ap (λ z. is z i) (sym e) ∙ different ls k i u m in
              let away' = different (k ∷ ls) p i fresh (ground arith) in
              (rw later refl, rw away' refl))
            l,
      )

  pub Linked-append :
      (y : Option ℕ) (j : ℕ) (js : List ℕ)
      → p ≡ last j js
      → Linked y' o' y (j ∷ js)
      → Once (j ∷ js)
      → Linked y' o' none ks
      → Once ks
      → ((k : ℕ) → elem k (j ∷ js) ≡ true → elem k ks ≡ false)
      → Linked younger'' older'' y ((j ∷ js) ++ ks)
  Linked-append y j [] e (a, b, l) (u, us) m w d =
      let self : (p == j) ≡ true = ground arith in
      let out = d j (ground arith) in
      (
        rw (not_first j out) a,
        rw self refl,
        subst (λ z. Linked younger'' older'' (some z) ks) e
            (brothers_behind ks refl m w (ap (λ z. elem z ks) e ∙ out)),
      )
  Linked-append y j (k ∷ js) e (a, b, l) (u, us) m w d =
      let out = d j (ground arith) in
      let away : (p == j) ≡ false = elim (ℕ_discrete p j) [
        | no ne ↦ differ p j ne
        | yes f ↦
            let there : elem (last k js) (k ∷ js) ≡ true = last-elem k js in
            let g = ap (λ z. elem z (k ∷ js)) (sym e ∙ f) in absurd (cc)
      ] in
      (
        rw (not_first j out) a,
        rw away b,
        Linked-append (some j) k js e l us m w (λ i n. d i (elem_later i j (k ∷ js) n)),
      )
