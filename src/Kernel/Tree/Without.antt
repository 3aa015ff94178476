-- ===== src/Kernel/Tree/Without.antt =====
-- kernel/exit.c: brothers without one of them.
use lambda_linux_kernel.Prelude.{
  ℕ, ◌≡◌, refl, true, false, Option, none, some, List, [], ◌∷◌, ◌==◌, if◌then◌else◌, is_some, arith,
  subst, ap, ◌∙◌, sym, inl, inr, Bool-cases, ◌⊎◌, elem, without, elem-without,
}
use native.Mathlib.Decide.{ℕ_discrete}
use lambda_linux_kernel.Kernel.Tree.Chains.{first, is, Linked, Once, Linked-keeps, first-elem}

pub without_absent : (p : ℕ) (js : List ℕ) → elem p js ≡ false → without p js ≡ js
without_absent p [] e = refl
without_absent p (j ∷ js) e =
    let other : (j == p) ≡ false = ground arith in
    rw other (ap (λ ks. j ∷ ks) (without_absent p js (ground arith)))

pub Once-without : (p : ℕ) (js : List ℕ) → Once js → Once (without p js)
Once-without p [] u = tt
Once-without p (j ∷ js) (u, us) = elim (Bool-cases (j == p)) [
  | inl e ↦ rw e (Once-without p js us)
  | inr e ↦ rw e (ground (arith, elem-without p j js), Once-without p js us)
]

module _ (y' o' : ℕ → Option ℕ) (p : ℕ) where
  -- The brother before is in the list, or the one that the list begins after.
  pub younger_in :
      (y : Option ℕ) (js : List ℕ) (i : ℕ)
      → Linked y' o' y js
      → elem p js ≡ true
      → is (y' p) i ≡ true
      → (is y i ≡ true) ⊎ (elem i js ≡ true)
  younger_in y [] i l m e = absurd (cc)
  younger_in y (j ∷ js) i (a, b, l) m e = elim (ℕ_discrete j p) [
    | yes f ↦ inl (ap (λ z. is z i) (sym a ∙ ap y' f) ∙ e)
    | no ne ↦ elim (younger_in (some j) js i l (ground arith) e) [
      | inl g ↦ inr (ground arith)
      | inr g ↦ inr (ground arith)
    ]
  ]

  -- The brother after is in the list, behind its first.
  older_in :
      (y : Option ℕ) (j : ℕ) (js : List ℕ) (i : ℕ)
      → Linked y' o' y (j ∷ js)
      → elem p (j ∷ js) ≡ true
      → is (o' p) i ≡ true
      → elem i js ≡ true
  older_in y j [] i (a, b, l) m e =
      let same : j ≡ p = ground arith in
      absurd (let f = ap (λ z. is z i) (sym b ∙ ap o' same) in cc)
  older_in y j (k ∷ ks) i (a, b, l) m e = elim (ℕ_discrete j p) [
    | yes f ↦ first-elem (k ∷ ks) i (ap (λ z. is z i) (sym b ∙ ap o' f) ∙ e)
    | no ne ↦ let g = older_in (some j) k ks i l (ground arith) e in ground arith
  ]

  apart : (js : List ℕ) (i k : ℕ) → elem i js ≡ false → elem k js ≡ true → (i == k) ≡ false
  apart js i k e f = elim (ℕ_discrete i k) [
    | yes g ↦ let h = ap (λ z. elem z js) g in absurd (cc)
    | no ne ↦ ground arith
  ]

  abbrev pub younger'' : ℕ → Option ℕ
  younger'' j = if is (o' p) j then y' p else y' j

  abbrev pub older'' : ℕ → Option ℕ
  older'' j = if is (y' p) j then o' p else o' j

  brothers_after :
      (js : List ℕ)
      → Linked y' o' (some p) js
      → o' p ≡ first js
      → Once js
      → ((k : ℕ) → elem k js ≡ true → is (y' p) k ≡ false)
      → Linked younger'' older'' (y' p) js
  brothers_after [] l o u before = tt
  brothers_after (j ∷ js) (a, b, l) o (u, us) before =
      let self : is (some j) j ≡ true = ground arith in
      let next : is (o' p) j ≡ true = ap (λ z. is z j) o ∙ self in
      (
        rw next refl,
        rw (before j (ground arith)) b,
        Linked-keeps y' o' younger'' older'' (some j) js
            (λ k m.
              let later : is (o' p) k ≡ false = ap (λ z. is z k) o ∙ apart js j k u m in
              (rw later refl, rw (before k (ground arith)) refl))
            l,
      )

  pub older_among :
      (y : Option ℕ) (js : List ℕ) (i : ℕ)
      → Linked y' o' y js
      → elem p js ≡ true
      → is (o' p) i ≡ true
      → elem i js ≡ true
  older_among y [] i l m e = absurd (cc)
  older_among y (j ∷ js) i l m e = let f = older_in y j js i l m e in ground arith

  has_younger :
      (j : ℕ) (js : List ℕ) → Linked y' o' (some j) js → elem p js ≡ true → is_some (y' p) ≡ true
  has_younger j [] l m = absurd (cc)
  has_younger j (k ∷ ks) (a, b, l) m = elim (ℕ_discrete k p) [
    | yes e ↦ ap is_some (sym (ap y' e) ∙ a)
    | no ne ↦ has_younger k ks l (ground arith)
  ]

  pub first-without :
      (js : List ℕ)
      → Linked y' o' none js
      → Once js
      → elem p js ≡ true
      → first (without p js) ≡ (if is_some (y' p) then first js else o' p)
  first-without [] l u m = absurd (cc)
  first-without (j ∷ js) (a, b, l) (u, us) m = elim (ℕ_discrete j p) [
    | yes e ↦
        let hit : (j == p) ≡ true = ground arith in
        let gone : elem p js ≡ false = ap (λ z. elem z js) (sym e) ∙ u in
        let eldest : is_some (y' p) ≡ false = ap is_some (sym (ap y' e) ∙ a) in
        rw (hit, eldest, without_absent p js gone) (sym b ∙ ap o' e)
    | no ne ↦
        let miss : (j == p) ≡ false = ground arith in
        rw (miss, has_younger j js l (ground arith)) refl
  ]

  -- The link to the next brother.
  older_next :
      (j : ℕ) (js : List ℕ)
      → o' j ≡ first js
      → Linked y' o' (some j) js
      → Once js
      → elem j js ≡ false
      → elem p js ≡ true
      → older'' j ≡ first (without p js)
  older_next j [] b l u fresh m = absurd (cc)
  older_next j (k ∷ ks) b (c, d, l) (w, ws) fresh m = elim (ℕ_discrete k p) [
    | yes e ↦
        let hit : (k == p) ≡ true = ground arith in
        let self : (j == j) ≡ true = ground arith in
        let back : is (y' p) j ≡ true = ap (λ z. is z j) (sym (ap y' e) ∙ c) ∙ self in
        let gone : elem p ks ≡ false = ap (λ z. elem z ks) (sym e) ∙ w in
        rw (hit, back) (sym (ap o' e) ∙ (d ∙ ap first (sym (without_absent p ks gone))))
    | no ne ↦
        let miss : (k == p) ≡ false = ground arith in
        let far : is (y' p) j ≡ false = elim (Bool-cases (is (y' p) j)) [
          | inr e ↦ e
          | inl e ↦ elim (younger_in (some k) ks j l (ground arith) e) [
            | inl f ↦ absurd (ground arith)
            | inr f ↦ absurd (ground arith)
          ]
        ] in
        rw (miss, far) b
  ]

  pub Linked-without :
      (y : Option ℕ) (js : List ℕ)
      → Linked y' o' y js
      → Once js
      → elem p js ≡ true
      → ((k : ℕ) → elem k js ≡ true → is y k ≡ false)
      → Linked younger'' older'' y (without p js)
  Linked-without y [] l u m before = tt
  Linked-without y (j ∷ js) (a, b, l) (u, us) m before = elim (ℕ_discrete j p) [
    | yes e ↦
        let hit : (j == p) ≡ true = ground arith in
        let gone : elem p js ≡ false = ap (λ z. elem z js) (sym e) ∙ u in
        let at : y' p ≡ y = sym (ap y' e) ∙ a in
        rw (hit, without_absent p js gone)
          (subst (λ z. Linked younger'' older'' z js) at
            (brothers_after js (subst (λ z. Linked y' o' (some z) js) e l) (sym (ap o' e) ∙ b) us
              (λ k n. ap (λ z. is z k) at ∙ before k (ground arith))))
    | no ne ↦
        let miss : (j == p) ≡ false = ground arith in
        let within : elem p js ≡ true = ground arith in
        let before_p : is (o' p) j ≡ false = elim (Bool-cases (is (o' p) j)) [
          | inr e ↦ e
          | inl e ↦ let f = older_in y j js j (a, b, l) m e in absurd (cc)
        ] in
        rw miss (
          (rw before_p a),
          older_next j js b l us u within,
          Linked-without (some j) js l us within (λ k n. apart js j k u n),
        )
  ]
