-- ===== src/Fs/Buffer/Lookup.antt =====
-- fs/buffer.c: get_hash_table, whatever runs while it sleeps.
use lambda_linux_kernel.Prelude.{
  ℕ, zero, suc, ◌<◌, ◌≡◌, refl, true, false, Option, none, some, List, length, arith, ap, ◌∙◌, inl,
  inr, Bool-cases, Option-cases, All,
}
use lambda_linux_kernel.Fs.Buffer.{
  Cache, Event, head, is_for, find_buffer, wait_on_buffer, add_count, get_hash_table,
}
use lambda_linux_kernel.Fs.Buffer.Waits.{
  IsCacheOf, IsKeeping, Ends, then_do-Ends, Ends-map, After, wait_on_buffer-Ends,
  add_count-IsCacheOf, find_buffer-some, is_for-add_count,
}

-- A buffer for the block that nobody writes or reads on disk.
pub record IsGot (n dev block i : ℕ) (es : List Event) (c : Cache) : Type 0 where
  pub valid : IsCacheOf n c
  pub kept : All (IsKeeping n) es
  pub in_range : i < n
  pub is_for_block : is_for dev block (head c i) ≡ true
  pub unlocked : (head c i).lock ≡ false

-- What a search for the block in the cache comes to.
abbrev pub Looked :
    (n dev block : ℕ) (es : List Event) (c : Cache) → Option ℕ → List Event → Cache → Type 0
Looked n dev block es c none es' c' = (find_buffer dev block c' ≡ none) × After n es c es' c'
Looked n dev block es c (some i) es' c' = IsGot n dev block i es' c'

module _ (n dev block : ℕ) where
  Looked-later :
      (es' : List Event) (c' : Cache) (es : List Event) (c : Cache)
      → length es' < length es
      → (o : Option ℕ) (es'' : List Event) (c'' : Cache) → Looked n dev block es' c' o es'' c''
      → Looked n dev block es c o es'' c''
  Looked-later es' c' es c fewer none es'' c'' (missing, a) = (
    missing,
    record {
      valid = a.valid;
      kept = a.kept;
      moved = inr (elim a.moved [
        | inl (same, _) ↦ let t = ap length same in omega arith
        | inr still ↦ omega arith
      ]);
    },
  )
  Looked-later es' c' es c fewer (some i) es'' c'' got = got

  pub get_hash_table-Ends :
      (fuel : ℕ) (es : List Event) (c : Cache)
      → length es < fuel
      → All (IsKeeping n) es
      → IsCacheOf n c
      → Ends n (Looked n dev block es c) (get_hash_table fuel dev block es c)
  unfolding get_hash_table
  get_hash_table-Ends zero es c l k v = absurd (omega arith)
  get_hash_table-Ends (suc fuel) es c l k v = elim (Option-cases (find_buffer dev block c)) [
    | inl missing ↦
        rw (Ends, missing) (missing, record { valid = v; kept = k; moved = inl (refl, refl) })
    | inr (i, found) ↦
        let (lt, hit) = find_buffer-some n dev block c i v found in
        rw (Ends, found)
          (then_do-Ends n (Looked n dev block es c) (wait_on_buffer i es (add_count 1 i c)) _
            (wait_on_buffer-Ends n i es (add_count 1 i c) k (add_count-IsCacheOf n 1 i c lt v))
            (λ _ es' c' (unlocked, a). elim (Bool-cases (is_for dev block (head c' i))) [
              | inl same ↦
                  rw (Ends, same)
                    (record {
                      valid = a.valid;
                      kept = a.kept;
                      in_range = lt;
                      is_for_block = same;
                      unlocked = unlocked;
                    })
              | inr other ↦
                  let fewer : length es' < length es = elim a.moved [
                    | inr t ↦ t
                    | inl (_, e) ↦
                        let hit' : is_for dev block (head c' i) ≡ true =
                          ap (λ x. is_for dev block (head x i)) e
                          ∙ is_for-add_count 1 i dev block c (omega (arith, v.1, lt))
                          ∙ hit in
                        absurd (ground arith)
                  ] in
                  rw (Ends, other)
                    (Ends-map n (Looked n dev block es' (add_count 255 i c'))
                      (Looked n dev block es c) (Looked-later es' (add_count 255 i c') es c fewer)
                      (get_hash_table fuel dev block es' (add_count 255 i c'))
                      (get_hash_table-Ends fuel es' (add_count 255 i c') (omega (arith, fewer))
                        a.kept (add_count-IsCacheOf n 255 i c' lt a.valid)))
            ]))
  ]
