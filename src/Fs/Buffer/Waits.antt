-- ===== src/Fs/Buffer/Waits.antt =====
-- fs/buffer.c: what holds after the waits of the cache, whatever runs meanwhile keeps the invariant of the queues.
use lambda_linux_kernel.Prelude.{
  ℕ, zero, suc, ◌+◌, ◌%◌, ◌≤◌, ◌<◌, ◌≡◌, refl, Bool, true, false, not, ◌&&◌, some, List, [], ◌∷◌,
  ◌==◌, length, length-set, arith, ap, ◌∙◌, inl, inr, Bool-cases, ◌⊎◌, All,
}
use lambda_linux_kernel.Fs.Buffer.{
  Head, Cache, Event, Outcome, done, asleep, panics, spent, then_do, head, hash_of, is_for,
  find_buffer, sleep_on, wait_on_buffer, add_count, write_out,
}
use lambda_linux_kernel.Fs.Buffer.Queues.{
  IsCache, size, head-set_head, same_id-IsCache, find_in-some,
}

-- A cache of n buffers.
abbrev pub IsCacheOf : ℕ → Cache → Type 0
IsCacheOf n c = IsCache c × (size c ≡ n)

abbrev pub IsKeeping : ℕ → Event → Type 0
IsKeeping n e = (c : Cache) → IsCacheOf n c → IsCacheOf n (e c)

-- It does not panic or run out of fuel, and what it ends in is as `P` says.
abbrev pub Ends : {A : Type 0} → ℕ → (A → List Event → Cache → Type 0) → Outcome A → Type 0
Ends n P (done a es c) = P a es c
Ends n P (asleep c) = IsCacheOf n c
Ends n P (panics c) = ⊥
Ends n P spent = ⊥

pub then_do-Ends :
    {A B : Type 0} (n : ℕ) {P : A → List Event → Cache → Type 0}
    (Q : B → List Event → Cache → Type 0) (o : Outcome A) (k : A → List Event → Cache → Outcome B)
    → Ends n P o
    → ((a : A) (es : List Event) (c : Cache) → P a es c → Ends n Q (k a es c))
    → Ends n Q (then_do o k)
then_do-Ends n Q (done a es c) k p f = f a es c p
then_do-Ends n Q (asleep c) k p f = p
then_do-Ends n Q (panics c) k p f = p
then_do-Ends n Q spent k p f = p

pub Ends-map :
    {A : Type 0} (n : ℕ) (P Q : A → List Event → Cache → Type 0)
    → ((a : A) (es : List Event) (c : Cache) → P a es c → Q a es c)
    → (o : Outcome A) → Ends n P o
    → Ends n Q o
Ends-map n P Q f (done a es c) p = f a es c p
Ends-map n P Q f (asleep c) p = p
Ends-map n P Q f (panics c) p = p
Ends-map n P Q f spent p = p

-- Nothing ran, or some event did.
abbrev pub Moved : List Event → Cache → List Event → Cache → Type 0
Moved es c es' c' = ((es' ≡ es) × (c' ≡ c)) ⊎ (length es' < length es)

pub record After (n : ℕ) (es : List Event) (c : Cache) (es' : List Event) (c' : Cache)
    : Type 0 where
  pub valid : IsCacheOf n c'
  pub kept : All (IsKeeping n) es'
  pub moved : Moved es c es' c'

pub After-next :
    {n : ℕ} {e : Event} {es es' : List Event} {c c' : Cache}
    → After n es (e c) es' c'
    → After n (e ∷ es) c es' c'
After-next a = record {
  valid = a.valid;
  kept = a.kept;
  moved = inr (elim a.moved [
    | inl (same, _) ↦ let t = ap length same in omega arith
    | inr fewer ↦ omega arith
  ]);
}

abbrev pub Unlocked :
    {A : Type 0} (n i : ℕ) (es : List Event) (c : Cache) → A → List Event → Cache → Type 0
Unlocked n i es c _ es' c' = ((head c' i).lock ≡ false) × After n es c es' c'

pub wait_on_buffer-Ends :
    (n i : ℕ) (es : List Event) (c : Cache)
    → All (IsKeeping n) es
    → IsCacheOf n c
    → Ends n (Unlocked n i es c) (wait_on_buffer i es c)
unfolding wait_on_buffer
wait_on_buffer-Ends n i [] c k v = elim (Bool-cases (head c i).lock) [
  | inl e ↦ rw e v
  | inr e ↦ rw e (e, record { valid = v; kept = k; moved = inl (refl, refl) })
]
wait_on_buffer-Ends n i (e ∷ es) c (k, ks) v = elim (Bool-cases (head c i).lock) [
  | inl l ↦
      rw (Ends, l)
        (Ends-map n (Unlocked n i es (e c)) (Unlocked n i (e ∷ es) c)
          (λ _ es' c' (unlocked, a). (unlocked, After-next a)) (wait_on_buffer i es (e c))
          (wait_on_buffer-Ends n i es (e c) ks (k c v)))
  | inr l ↦ rw (Ends, l) (l, record { valid = v; kept = (k, ks); moved = inl (refl, refl) })
]

pub sleep_on-Ends :
    (n : ℕ) (es : List Event) (c : Cache)
    → All (IsKeeping n) es
    → IsCacheOf n c
    → Ends n
        (λ _ es' c'. IsCacheOf n c' × All (IsKeeping n) es' × (length es' < length es))
        (sleep_on es c)
unfolding sleep_on
sleep_on-Ends n [] c k v = v
sleep_on-Ends n (e ∷ es) c (k, ks) v = (k c v, ks, omega arith)

pub add_count-IsCacheOf :
    (n by i : ℕ) (c : Cache) → i < n → IsCacheOf n c → IsCacheOf n (add_count by i c)
add_count-IsCacheOf n by i c lt (v, s) = (
  same_id-IsCache c i (record (head c i) { count = ((head c i).count + by) % 256 }) (omega arith)
      refl refl v,
  length-set c.heads i (record (head c i) { count = ((head c i).count + by) % 256 }) ∙ s,
)

pub find_buffer-some :
    (n dev block : ℕ) (c : Cache) (i : ℕ)
    → IsCacheOf n c
    → find_buffer dev block c ≡ some i
    → (i < n) × (is_for dev block (head c i) ≡ true)
unfolding find_buffer
find_buffer-some n dev block c i (v, s) e =
    let (m, f) = find_in-some (c.hash_table (hash_of dev block)) dev block c i e in
    let lt = v.in_range (hash_of dev block) i m in (omega arith, f)

pub is_for-add_count :
    (by i dev block : ℕ) (c : Cache)
    → i < size c
    → is_for dev block (head (add_count by i c) i) ≡ is_for dev block (head c i)
is_for-add_count by i dev block c lt =
    let hit : (i == i) ≡ true = ground arith in
    rw (head-set_head c i i (record (head c i) { count = ((head c i).count + by) % 256 }) lt)
      (rw hit refl)

pub Moved-trans :
    {es es' es'' : List Event} {c c' c'' : Cache}
    → Moved es c es' c'
    → Moved es' c' es'' c''
    → Moved es c es'' c''
Moved-trans (inl (e, f)) (inl (g, h)) = inl (g ∙ e, h ∙ f)
Moved-trans (inl (e, f)) (inr g) = inr (let t = ap length e in omega arith)
Moved-trans (inr g) (inl (e, f)) = inr (let t = ap length e in omega arith)
Moved-trans (inr g) (inr h) = inr (omega arith)

pub Moved-length : {es es' : List Event} {c c' : Cache} → Moved es c es' c' → length es' ≤ length es
Moved-length (inl (e, f)) = let t = ap length e in omega arith
Moved-length (inr g) = omega arith

abbrev pub idle : Head → Bool
idle h = h.count == 0 && not h.dirt && not h.lock

-- The buffer is to be written no more and nobody has it, or the search is to start again.
abbrev pub Written : (n i : ℕ) (es : List Event) (c : Cache) → Bool → List Event → Cache → Type 0
Written n i es c true es' c' = IsCacheOf n c' × All (IsKeeping n) es' × (length es' < length es)
Written n i es c false es' c' = (idle (head c' i) ≡ true) × After n es c es' c'

Written-later :
    (n i : ℕ) (es' : List Event) (c' : Cache) (es : List Event) (c : Cache)
    → length es' < length es
    → (repeat : Bool) (es'' : List Event) (c'' : Cache) → Written n i es' c' repeat es'' c''
    → Written n i es c repeat es'' c''
Written-later n i es' c' es c fewer true es'' c'' (v, k, still) = (v, k, omega arith)
Written-later n i es' c' es c fewer false es'' c'' (x, a) = (
  x,
  record {
    valid = a.valid;
    kept = a.kept;
    moved = inr (let t = Moved-length a.moved in omega arith);
  },
)

pub write_out-Ends :
    (n i fuel : ℕ) (es : List Event) (c : Cache)
    → length es < fuel
    → (head c i).count ≡ 0
    → (head c i).lock ≡ false
    → All (IsKeeping n) es
    → IsCacheOf n c
    → Ends n (Written n i es c) (write_out fuel i es c)
unfolding write_out
write_out-Ends n i zero es c l u o k v = absurd (omega arith)
write_out-Ends n i (suc fuel) es c l u o k v = elim (Bool-cases (head c i).dirt) [
  | inr clean ↦
      rw (Ends, clean) (ground arith, record { valid = v; kept = k; moved = inl (refl, refl) })
  | inl dirty ↦
      rw (Ends, dirty)
        (then_do-Ends n (Written n i es c) (sleep_on es c) _ (sleep_on-Ends n es c k v)
          (λ _ es' c' (v', k', fewer).
            then_do-Ends n (Written n i es c) (wait_on_buffer i es' c') _
              (wait_on_buffer-Ends n i es' c' k' v')
              (λ _ es'' c'' (unlocked, a).
                let less : length es'' < length es = let t = Moved-length a.moved in omega arith in
                elim (Bool-cases ((head c'' i).count == 0)) [
                  | inl free ↦
                      rw (Ends, free)
                        (Ends-map n (Written n i es'' c'') (Written n i es c)
                          (Written-later n i es'' c'' es c less) (write_out fuel i es'' c'')
                          (write_out-Ends n i fuel es'' c'' (omega (arith, less)) (ground arith)
                            unlocked a.kept a.valid))
                  | inr used ↦ rw (Ends, used) (a.valid, a.kept, less)
                ])))
]
