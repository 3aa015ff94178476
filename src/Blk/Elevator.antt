-- ===== src/Blk/Elevator.antt =====
-- The order that `add_request` keeps.
use lambda_linux_kernel.Prelude.{
  ℕ, ◌+◌, ◌≤◌, ◌≡◌, refl, ◌⊎◌, inl, inr, true, false, not, ◌||◌, List, [], ◌∷◌, ◌++◌, if◌then◌else◌,
  is_some, arith, Bool-cases, ap, All,
}
use Prim.Native.Nat.{max}
use lambda_linux_kernel.Blk.{Request, in_order, stops, insert, add_request}

-- How often a queue goes back: the next request is before the one that it follows.
abbrev pub descents : List Request → ℕ
descents [] = 0
descents (a ∷ []) = 0
descents (a ∷ b ∷ rest) = (if in_order b a then 1 else 0) + descents (b ∷ rest)

-- Two requests that `IN_ORDER` can tell apart.
abbrev pub Apart : Request → Request → Type 0
Apart a b = (in_order a b ≡ true) ⊎ (in_order b a ≡ true)

-- No two neighbours of a queue are for the same place.
abbrev pub NeighboursApart : List Request → Type 0
NeighboursApart [] = Unit
NeighboursApart (a ∷ []) = Unit
NeighboursApart (a ∷ b ∷ rest) = Apart a b × NeighboursApart (b ∷ rest)

-- The order on its three numbers.
in_order_trans : (a b c : Request) → in_order a b ≡ true → in_order b c ≡ true → in_order a c ≡ true
unfolding in_order
in_order_trans a b c p q = ground arith

in_order_asym : (a b : Request) → in_order a b ≡ true → in_order b a ≡ false
unfolding in_order
in_order_asym a b p = ground arith

-- The queue from `tmp` on still begins with it.
descents-insert :
    (a req tmp : Request) (rest : List Request)
    → descents (a ∷ insert req tmp rest)
      ≡ (if in_order tmp a then 1 else 0) + descents (insert req tmp rest)
unfolding insert
descents-insert a req tmp [] = refl
descents-insert a req tmp (next ∷ rest) = elim (Bool-cases (stops req tmp next)) [
  | inl e ↦ rw e
  | inr e ↦ rw e
]

-- Where a buffer's request stops.
stops-before :
    (req tmp next : Request)
    → is_some req.bh ≡ true
    → in_order req next ≡ true
    → stops req tmp next ≡ in_order tmp req || not (in_order tmp next)
unfolding stops
stops-before req tmp next b h = ground arith

stops-behind :
    (req tmp next : Request)
    → is_some req.bh ≡ true
    → in_order next req ≡ true
    → stops req tmp next ≡ false
unfolding stops
stops-behind req tmp next b h = ground (arith, in_order_asym next req h)

-- Behind a request before it the new one adds no descent.
insert-descents_after :
    (req tmp : Request) (rest : List Request)
    → is_some req.bh ≡ true
    → All (Apart req) rest
    → in_order tmp req ≡ true
    → descents (insert req tmp rest) ≤ descents (tmp ∷ rest)
unfolding insert
insert-descents_after req tmp [] b apart lt = ground (arith, in_order_asym tmp req lt)
insert-descents_after req tmp (next ∷ rest) b (inl before, apart) lt = ground (
  arith,
  stops-before req tmp next b before,
  in_order_asym tmp req lt,
  in_order_asym req next before,
  in_order_trans tmp req next lt before,
  in_order_asym tmp next,
)
insert-descents_after req tmp (next ∷ rest) b (inr behind, apart) lt = ground (
  arith,
  stops-behind req tmp next b behind,
  descents-insert tmp req next rest,
  insert-descents_after req next rest b apart behind,
)

-- Behind a request after it the new one opens a second run, if there is none yet.
insert-descents_before :
    (req tmp : Request) (rest : List Request)
    → is_some req.bh ≡ true
    → All (Apart req) rest
    → NeighboursApart (tmp ∷ rest)
    → in_order req tmp ≡ true
    → descents (insert req tmp rest) ≤ max 1 (descents (tmp ∷ rest))
unfolding insert
insert-descents_before req tmp [] b apart q lt = ground arith
insert-descents_before req tmp (next ∷ rest) b (inl before, apart) (d, q) lt = ground (
  arith,
  stops-before req tmp next b before,
  in_order_asym req tmp lt,
  in_order_asym req next before,
  in_order_asym next tmp,
  in_order_asym tmp next,
  descents-insert tmp req next rest,
  insert-descents_before req next rest b apart q before,
)
insert-descents_before req tmp (next ∷ rest) b (inr behind, apart) (d, q) lt = ground (
  arith,
  stops-behind req tmp next b behind,
  descents-insert tmp req next rest,
  insert-descents_after req next rest b apart behind,
)

-- Inserting a buffer request that IN_ORDER tells apart from every request queued keeps a queue
-- whose neighbours it also tells apart within two ascending runs, the sweep under way and the
-- next one.
pub add_request-descents :
    (req : Request) (queue : List Request)
    → is_some req.bh ≡ true
    → All (Apart req) queue
    → NeighboursApart queue
    → descents queue ≤ 1
    → descents (add_request req queue).0 ≤ 1
unfolding add_request
add_request-descents req [] b apart q h = omega arith
add_request-descents req (tmp ∷ rest) b (inl before, apart) q h =
    omega (arith, insert-descents_before req tmp rest b apart q before)
add_request-descents req (tmp ∷ rest) b (inr behind, apart) q h =
    omega (arith, insert-descents_after req tmp rest b apart behind)

-- The requests for paging at the front of a list, and the rest.
abbrev pub paging : List Request → List Request
paging [] = []
paging (r ∷ rs) = if is_some r.bh then [] else r ∷ paging rs

abbrev pub behind_paging : List Request → List Request
behind_paging [] = []
behind_paging (r ∷ rs) = if is_some r.bh then r ∷ rs else behind_paging rs

-- A paging request goes behind the current request and the paging requests directly after it, and
-- before the first buffer request after those.
pub add_request-paging :
    (req current : Request) (rest : List Request)
    → is_some req.bh ≡ false
    → (add_request req (current ∷ rest)).0 ≡ current ∷ (paging rest ++ (req ∷ behind_paging rest))
unfolding add_request insert stops
add_request-paging req current [] p = refl
add_request-paging req current (next ∷ rest) p = ground (arith, add_request-paging req next rest p)

-- add_request puts the new request somewhere behind the current one and keeps all queued requests
-- in their order.
pub add_request-splits :
    (req current : Request) (rest : List Request)
    → (front back : List Request) × (rest ≡ front ++ back)
      × ((add_request req (current ∷ rest)).0 ≡ current ∷ (front ++ (req ∷ back)))
unfolding add_request insert
add_request-splits req current [] = ([], [], refl, refl)
add_request-splits req current (next ∷ rest) = elim (Bool-cases (stops req current next)) [
  | inl e ↦ ([], next ∷ rest, refl, rw e)
  | inr e ↦
      let (front, back, same, after) = add_request-splits req next rest in
      (next ∷ front, back, ap (λ l. next ∷ l) same, rw e (ap (λ l. current ∷ l) after))
]
