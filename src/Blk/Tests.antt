-- ===== src/Blk/Tests.antt =====
-- The theorems on requests at concrete queues.
use lambda_linux_kernel.Prelude.{
  ℕ, ◌≡◌, ◌≤◌, refl, true, false, none, some, List, [], ◌∷◌, ◌++◌, inl, inr, replicate, arith,
}
use lambda_linux_kernel.Blk.{
  Request, in_order, stops, insert, add_request, read, Buffer, State, make_request,
}
use lambda_linux_kernel.Blk.Elevator.{
  descents, paging, behind_paging, add_request-descents, add_request-paging, add_request-splits,
}
use lambda_linux_kernel.Blk.Slots.{Outcome, make_request-Outcome}

abbrev at_sector : ℕ → Request
at_sector n = record { dev = 0x301; cmd = 0; sector = n; nr_sectors = 2; bh = some n }

abbrev page_at : ℕ → Request
page_at n = record { dev = 0x301; cmd = 0; sector = n; nr_sectors = 8; bh = none }

-- A sweep up from 20, then one from 4.
abbrev sweep : List Request
sweep = at_sector 20 ∷ at_sector 30 ∷ at_sector 4 ∷ []

add_request-descents_example : descents (add_request (at_sector 10) sweep).0 ≤ 1
unfolding in_order
add_request-descents_example =
    add_request-descents (at_sector 10) sweep refl (inl refl, (inl refl, (inr refl, tt)))
      (inl refl, (inr refl, tt)) (omega arith)

add_request-paging_example :
    (add_request (page_at 8) (at_sector 20 ∷ page_at 90 ∷ at_sector 4 ∷ [])).0
    ≡ at_sector 20
      ∷ (paging (page_at 90 ∷ at_sector 4 ∷ [])
          ++ (page_at 8 ∷ behind_paging (page_at 90 ∷ at_sector 4 ∷ [])))
add_request-paging_example =
    add_request-paging (page_at 8) (at_sector 20) (page_at 90 ∷ at_sector 4 ∷ []) refl

-- A buffer's request may go before one for paging.
overtakes :
    (add_request (at_sector 30) (at_sector 20 ∷ page_at 90 ∷ [])).0
    ≡ at_sector 20 ∷ at_sector 30 ∷ page_at 90 ∷ []
unfolding add_request insert stops in_order
overtakes = refl

add_request-splits_example :
    (front back : List Request) × (at_sector 30 ∷ [] ≡ front ++ back)
    × ((add_request (at_sector 25) (at_sector 20 ∷ at_sector 30 ∷ [])).0
        ≡ at_sector 20 ∷ (front ++ (at_sector 25 ∷ back)))
add_request-splits_example = add_request-splits (at_sector 25) (at_sector 20) (at_sector 30 ∷ [])

abbrev wanted : Buffer
wanted = record {
  number = 5;
  dev = 0x301;
  blocknr = 10;
  lock = false;
  dirt = false;
  uptodate = false;
}

abbrev quiet : State
quiet = record { free = replicate 32 true; queue = [] }

make_request-Outcome_example : Outcome read wanted quiet (make_request read wanted quiet)
make_request-Outcome_example = make_request-Outcome read wanted quiet
