-- ===== src/Kernel/Signal/Group.antt =====
-- What `kill_pg` does to the processes of a group.
use lambda_linux_kernel.Prelude.{
  ℕ, ◌≤◌, ◌≡◌, refl, inl, inr, Bool, true, false, ◌&&◌, ◌||◌, Option, List, [], ◌∷◌, map, ltb, ◌==◌,
  if◌then◌else◌, arith, Bool-cases, ap,
}
use lambda_linux_kernel.Prelude.Int.{pos, eqb_ℤ}
use lambda_linux_kernel.Kernel.Signal.{Process, send_sig, pgrp_of, kill_loop, kill_pg}

module _ (null_pgrp euid pgrp sig : ℕ) (priv : Bool) where
  -- What becomes of one slot, and whether a process of the group takes the signal.
  abbrev pub signalled : Option Process → Option Process
  signalled p = if pgrp_of null_pgrp p == pgrp then (send_sig euid sig priv p).1 else p

  abbrev pub takes : Option Process → Bool
  takes p = pgrp_of null_pgrp p == pgrp && eqb_ℤ (send_sig euid sig priv p).0 (pos 0)

  abbrev pub any_takes : List (Option Process) → Bool
  any_takes [] = false
  any_takes (p ∷ ps) = takes p || any_takes ps

  -- The loop signals every member, counts those that take it, and otherwise holds an error.
  kill_loop_lem :
      (ps : List (Option Process))
      → ((kill_loop null_pgrp euid pgrp sig priv ps).0 ≡ map signalled ps)
        × (eqb_ℤ (kill_loop null_pgrp euid pgrp sig priv ps).1 (pos 0) ≡ false)
        × (((kill_loop null_pgrp euid pgrp sig priv ps).2 == 0)
            ≡ (if any_takes ps then false else true))
  unfolding kill_loop
  kill_loop_lem [] = (refl, refl, refl)
  kill_loop_lem (p ∷ ps) =
      let (slots, err, count) = kill_loop_lem ps in
      elim (Bool-cases (pgrp_of null_pgrp p == pgrp)) [
        | inr other ↦ rw other (ap (λ qs. p ∷ qs) slots, err, count)
        | inl member ↦ elim (Bool-cases (eqb_ℤ (send_sig euid sig priv p).0 (pos 0))) [
          | inl ok ↦
              rw (member, ok)
                (ap (λ qs. (send_sig euid sig priv p).1 ∷ qs) slots, err, ground arith)
          | inr failed ↦
              rw (member, failed)
                (ap (λ qs. (send_sig euid sig priv p).1 ∷ qs) slots, failed, count)
        ]
      ]

  -- kill_pg of a signal from 1 to 32 and a positive group does send_sig on exactly the slots of
  -- the group, slot 0 left out, and its value is 0 exactly if some slot of the group takes the
  -- signal.
  pub kill_pg_lem :
      (first : Option Process) (ps : List (Option Process))
      → 1 ≤ sig
      → sig ≤ 32
      → 1 ≤ pgrp
      → ((kill_pg null_pgrp euid pgrp sig priv (first ∷ ps)).1 ≡ first ∷ map signalled ps)
        × (eqb_ℤ (kill_pg null_pgrp euid pgrp sig priv (first ∷ ps)).0 (pos 0) ≡ any_takes ps)
  unfolding kill_pg
  kill_pg_lem first ps lo hi positive =
      let (slots, err, count) = kill_loop_lem ps in
      let valid : (ltb sig 1 || (ltb 32 sig || pgrp == 0)) ≡ false = ground arith in
      rw valid (
        ap (λ qs. first ∷ qs) slots,
        elim (Bool-cases (any_takes ps)) [
          | inl e ↦ let count' = rw e at count in rw (count', e) refl
          | inr e ↦ let count' = rw e at count in rw (count', e) err
        ],
      )
