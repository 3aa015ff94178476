-- ===== src/Kernel/Cred/Privilege.antt =====
-- Which ids a process can come by: without privilege only those that it has.
use lambda_linux_kernel.Prelude.{ℕ, ◌^◌, ◌<◌, ◌≡◌, ◌≢◌, List, [], ◌∷◌, arith, ◌⊎◌}
use lambda_linux_kernel.Prelude.Int.{pos}
use lambda_linux_kernel.Kernel.Cred.{
  Cred, to_short, sys_setregid, sys_setgid, sys_setreuid, sys_setuid, Call, setregid, setgid,
  setreuid, setuid, call, calls,
}
use lambda_linux_kernel.Kernel.Cred.Guard.{IsCred, to_short_id, call-IsCred}

abbrev pub OneOf : ℕ → ℕ → ℕ → ℕ → Type 0
OneOf a b d x = (x ≡ a) ⊎ (x ≡ b) ⊎ (x ≡ d)

-- The three user ids are among `a`, `b` and `d`.
abbrev pub UserAmong : ℕ → ℕ → ℕ → Cred → Type 0
UserAmong a b d c = OneOf a b d c.uid × OneOf a b d c.euid × OneOf a b d c.suid

-- And the three group ids.
abbrev pub GroupAmong : ℕ → ℕ → ℕ → Cred → Type 0
GroupAmong a b d c = OneOf a b d c.gid × OneOf a b d c.egid × OneOf a b d c.sgid

module _ (a b d : ℕ) (an : a ≢ 0) (bn : b ≢ 0) (dn : d ≢ 0) where
  call-UserAmong :
      (k : Call) (c : Cred) → IsCred c → UserAmong a b d c → UserAmong a b d (call k c).1
  unfolding call sys_setregid sys_setgid sys_setreuid sys_setuid
  call-UserAmong (setregid r e) c v u = ground arith
  call-UserAmong (setgid g) c v u = ground arith
  call-UserAmong (setreuid r e) c v u =
      ground (
        arith,
        to_short_id c.euid r,
        to_short_id c.uid r,
        to_short_id c.uid e,
        to_short_id c.euid e,
      )
  call-UserAmong (setuid x) c v u = ground (arith, to_short_id c.uid x, to_short_id c.suid x)

calls-UserAmong :
    (ks : List Call) (a b d : ℕ) (c : Cred)
    → IsCred c
    → a ≢ 0
    → b ≢ 0
    → d ≢ 0
    → UserAmong a b d c
    → UserAmong a b d (calls ks c)
unfolding calls
calls-UserAmong [] a b d c v an bn dn u = u
calls-UserAmong (k ∷ ks) a b d c v an bn dn u =
    calls-UserAmong ks a b d (call k c).1 (call-IsCred k c v) an bn dn
      (call-UserAmong a b d an bn dn k c v u)

module _ (a b d : ℕ) where
  call-GroupAmong :
      (k : Call) (c : Cred)
      → IsCred c
      → c.euid ≢ 0
      → GroupAmong a b d c
      → GroupAmong a b d (call k c).1
  unfolding call sys_setregid sys_setgid sys_setreuid sys_setuid
  call-GroupAmong (setregid r e) c v n u =
      ground (arith, to_short_id c.gid r, to_short_id c.gid e, to_short_id c.egid e)
  call-GroupAmong (setgid x) c v n u = ground (arith, to_short_id c.gid x, to_short_id c.sgid x)
  call-GroupAmong (setreuid r e) c v n u = ground arith
  call-GroupAmong (setuid x) c v n u = ground arith

calls-GroupAmong :
    (ks : List Call) (a b d e f g : ℕ) (c : Cred)
    → IsCred c
    → a ≢ 0
    → b ≢ 0
    → d ≢ 0
    → UserAmong a b d c
    → GroupAmong e f g c
    → GroupAmong e f g (calls ks c)
unfolding calls
calls-GroupAmong [] a b d e f g c v an bn dn u h = h
calls-GroupAmong (k ∷ ks) a b d e f g c v an bn dn u h =
    calls-GroupAmong ks a b d e f g (call k c).1 (call-IsCred k c v) an bn dn
      (call-UserAmong a b d an bn dn k c v u) (call-GroupAmong e f g k c v (ground arith) h)

-- A process with no user id 0 never gets, by any sequence of setuid, setreuid, setgid and
-- setregid, a user id other than the three it starts with, or a group id other than the three it
-- starts with.
pub calls-IdsAmong :
    (ks : List Call) (a b d e f g : ℕ) (c : Cred)
    → IsCred c
    → a ≢ 0
    → b ≢ 0
    → d ≢ 0
    → UserAmong a b d c
    → GroupAmong e f g c
    → UserAmong a b d (calls ks c) × GroupAmong e f g (calls ks c)
calls-IdsAmong ks a b d e f g c v an bn dn u h =
    (calls-UserAmong ks a b d c v an bn dn u, calls-GroupAmong ks a b d e f g c v an bn dn u h)

setuid-UserAmong :
    (u : ℕ) (c : Cred) → c.euid ≡ 0 → u < 2 ^ 16 → UserAmong u u u (call (setuid (pos u)) c).1
unfolding call sys_setuid to_short
setuid-UserAmong u c root fits = ground arith

-- After the superuser has called setuid with another id, whatever calls on the ids follow, all
-- three user ids stay that id.
pub setuid_drops :
    (ks : List Call) (u : ℕ) (c : Cred)
    → IsCred c
    → c.euid ≡ 0
    → u ≢ 0
    → u < 2 ^ 16
    → ((calls (setuid (pos u) ∷ ks) c).uid ≡ u)
      × ((calls (setuid (pos u) ∷ ks) c).euid ≡ u)
      × ((calls (setuid (pos u) ∷ ks) c).suid ≡ u)
unfolding calls
setuid_drops ks u c v root ne fits =
    let first = (call (setuid (pos u)) c).1 in
    ground (
      arith,
      calls-UserAmong ks u u u first (call-IsCred (setuid (pos u)) c v) ne ne ne
          (setuid-UserAmong u c root fits),
    )
