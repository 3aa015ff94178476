-- ===== src/Fs/Fd/Seek.antt =====
-- fs/read_write.c, sys_lseek. What it reads of an inode is an argument, and `origin` is not negative.
use lambda_linux_kernel.Prelude.{
  ℕ, ◌+◌, ◌%◌, ◌^◌, ◌≤◌, ◌<◌, ◌≡◌, refl, ◌⊎◌, inl, inr, Bool, true, false, not, Option, none, some,
  [], leb, ◌==◌, if◌then◌else◌, arith, Bool-cases, Option-cases,
}
use native.Mathlib.Decide.{ℕ_discrete}
use lambda_linux_kernel.Prelude.Int.{
  ℤ, pos, negsuc, ltb_ℤ, ◌+ℤ◌, ◌≤ℤ◌, ◌<ℤ◌, wrap32, of_word, to_word,
}
use lambda_linux_kernel.Fs.Fd.{
  Fds, Result, returns, nr_open, file, fd_of, set_file, ebadf, espipe, einval,
}

-- `IS_SEEKABLE(MAJOR(i_dev))`, `i_pipe` and `i_size` of an inode.
pub record Target : Type 0 where
  pub seekable : Bool
  pub is_pipe : Bool
  pub size : ℕ

-- The new position, for a file at `at`; `i_size` is an unsigned long.
pub new_offset : ℤ → ℕ → ℕ → ℤ → Option ℤ
new_offset at size origin offset =
    if origin == 0
    then some offset
    else if origin == 1
    then some (wrap32 (at +ℤ offset))
    else if origin == 2
    then some (of_word ((size + to_word offset) % 2 ^ 32))
    else none

-- From the test of the position on.
pub move_to : ℕ → Option ℤ → Fds → Result
move_to f none s = returns einval s []
move_to f (some at) s =
    if ltb_ℤ at (pos 0)
    then returns einval s []
    else returns at (set_file f (record (file s f) { offset = at }) s) []

pub seek : (ℕ → Target) → ℤ → ℕ → ℕ → Option ℕ → Fds → Result
seek inodes offset origin f none s = returns ebadf s []
seek inodes offset origin f (some i) s =
    if not (inodes i).seekable
    then returns ebadf s []
    else if (inodes i).is_pipe
    then returns espipe s []
    else move_to f (new_offset (file s f).offset (inodes i).size origin offset) s

pub sys_lseek : (ℕ → Target) → ℕ → ℤ → ℕ → Fds → Result
sys_lseek inodes fd offset origin s =
    if leb nr_open fd then returns ebadf s [] else elim (fd_of s fd) [
      | none ↦ returns ebadf s []
      | some f ↦ seek inodes offset origin f (file s f).inode s
    ]

to_word-end :
    (size : ℕ) (offset : ℤ) → to_word (pos size +ℤ offset) ≡ (size + to_word offset) % 2 ^ 32
unfolding to_word ◌+ℤ◌
to_word-end size (pos n) = ground arith
to_word-end size (negsuc n) = ground arith

-- The position that is asked for: from the start of the file, from where it is, or from its end.
abbrev pub IsAsked : (at : ℤ) (size origin : ℕ) (offset to : ℤ) → Type 0
IsAsked at size origin offset to =
    ((origin ≡ 0) × (to ≡ offset))
    ⊎ (((origin ≡ 1) × (to ≡ wrap32 (at +ℤ offset)))
        ⊎ ((origin ≡ 2) × (to ≡ wrap32 (pos size +ℤ offset))))

new_offset-some :
    (at : ℤ) (size origin : ℕ) (offset to : ℤ)
    → new_offset at size origin offset ≡ some to
    → IsAsked at size origin offset to
unfolding new_offset wrap32
new_offset-some at size origin offset to h = elim (ℕ_discrete origin 0) [
  | yes e ↦
      let e' : (origin == 0) ≡ true = ground arith in
      let h' : ◌≡◌ {A = Option ℤ} (some offset) (some to) = rw e' at h in inl (e, cc)
  | no ne ↦ elim (ℕ_discrete origin 1) [
    | yes e ↦
        let e0 : (origin == 0) ≡ false = ground arith in
        let e' : (origin == 1) ≡ true = ground arith in
        let h' : ◌≡◌ {A = Option ℤ} (some (wrap32 (at +ℤ offset))) (some to) = rw (e0, e') at h in
        inr (inl (e, cc))
    | no ne' ↦ elim (ℕ_discrete origin 2) [
      | yes e ↦
          let e0 : (origin == 0) ≡ false = ground arith in
          let e1 : (origin == 1) ≡ false = ground arith in
          let e' : (origin == 2) ≡ true = ground arith in
          let h' : ◌≡◌ {A = Option ℤ} (some (of_word ((size + to_word offset) % 2 ^ 32)))
              (some to) =
            rw (e0, e1, e') at h in
          inr (inr (e, rw (to_word-end size offset) (cc)))
      | no ne'' ↦
          let e0 : (origin == 0) ≡ false = ground arith in
          let e1 : (origin == 1) ≡ false = ground arith in
          let e' : (origin == 2) ≡ false = ground arith in
          let h' : ◌≡◌ {A = Option ℤ} none (some to) = rw (e0, e1, e') at h in absurd (cc)
    ]
  ]
]

new_offset-none :
    (at : ℤ) (size origin : ℕ) (offset : ℤ) → new_offset at size origin offset ≡ none → 3 ≤ origin
unfolding new_offset
new_offset-none at size origin offset h = ground arith

-- What a call comes to.
pub data Seeked (inodes : ℕ → Target) (fd : ℕ) (offset : ℤ) (origin : ℕ) (s : Fds)
    : Result → Type 0 where
  closed :
      (nr_open ≤ fd) ⊎ (fd_of s fd ≡ none) → Seeked inodes fd offset origin s (returns ebadf s [])
  no_inode :
      (f : ℕ)
      → fd_of s fd ≡ some f
      → (file s f).inode ≡ none
      → Seeked inodes fd offset origin s (returns ebadf s [])
  fixed :
      (f i : ℕ)
      → fd_of s fd ≡ some f
      → (file s f).inode ≡ some i
      → (inodes i).seekable ≡ false
      → Seeked inodes fd offset origin s (returns ebadf s [])
  piped :
      (f i : ℕ)
      → fd_of s fd ≡ some f
      → (file s f).inode ≡ some i
      → (inodes i).is_pipe ≡ true
      → Seeked inodes fd offset origin s (returns espipe s [])
  bad_origin : 3 ≤ origin → Seeked inodes fd offset origin s (returns einval s [])
  before_start :
      (f i : ℕ) (at : ℤ)
      → fd_of s fd ≡ some f
      → (file s f).inode ≡ some i
      → IsAsked (file s f).offset (inodes i).size origin offset at
      → at <ℤ pos 0
      → Seeked inodes fd offset origin s (returns einval s [])
  moved :
      (f i : ℕ) (at : ℤ)
      → fd < nr_open
      → fd_of s fd ≡ some f
      → (file s f).inode ≡ some i
      → (inodes i).seekable ≡ true
      → (inodes i).is_pipe ≡ false
      → IsAsked (file s f).offset (inodes i).size origin offset at
      → pos 0 ≤ℤ at
      → Seeked inodes fd offset origin s
          (returns at (set_file f (record (file s f) { offset = at }) s) [])

module _ (inodes : ℕ → Target) (fd : ℕ) (offset : ℤ) (origin : ℕ) (s : Fds) where
  seek-Seeked :
      (f : ℕ)
      → fd < nr_open
      → fd_of s fd ≡ some f
      → Seeked inodes fd offset origin s (seek inodes offset origin f (file s f).inode s)
  unfolding seek move_to
  seek-Seeked f lt held = on_inode (file s f).inode refl
    where
      on_offset :
          (i : ℕ)
          → (file s f).inode ≡ some i
          → (inodes i).seekable ≡ true
          → (inodes i).is_pipe ≡ false
          → (o : Option ℤ) → new_offset (file s f).offset (inodes i).size origin offset ≡ o
          → Seeked inodes fd offset origin s (move_to f o s)
      on_offset i e seekable plain none to = bad_origin (new_offset-none _ _ origin offset to)
      on_offset i e seekable plain (some at) to =
          let asked = new_offset-some (file s f).offset (inodes i).size origin offset at to in
          elim (Bool-cases (ltb_ℤ at (pos 0))) [
            | inl low ↦ rw low (before_start f i at held e asked (ground arith))
            | inr fits ↦ rw fits (moved f i at lt held e seekable plain asked (ground arith))
          ]

      on_inode :
          (o : Option ℕ)
          → (file s f).inode ≡ o
          → Seeked inodes fd offset origin s (seek inodes offset origin f o s)
      on_inode none e = no_inode f held e
      on_inode (some i) e = elim (Bool-cases (inodes i).seekable) [
        | inr stuck ↦ rw stuck (fixed f i held e stuck)
        | inl seekable ↦ rw seekable (elim (Bool-cases (inodes i).is_pipe) [
          | inl pipe ↦ rw pipe (piped f i held e pipe)
          | inr plain ↦ rw plain (on_offset i e seekable plain _ refl)
        ])
      ]

  -- lseek returns -EBADF for a descriptor that is not open or stands for a file on a device that
  -- is not seekable, -ESPIPE for a pipe, and -EINVAL for an origin above 2 or where the position
  -- asked for is negative, and then changes nothing; or that position, which is the offset, the
  -- position of the file plus the offset or the size of the file plus the offset for the origins
  -- 0, 1 and 2, the sums at 32 bits, is stored in the file and returned.
  pub sys_lseek-Seeked : Seeked inodes fd offset origin s (sys_lseek inodes fd offset origin s)
  unfolding sys_lseek
  sys_lseek-Seeked = elim (Bool-cases (leb nr_open fd)) [
    | inl e ↦ rw e (closed (inl (ground arith)))
    | inr e ↦ rw e (elim (Option-cases (fd_of s fd)) [
      | inl free ↦ rw free (closed (inr free))
      | inr (f, held) ↦ rw held (seek-Seeked f (ground arith) held)
    ])
  ]
