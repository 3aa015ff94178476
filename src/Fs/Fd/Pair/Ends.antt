-- ===== src/Fs/Fd/Pair/Ends.antt =====
-- What `sys_pipe` does to the descriptors and the file table.
use lambda_linux_kernel.Prelude.{
  ℕ, inl, inr, ◌+◌, ◌-◌, ◌<◌, ◌≡◌, ◌≢◌, refl, sym, ◌∙◌, ap, false, Option, none, some, List, [],
  leb, get_or, set, length, length-set, set-set_back, get_or-set_self, get_or-set_ne, arith,
  Bool-cases,
}
use lambda_linux_kernel.Prelude.Int.{pos}
use native.Mathlib.Decide.{ℕ_discrete}
use lambda_linux_kernel.Fs.Fd.{
  File, Fds, returns, nr_open, nr_file, unused, file, fd_of, set_fd, set_count, attach, free_fd,
  free_file,
}
use lambda_linux_kernel.Fs.Fd.Refs.{free_fd_bounds, free_fd_free, free_file_bounds, free_file_free}
use lambda_linux_kernel.Fs.Fd.Counted.{
  IsCounted, file-set_count, attach-IsCounted, same_count-IsCounted,
}
use lambda_linux_kernel.Fs.Fd.Pair.{
  count_up, uncount, Paired, refused, set_end, join, take_fds, sys_pipe,
}

-- The two ends that a successful call makes of the inode.
pub record IsPair (others : ℕ → ℕ) (s : Fds) (inode i j : ℕ) (s' : Fds) : Type 0 where
  pub counted : IsCounted others s'
  pub apart : i < j
  pub high : j < nr_open
  pub were_free : (fd_of s i ≡ none) × (fd_of s j ≡ none)
  pub reader :
      (f : ℕ) × (fd_of s' i ≡ some f)
      × ((file s' f).mode ≡ 1)
      × ((file s' f).inode ≡ some inode)
      × ((file s' f).count ≡ 1)
  pub writer :
      (g : ℕ) × (fd_of s' j ≡ some g)
      × ((file s' g).mode ≡ 2)
      × ((file s' g).inode ≡ some inode)
      × ((file s' g).count ≡ 1)
  pub rest : (k : ℕ) → k ≢ i → k ≢ j → fd_of s' k ≡ fd_of s k

-- What `sys_pipe` can come to.
pub data PipeMade (others : ℕ → ℕ) (found : Option ℕ) (s : Fds) : Paired → Type 0 where
  nothing :
      (s' : Fds) → IsCounted others s' → s'.filp ≡ s.filp → PipeMade others found s (refused s')
  made :
      (inode i j : ℕ) (s' : Fds)
      → found ≡ some inode
      → IsPair others s inode i j s'
      → PipeMade others found s (returns (pos 0) s' [], some (i, j))

module _ (others : ℕ → ℕ) where
  -- Counts alone make a state counted.
  like-IsCounted :
      (s s' : Fds)
      → IsCounted others s
      → s'.filp ≡ s.filp
      → length s'.files ≡ nr_file
      → ((g : ℕ) → (file s' g).count ≡ (file s g).count)
      → IsCounted others s'
  like-IsCounted s s' v same table counts = record {
    slots = ap length same ∙ v.slots;
    table = table;
    few = v.few;
    known = λ fd f h. v.known fd f (ap (λ filp. get_or filp fd none) (sym same) ∙ h);
    counts = λ g lt. rw same (counts g ∙ v.counts g lt);
  }

  -- A file taken and given back.
  count-down :
      (s : Fds) (f k : ℕ)
      → f < length s.files
      → (file s f).count ≡ 0
      → (file (set_count f 0 (count_up f s)) k).count ≡ (file s k).count
  count-down s f k lt free =
      let up = file-set_count s f ((file s f).count + 1) k lt (omega arith) in
      let down =
        file-set_count (count_up f s) f 0 k (omega (arith, length-set s.files f _)) (omega arith) in
      elim (ℕ_discrete f k) [
        | yes e ↦ let free' : (file s k).count ≡ 0 = rw e at free in ground arith
        | no ne ↦ ground arith
      ]

  count-down_two :
      (s : Fds) (f g k : ℕ)
      → f < length s.files
      → g < length s.files
      → f ≢ g
      → (file s f).count ≡ 0
      → (file s g).count ≡ 0
      → (file (uncount f g (count_up g (count_up f s))) k).count ≡ (file s k).count
  count-down_two s f g k lt lt' ne free free' =
      let s1 = count_up f s in
      let s2 = count_up g s1 in
      let s3 = set_count g 0 s2 in
      let len1 : length s1.files ≡ length s.files = length-set s.files f _ in
      let len2 : length s2.files ≡ length s1.files = length-set s1.files g _ in
      let len3 : length s3.files ≡ length s2.files = length-set s2.files g _ in
      let g_free : (file s1 g).count ≡ 0 =
        ground (arith, file-set_count s f ((file s f).count + 1) g lt) in
      let one = file-set_count s f ((file s f).count + 1) k lt (omega arith) in
      let two = count-down s1 g k (omega arith) g_free in
      let three = file-set_count s3 f 0 k (omega arith) (omega arith) in
      elim (ℕ_discrete f k) [
        | yes e ↦ let here : (file s k).count ≡ 0 = rw e at free in ground arith
        | no other ↦ ground arith
      ]

  -- Two files and two descriptors that are free.
  record IsFree (s : Fds) (f g i j : ℕ) : Type 0 where
    files_apart : f ≢ g
    f_in : f < nr_file
    g_in : g < nr_file
    f_free : (file s f).count ≡ 0
    g_free : (file s g).count ≡ 0
    apart : i < j
    i_free : i < nr_open → fd_of s i ≡ none
    j_free : j < nr_open → fd_of s j ≡ none

  -- Descriptors written back to free, the files too.
  pair-refused :
      (s : Fds) (f g i j : ℕ) (filp : List (Option ℕ))
      → IsCounted others s
      → IsFree s f g i j
      → filp ≡ s.filp
      → IsCounted others (uncount f g (record (count_up g (count_up f s)) { filp = filp }))
  pair-refused s f g i j filp v free same =
      let s2 = count_up g (count_up f s) in
      let len1 : length (count_up f s).files ≡ length s.files = length-set s.files f _ in
      let len2 : length s2.files ≡ length (count_up f s).files =
        length-set (count_up f s).files g _ in
      let len3 : length (set_count g 0 s2).files ≡ length s2.files = length-set s2.files g _ in
      let len4 : length (uncount f g s2).files ≡ length (set_count g 0 s2).files =
        length-set (set_count g 0 s2).files f _ in
      like-IsCounted s (uncount f g (record s2 { filp = filp })) v same
        (len4 ∙ (len3 ∙ (len2 ∙ (len1 ∙ v.table))))
        (λ k.
          count-down_two s f g k (omega (arith, free.f_in, v.table))
            (omega (arith, free.g_in, v.table)) free.files_apart free.f_free free.g_free)

  -- Both files count one reference.
  counts_up :
      (s : Fds) (f g i j : ℕ)
      → IsCounted others s
      → IsFree s f g i j
      → ((file (count_up g (count_up f s)) f).count ≡ 1)
        × ((file (count_up g (count_up f s)) g).count ≡ 1)
  counts_up s f g i j v free =
      let lt : f < length s.files = omega (arith, free.f_in, v.table) in
      let s1 = count_up f s in
      let len : length s1.files ≡ length s.files = length-set s.files f _ in
      let lt' : g < length s1.files = omega (arith, free.g_in, v.table) in
      let c = (file s1 g).count + 1 in
      let g_one = file-set_count s f ((file s f).count + 1) g lt (omega (arith, free.f_free)) in
      let f_one = file-set_count s f ((file s f).count + 1) f lt (omega (arith, free.f_free)) in
      let g_none : (file s1 g).count ≡ 0 = ground (arith, free.files_apart, free.g_free) in
      let g_two = file-set_count s1 g c g lt' (omega arith) in
      let f_two = file-set_count s1 g c f lt' (omega arith) in
      (ground (arith, free.files_apart, free.f_free), ground arith)

  join-PipeMade :
      (s : Fds) (f g i j : ℕ) (found : Option ℕ)
      → IsCounted others s
      → IsFree s f g i j
      → j < nr_open
      → PipeMade others found s
          (join f g i j found (set_fd j (some g) (set_fd i (some f) (count_up g (count_up f s)))))
  unfolding join attach
  join-PipeMade s f g i j found v free lt = ends found
    where
      s2 : Fds
      s2 = attach j g (attach i f s)

      i_free : fd_of s i ≡ none
      i_free = free.i_free (omega (arith, free.apart))

      v1 : IsCounted others (attach i f s)
      v1 = attach-IsCounted others s i f v (omega (arith, free.apart)) i_free free.f_in

      ne : i ≢ j
      ne = λ e. omega (arith, free.apart)

      still_free : fd_of (attach i f s) j ≡ none
      still_free = get_or-set_ne s.filp (some f) none ne ∙ free.j_free lt

      v2 : IsCounted others s2
      v2 = attach-IsCounted others (attach i f s) j g v1 lt still_free free.g_in

      -- both descriptors as they were
      back : set (set (set (set s.filp i (some f)) j (some g)) j none) i none ≡ s.filp
      back =
          ap (λ filp. set filp i none)
            (set-set_back (set s.filp i (some f)) j (some g) none none still_free)
          ∙ set-set_back s.filp i (some f) none none i_free

      s' : ℕ → Fds
      s' inode = set_end g inode 2 (set_end f inode 1 s2)

      reads : ℕ → File
      reads inode = record (file s2 f) { inode = some inode; offset = pos 0; mode = 1 }

      at_f : (inode : ℕ) → file (s' inode) f ≡ reads inode
      at_f inode =
          get_or-set_ne (set s2.files f (reads inode)) _ unused (λ e. free.files_apart (sym e))
          ∙ get_or-set_self s2.files f (reads inode) unused (omega (arith, v2.table, free.f_in))

      writes : ℕ → File
      writes inode = record (file s2 g) { inode = some inode; offset = pos 0; mode = 2 }

      at_g : (inode : ℕ) → file (s' inode) g ≡ writes inode
      at_g inode =
          get_or-set_self (set s2.files f (reads inode)) g _ unused
            (omega (arith, v2.table, free.g_in, length-set s2.files f (reads inode)))
          ∙ ap {A = File} {B = File}
              (λ w. record w { inode = some inode; offset = pos 0; mode = 2 })
              (get_or-set_ne s2.files (reads inode) unused free.files_apart)

      ends : (found : Option ℕ) → PipeMade others found s (join f g i j found s2)
      ends none = nothing _ (pair-refused s f g i j _ v free back) back
      ends (some inode) = made inode i j (s' inode) refl (record {
        counted =
            same_count-IsCounted others (set_end f inode 1 s2) g _
              (same_count-IsCounted others s2 f _ v2 refl) refl;
        apart = free.apart;
        high = lt;
        were_free = (i_free, free.j_free lt);
        reader = (
          f,
          get_or-set_ne (set s.filp i (some f)) (some g) none (λ e. ne (sym e))
              ∙ get_or-set_self s.filp i (some f) none (omega (arith, v.slots, free.apart)),
          ap File.mode (at_f inode),
          ap File.inode (at_f inode),
          ap File.count (at_f inode) ∙ (counts_up s f g i j v free).0,
        );
        writer = (
          g,
          get_or-set_self (set s.filp i (some f)) j (some g) none
              (omega (arith, v.slots, length-set s.filp i (some f))),
          ap File.mode (at_g inode),
          ap File.inode (at_g inode),
          ap File.count (at_g inode) ∙ (counts_up s f g i j v free).1,
        );
        rest = λ k not_i not_j.
            get_or-set_ne (set s.filp i (some f)) (some g) none (λ e. not_j (sym e))
            ∙ get_or-set_ne s.filp (some f) none (λ e. not_i (sym e));
      })

  take_fds-PipeMade :
      (s : Fds) (f g i j : ℕ) (found : Option ℕ)
      → IsCounted others s
      → IsFree s f g i j
      → PipeMade others found s (take_fds f g i j found (count_up g (count_up f s)))
  unfolding take_fds
  take_fds-PipeMade s f g i j found v free = elim (Bool-cases (leb nr_open j)) [
    | inr room ↦ rw room (join-PipeMade s f g i j found v free (ground arith))
    | inl full ↦ rw full (elim (Bool-cases (leb nr_open i)) [
      | inl none_free ↦ rw none_free (nothing _ (pair-refused s f g i j s.filp v free refl) refl)
      | inr one ↦
          let back : set (set s.filp i (some f)) i none ≡ s.filp =
            set-set_back s.filp i (some f) none none (free.i_free (ground arith)) in
          rw one (nothing _ (pair-refused s f g i j _ v free back) back)
    ])
  ]

  -- With counted references, pipe either returns -1 with no descriptor changed and references
  -- still counted, or it is given an inode and returns 0 with two descriptors that were free, the
  -- first standing for a file that reads the inode and the second for one that writes it, each
  -- counted once, all other descriptors being as they were.
  pub sys_pipe-PipeMade :
      (found : Option ℕ) (s : Fds) → IsCounted others s → PipeMade others found s (sys_pipe found s)
  unfolding sys_pipe
  sys_pipe-PipeMade found s v = elim (Bool-cases (leb nr_file g)) [
    | inr room ↦ rw room (take_fds-PipeMade s f g i j found v (free room))
    | inl full ↦ rw full (elim (Bool-cases (leb nr_file f)) [
      | inl none_free ↦ rw none_free (nothing s v refl)
      | inr one ↦
          let f_free = free_file_free nr_file s.files 0 (ground arith) in
          rw one (
            nothing _
              (like-IsCounted s _ v refl
                (length-set (count_up f s).files f _ ∙ (length-set s.files f _ ∙ v.table))
                (λ k. count-down s f k (ground (arith, v.table)) f_free))
              refl)
    ])
  ]
    where
      f : ℕ
      f = free_file nr_file s.files 0

      g : ℕ
      g = free_file (nr_file - (f + 1)) s.files (f + 1)

      i : ℕ
      i = free_fd nr_open s.filp 0

      j : ℕ
      j = free_fd (nr_open - (i + 1)) s.filp (i + 1)

      free : leb nr_file g ≡ false → IsFree s f g i j
      free room =
          let g_in : g < nr_file = ground arith in
          let (f_g, _) = free_file_bounds (nr_file - (f + 1)) s.files (f + 1) in
          let (i_j, _) = free_fd_bounds (nr_open - (i + 1)) s.filp (i + 1) in
          record {
            files_apart = λ e. omega arith;
            f_in = omega arith;
            g_in = g_in;
            f_free = free_file_free nr_file s.files 0 (omega arith);
            g_free = free_file_free (nr_file - (f + 1)) s.files (f + 1) (omega arith);
            apart = omega arith;
            i_free = λ lt. free_fd_free nr_open s.filp 0 (omega arith);
            j_free = λ lt. free_fd_free (nr_open - (i + 1)) s.filp (i + 1) (omega arith);
          }
