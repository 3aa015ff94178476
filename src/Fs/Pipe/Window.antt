-- ===== src/Fs/Pipe/Window.antt =====
-- The bytes that a pipe holds, oldest first, and what copying makes of them.
use lambda_linux_kernel.Prelude.{
  ℕ, zero, suc, ◌+◌, ◌%◌, ◌≤◌, ◌<◌, ◌≡◌, ◌≢◌, refl, List, [], ◌∷◌, ◌++◌, get_or, set, length,
  length-set, get_or-set_self, get_or-set_ne, arith, ap, ap₂, ◌∙◌, sym,
}
use mathlib.Core.List.{append-nil, append_assoc}
use lambda_linux_kernel.Fs.Pipe.{Pipe, page_size, pipe_size, copy_out, copy_in}

-- The `n` bytes from index `t` on, going round at the end of the page.
pub window : List ℕ → ℕ → ℕ → List ℕ
window page t zero = []
window page t (suc n) = get_or page t 0 ∷ window page ((t + 1) % page_size) n

unfoldable pub contents : Pipe → List ℕ
contents p = window p.page p.tail (pipe_size p)

pub length-window : (page : List ℕ) (t n : ℕ) → length (window page t n) ≡ n
unfolding window
length-window page t zero = refl
length-window page t (suc n) = ap suc (length-window page ((t + 1) % page_size) n)

pub length-copy_out : (page : List ℕ) (t n : ℕ) → length (copy_out page t n) ≡ n
unfolding copy_out
length-copy_out page t zero = refl
length-copy_out page t (suc n) = ap suc (length-copy_out page (t + 1) n)

pub copy_out-window :
    (page : List ℕ) (t n : ℕ) → t + n ≤ page_size → copy_out page t n ≡ window page t n
unfolding copy_out window
copy_out-window page t zero h = refl
copy_out-window page t (suc zero) h = refl
copy_out-window page t (suc (suc n)) h =
    let e : (t + 1) % page_size ≡ t + 1 = omega arith in
    rw e (ap (λ bs. get_or page t 0 ∷ bs) (copy_out-window page (t + 1) (suc n) (omega arith)))

-- A window is its first part and the rest.
pub window_split :
    (page : List ℕ) (t n m s : ℕ)
    → s ≡ n + m
    → window page (t % page_size) s
      ≡ window page (t % page_size) n ++ window page ((t + n) % page_size) m
unfolding window
window_split page t zero m s e =
    let e' : s ≡ m = omega arith in
    let e'' : (t + 0) % page_size ≡ t % page_size = omega arith in rw (e', e'')
window_split page t (suc n) m zero e = absurd (omega arith)
window_split page t (suc n) m (suc s) e =
    let step : (t % page_size + 1) % page_size ≡ (t + 1) % page_size = omega arith in
    let end : (t + suc n) % page_size ≡ (t + 1 + n) % page_size = omega arith in
    rw (step, end)
      (ap (λ bs. get_or page (t % page_size) 0 ∷ bs)
        (window_split page (t + 1) n m s (omega arith)))

-- A write outside a window does not show in it.
window-set_outside :
    (page : List ℕ) (t n i b : ℕ)
    → ((k : ℕ) → k < n → (t + k) % page_size ≢ i)
    → t < page_size
    → window (set page i b) t n ≡ window page t n
unfolding window
window-set_outside page t zero i b out h = refl
window-set_outside page t (suc n) i b out h =
    ap₂ ◌∷◌ (get_or-set_ne page b 0 (λ e. out 0 (omega arith) (omega arith))) (
      window-set_outside page ((t + 1) % page_size) n i b
        (λ k lt e. out (suc k) (omega arith) (omega arith)) (omega arith))

last_byte : (page : List ℕ) (i b : ℕ) → get_or page i 0 ≡ b → window page i 1 ≡ b ∷ []
unfolding window
last_byte page i b e = rw e

-- A byte written just past a window joins its end.
pub window-push :
    (page : List ℕ) (t n b : ℕ)
    → length page ≡ page_size
    → t < page_size
    → n < page_size
    → window (set page ((t + n) % page_size) b) t (suc n) ≡ window page t n ++ (b ∷ [])
window-push page t n b full ht hn =
    let i = (t + n) % page_size in
    let same : t % page_size ≡ t = omega arith in
    let halves : window (set page i b) t (suc n)
        ≡ window (set page i b) t n ++ window (set page i b) i 1 =
      rw same at (window_split (set page i b) t n 1 (suc n) (omega arith)) in
    halves
    ∙ ap₂ ◌++◌ (window-set_outside page t n i b (λ k lt e. omega arith) ht)
        (last_byte (set page i b) i b (get_or-set_self page i b 0 (omega arith)))

pub length-copy_in :
    (page : List ℕ) (i : ℕ) (bs : List ℕ) → length (copy_in page i bs) ≡ length page
unfolding copy_in
length-copy_in page i [] = refl
length-copy_in page i (b ∷ bs) = length-copy_in (set page i b) (i + 1) bs ∙ length-set page i b

-- Bytes copied in just past a window, up to the end of the page at most, join its end.
pub window-copy_in :
    (bs page : List ℕ) (t n h s : ℕ)
    → length page ≡ page_size
    → t < page_size
    → n + length bs ≤ page_size
    → h ≡ (t + n) % page_size
    → h + length bs ≤ page_size
    → s ≡ n + length bs
    → window (copy_in page h bs) t s ≡ window page t n ++ bs
unfolding copy_in
window-copy_in [] page t n h s full ht fits at end e =
    let e' : s ≡ n = omega arith in rw e' (sym (append-nil (window page t n)))
window-copy_in (b ∷ []) page t n h s full ht fits at end e =
    let e' : s ≡ suc n = omega arith in rw (e', at) (window-push page t n b full ht (omega arith))
window-copy_in (b ∷ c ∷ bs) page t n h s full ht fits at end e =
    window-copy_in (c ∷ bs) (set page h b) t (suc n) (h + 1) s (length-set page h b ∙ full) ht
      (omega arith) (omega arith) (omega arith) (omega arith)
    ∙ (ap (λ w. w ++ (c ∷ bs)) (rw at (window-push page t n b full ht (omega arith)))
        ∙ append_assoc (window page t n) (b ∷ []) (c ∷ bs))
