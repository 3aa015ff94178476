-- ===== src/Fs/Bmap/Tests.antt =====
-- fs/inode.c: an empty file gets block 300, a zone of entries and the block.
use lambda_linux_kernel.Prelude.{
  ℕ, zero, suc, ◌≡◌, refl, Bool, true, false, [], ◌∷◌, replicate, arith,
}
use lambda_linux_kernel.Fs.Bmap.{File, create_block}
use lambda_linux_kernel.Fs.Bmap.Tree.{node, IsTree}
use lambda_linux_kernel.Fs.Bmap.Refine.{Returns, IsMapped, create_block-IsMapped}

abbrev empty : File
empty = record {
  zones = replicate 9 0;
  dirt = false;
  ctime = 0;
  entries = λ z k. 0;
  supply = 100 ∷ 101 ∷ [];
}

abbrev always : ℕ → Bool
always z = true

no_node : (r : ℕ) → node empty r ≡ 0
no_node zero = refl
no_node (suc zero) = refl
no_node (suc (suc j)) = refl

empty-IsTree : IsTree empty
empty-IsTree = record {
  size = refl;
  sep = λ r r' q nz. absurd (nz (no_node r));
  fresh = (
    (λ q. omega arith, λ r q. omega (arith, no_node r)),
    ((λ q. omega arith, λ r q. omega (arith, no_node r)), tt),
  );
  apart = ((λ q. omega arith, tt), (tt, tt));
}

create_block-IsMapped_example :
    Returns (IsMapped always 7 300 empty) (create_block always 7 300 empty)
create_block-IsMapped_example = create_block-IsMapped always 7 300 empty empty-IsTree (omega arith)
