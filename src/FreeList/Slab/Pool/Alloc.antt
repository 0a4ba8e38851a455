-- ===== src/FreeList/Slab/Pool/Alloc.antt =====
-- `allocate` keeps the pool sound.
use cri_archive_lib.Base.{ℕ, ◌+◌, ◌*◌, ◌^◌, ◌≤◌, ◌<◌, ◌≡◌, refl, ◌∙◌, arith}
use cri_archive_lib.Base.{false, some, ◌∷◌}
use cri_archive_lib.Base.{inl, inr}
use native.Mathlib.Decide.{dec_le, dec_lt}
use cri_archive_lib.FreeList.Bitmap.{usize, block_bit, bit_on}
use cri_archive_lib.FreeList.Bitmap.Zero.{IsFree}
use cri_archive_lib.FreeList.Bitmap.Writes.{IsPainted, bit_on-IsPainted}
use cri_archive_lib.FreeList.Bitmap.Keep.{bit_on-IsBytes}
use cri_archive_lib.FreeList.Slab.{
  FreeList, FreeListNode, block_shift, block_size, new_managed, new_unmanaged, allocate,
  first_block,
}
use cri_archive_lib.FreeList.Slab.Alloc.{Chosen, allocate_cases}
use cri_archive_lib.FreeList.Slab.Owners.{
  owners, owners-cons, holds_inside, holds_outside, holds_unmanaged,
}
use cri_archive_lib.FreeList.Slab.Pool.{Pool, IsSound}

first_block-new :
    (slab start size : ℕ)
    → slab + 2 ^ 26 ≤ 2 ^ 64
    → start ≤ 255
    → first_block slab (new_managed (usize (slab + start * 2 ^ block_shift)) size) ≡ start
unfolding first_block
first_block-new slab start size h k = omega arith

-- The node of a fresh run of blocks.
managed-IsSound :
    (p : Pool) (start size : ℕ)
    → IsSound p
    → size < 2 ^ 63
    → start + block_size size ≤ 255
    → IsFree p.list.used start (start + block_size size)
    → IsSound (record {
      list = record p.list { used = bit_on p.list.used start (block_size size); lock = false };
      live = new_managed (usize (p.list.slab + start * 2 ^ block_shift)) size ∷ p.live;
    })
managed-IsSound p start size sound small fits free = record {
  size = painted.same_length ∙ sound.size;
  bytes = bit_on-IsBytes p.list.used start (block_size size) sound.bytes;
  unlocked = refl;
  slab_fits = sound.slab_fits;
  placed =
      (λ own. (omega (arith, first, sound.slab_fits), omega (arith, first), small), sound.placed);
  exact = λ i. exact i (dec_le start i) (dec_lt i (start + block_size size));
}
  where
    node : FreeListNode
    node = new_managed (usize (p.list.slab + start * 2 ^ block_shift)) size

    first : first_block p.list.slab node ≡ start
    first = first_block-new p.list.slab start size sound.slab_fits (omega arith)

    painted :
        IsPainted 1 start
          (start + block_size size)
          p.list.used
          (bit_on p.list.used start (block_size size))
    painted = bit_on-IsPainted p.list.used start (block_size size) sound.size fits

    exact :
        (i : ℕ)
        → Dec (start ≤ i)
        → Dec (i < start + block_size size)
        → block_bit (bit_on p.list.used start (block_size size)) i
          ≡ owners p.list.slab (node ∷ p.live) i
    exact i (yes l) (yes r) = ground (
      arith,
      painted.inside i l r,
      owners-cons p.list.slab node p.live i,
      holds_inside p.list.slab node i refl (omega (arith, first)) (omega (arith, first)),
      sound.exact i,
      free i l r,
    )
    exact i (yes l) (no r) = ground (
      arith,
      painted.outside i (inr (omega arith)),
      owners-cons p.list.slab node p.live i,
      holds_outside p.list.slab node i (inr (omega (arith, first))),
      sound.exact i,
    )
    exact i (no l) d = ground (
      arith,
      painted.outside i (inl (omega arith)),
      owners-cons p.list.slab node p.live i,
      holds_outside p.list.slab node i (inl (omega (arith, first))),
      sound.exact i,
    )

unmanaged-IsSound :
    (p : Pool) (heap size : ℕ)
    → IsSound p
    → IsSound
        (record { list = record p.list { lock = false }; live = new_unmanaged heap size ∷ p.live })
unmanaged-IsSound p heap size sound = record {
  size = sound.size;
  bytes = sound.bytes;
  unlocked = refl;
  slab_fits = sound.slab_fits;
  placed = (λ own. cc, sound.placed);
  exact = λ i. ground (
    arith,
    owners-cons p.list.slab (new_unmanaged heap size) p.live i,
    holds_unmanaged p.list.slab (new_unmanaged heap size) i refl,
    sound.exact i,
  );
}

Chosen-IsSound :
    (p : Pool) (heap size : ℕ) {r : FreeList × FreeListNode}
    → IsSound p
    → size < 2 ^ 63
    → block_size size ≤ 64
    → Chosen p.list heap size r
    → IsSound (record { list = r.0; live = r.1 ∷ p.live })
Chosen-IsSound p heap size sound small few (Chosen.managed start fits free) =
    managed-IsSound p start size sound small fits (λ i l m. free i l (omega arith))
Chosen-IsSound p heap size sound small few (Chosen.unmanaged s past first) =
    unmanaged-IsSound p heap size sound

-- An allocation of up to 64 blocks keeps the pool sound.
pub allocate-IsSound :
    (p : Pool) (heap size : ℕ) (list' : FreeList) (node : FreeListNode)
    → IsSound p
    → size < 2 ^ 63
    → block_size size ≤ 64
    → allocate p.list heap size ≡ some (list', node)
    → IsSound (record { list = list'; live = node ∷ p.live })
allocate-IsSound p heap size list' node sound small few e =
    Chosen-IsSound p heap size sound small few
      (allocate_cases p.list heap size sound.bytes sound.unlocked small e)
