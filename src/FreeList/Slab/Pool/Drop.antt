-- ===== src/FreeList/Slab/Pool/Drop.antt =====
-- Dropping a node keeps the pool sound.
use mathlib.Core.Path.{subst}
use cri_archive_lib.Base.{ℕ, ◌+◌, ◌≤◌, ◌<◌, ◌≡◌, refl, sym, ap, some-inj, ◌∙◌, arith}
use cri_archive_lib.Base.{true, false, some, List, ◌∷◌, ◌++◌, All}
use cri_archive_lib.Base.{Bool-cases, inl, inr}
use native.Mathlib.Decide.{dec_le, dec_lt}
use cri_archive_lib.FreeList.Bitmap.{block_bit, block_bit-lt, bit_off}
use cri_archive_lib.FreeList.Bitmap.Writes.{IsPainted, bit_off-IsPainted}
use cri_archive_lib.FreeList.Bitmap.Keep.{bit_off-IsBytes}
use cri_archive_lib.FreeList.Slab.{FreeList, FreeListNode, block_size, first_block, drop_node}
use cri_archive_lib.FreeList.Slab.Alloc.{deallocate-eq}
use cri_archive_lib.FreeList.Slab.Owners.{
  hold_count, owners, owners-middle, holds_inside, holds_outside, holds_unmanaged, All-middle,
}
use cri_archive_lib.FreeList.Slab.Pool.{Pool, IsPlaced, IsSound}

drop_node_managed :
    (list : FreeList) (node : FreeListNode)
    → list.lock ≡ false
    → node.owner ≡ true
    → drop_node list node
      ≡ some (record list {
        used = bit_off list.used (first_block list.slab node) (block_size node.size);
        lock = false;
      })
unfolding drop_node
drop_node_managed list node unlocked own = simp own (deallocate-eq list node unlocked)

drop_node_unmanaged :
    (list : FreeList) (node : FreeListNode) → node.owner ≡ false → drop_node list node ≡ some list
unfolding drop_node
drop_node_unmanaged list node own = simp own

module _ (p : Pool) (front back : List FreeListNode) (node : FreeListNode) (sound : IsSound p)
    (split : p.live ≡ front ++ node ∷ back) where
  exact_split :
      (i : ℕ)
      → block_bit p.list.used i
        ≡ hold_count p.list.slab node i + owners p.list.slab (front ++ back) i
  exact_split i =
      sound.exact i
      ∙ ap (λ l. owners p.list.slab l i) split
      ∙ owners-middle p.list.slab front back node i

  IsPlaced-split : IsPlaced p.list.slab node × All (IsPlaced p.list.slab) (front ++ back)
  IsPlaced-split =
      All-middle (IsPlaced p.list.slab) front back node
        (subst (λ l. All (IsPlaced p.list.slab) l) split sound.placed)

  freed-IsSound :
      node.owner ≡ true
      → IsSound (record {
        list = record p.list {
          used = bit_off p.list.used (first_block p.list.slab node) (block_size node.size);
          lock = false;
        };
        live = front ++ back;
      })
  freed-IsSound own = record {
    size = painted.same_length ∙ sound.size;
    bytes = bit_off-IsBytes p.list.used _ (block_size node.size) sound.bytes;
    unlocked = refl;
    slab_fits = sound.slab_fits;
    placed = IsPlaced-split.1;
    exact = λ i. exact i (dec_le first i) (dec_lt i (first + block_size node.size));
  }
    where
      first : ℕ
      first = first_block p.list.slab node

      painted :
          IsPainted 0 first
            (first + block_size node.size)
            p.list.used
            (bit_off p.list.used first (block_size node.size))
      painted =
          bit_off-IsPainted p.list.used first (block_size node.size) sound.size
            (IsPlaced-split.0 own).1

      exact :
          (i : ℕ)
          → Dec (first ≤ i)
          → Dec (i < first + block_size node.size)
          → block_bit (bit_off p.list.used first (block_size node.size)) i
            ≡ owners p.list.slab (front ++ back) i
      exact i (yes l) (yes r) = ground (
        arith,
        painted.inside i l r,
        exact_split i,
        holds_inside p.list.slab node i own l r,
        block_bit-lt p.list.used i,
      )
      exact i (yes l) (no r) = ground (
        arith,
        painted.outside i (inr (omega arith)),
        exact_split i,
        holds_outside p.list.slab node i (inr (omega arith)),
      )
      exact i (no l) d = ground (
        arith,
        painted.outside i (inl (omega arith)),
        exact_split i,
        holds_outside p.list.slab node i (inl (omega arith)),
      )

  kept-IsSound : node.owner ≡ false → IsSound (record { list = p.list; live = front ++ back })
  kept-IsSound own = record {
    size = sound.size;
    bytes = sound.bytes;
    unlocked = sound.unlocked;
    slab_fits = sound.slab_fits;
    placed = IsPlaced-split.1;
    exact = λ i. ground (arith, exact_split i, holds_unmanaged p.list.slab node i own);
  }

  -- Dropping any live node keeps the pool sound.
  pub drop_node-IsSound :
      (list' : FreeList)
      → drop_node p.list node ≡ some list'
      → IsSound (record { list = list'; live = front ++ back })
  drop_node-IsSound list' e = elim (Bool-cases node.owner) [
    | inl own ↦
        subst (λ l. IsSound (record { list = l; live = front ++ back }))
          (some-inj (sym (drop_node_managed p.list node sound.unlocked own) ∙ e))
          (freed-IsSound own)
    | inr own ↦
        subst (λ l. IsSound (record { list = l; live = front ++ back }))
          (some-inj (sym (drop_node_unmanaged p.list node own) ∙ e)) (kept-IsSound own)
  ]
