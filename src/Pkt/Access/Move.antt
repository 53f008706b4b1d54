-- ===== src/Pkt/Access/Move.antt =====
-- Where `move_forward` takes the cursor: on in the block, to the next block, or to the end.
use tinytcp.Base.{ℕ, ◌+◌, ◌≤◌, ◌<◌, ◌≡◌, refl, sym, ◌∙◌, List, [], ◌∷◌, ◌++◌, add32, arith}
use mathlib.Core.List.{append_assoc}
use tinytcp.Memblock.{Ptr}
use tinytcp.NetErr.{ok}
use tinytcp.Pkt.{PktBuffer, PktManager}
use tinytcp.Pkt.View.{total, BlockOk, AllOk-append_right, IsPacket, total-append}
use tinytcp.Pkt.Access.{next_blk, start_of, move_forward}
use tinytcp.Pkt.Access.Cursor.{
  Place, IsCursor, room, deref-ok, head_of, next_blk-middle, good, c-ok, apart, fits,
}

-- `b` after `n` bytes: only the cursor differs.
pub record Moved (m : PktManager) (b : PktBuffer) (n : ℕ) (b' : PktBuffer) : Type 0 where
  pub cursor : IsCursor m b'
  pub pos_eq : b'.pos ≡ b.pos + n
  pub list_eq : b'.blk_list ≡ b.blk_list
  pub capacity_eq : b'.capacity ≡ b.capacity
  pub ref_eq : b'.ref ≡ b.ref

module _ (m : PktManager) (b : PktBuffer) (before : List Ptr) (c : Ptr) (n : ℕ) (k : IsPacket m b)
    (h : n ≤ room m b) where
  -- Still in the block.
  pub move_inside :
      (after : List Ptr)
      → b.blk_list ≡ before ++ c ∷ after
      → Place m b before (c ∷ after)
      → b.blk_offset + n < (m.blocks c).offset + (m.blocks c).size
      → (b' : PktBuffer) × (move_forward m n b ≡ ok b') × Moved m b n b'
  unfolding move_forward
  move_inside after split place inside = (
    record b { pos = add32 b.pos n; blk_offset = b.blk_offset + n },
    ground (arith, deref-ok m c, (c-ok m b before c after k split place).not_null),
    record {
      cursor = record {
        before = before;
        after = c ∷ after;
        split = split;
        place = ground (arith, fits m b before c after k split place n h, k.small);
      };
      pos_eq = omega (arith, fits m b before c after k split place n h, k.small);
      list_eq = refl;
      capacity_eq = refl;
      ref_eq = refl;
    },
  )

  -- On to the next block, or to the end.
  module _ (after : List Ptr) (split : b.blk_list ≡ before ++ c ∷ after)
      (place : Place m b before (c ∷ after))
      (done : b.blk_offset + n ≡ (m.blocks c).offset + (m.blocks c).size) where
    over : PktBuffer
    over = record b {
      pos = add32 b.pos n;
      cur_blk = head_of after;
      blk_offset = elim after [ [] ↦ 0 | d ∷ ds ↦ (m.blocks d).offset ];
    }

    over_next : next_blk c b.blk_list ≡ ok (head_of after)
    over_next = rw split (next_blk-middle before c after (apart m b before c after k split place).0)

    over_pos : add32 b.pos n ≡ b.pos + n
    over_pos = omega (arith, fits m b before c after k split place n h, k.small)

    over_split : b.blk_list ≡ (before ++ c ∷ []) ++ after
    over_split = split ∙ sym (append_assoc before (c ∷ []) after)

    over_total : b.pos + n ≡ total m (before ++ c ∷ [])
    over_total = omega (arith, total-append m before (c ∷ []))

  pub move_on :
      (after : List Ptr)
      → b.blk_list ≡ before ++ c ∷ after
      → Place m b before (c ∷ after)
      → b.blk_offset + n ≡ (m.blocks c).offset + (m.blocks c).size
      → (b' : PktBuffer) × (move_forward m n b ≡ ok b') × Moved m b n b'
  unfolding move_forward over head_of start_of
  move_on [] split place done = (
    over [] split place done,
    ground (
      arith,
      deref-ok m c,
      (c-ok m b before c [] k split place).not_null,
      over_next [] split place done,
    ),
    record {
      cursor = record {
        before = before ++ c ∷ [];
        after = [];
        split = over_split [] split place done;
        place = (refl, over_pos [] split place done ∙ over_total [] split place done);
      };
      pos_eq = over_pos [] split place done;
      list_eq = refl;
      capacity_eq = refl;
      ref_eq = refl;
    },
  )
  move_on (d ∷ after) split place done = (
    over (d ∷ after) split place done,
    ground (
      arith,
      deref-ok m c,
      deref-ok m d,
      d-ok.not_null,
      (c-ok m b before c (d ∷ after) k split place).not_null,
      over_next (d ∷ after) split place done,
    ),
    record {
      cursor = record {
        before = before ++ c ∷ [];
        after = d ∷ after;
        split = over_split (d ∷ after) split place done;
        place = (
          refl,
          omega arith,
          omega (arith, d-ok.nonempty),
          omega (
            arith,
            over_pos (d ∷ after) split place done,
            over_total (d ∷ after) split place done,
          ),
        );
      };
      pos_eq = over_pos (d ∷ after) split place done;
      list_eq = refl;
      capacity_eq = refl;
      ref_eq = refl;
    },
  )
    where
      d-ok : BlockOk m d
      d-ok =
          (AllOk-append_right m before (c ∷ d ∷ after)
            (good m b before c (d ∷ after) k split place)).1.0
