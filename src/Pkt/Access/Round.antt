-- ===== src/Pkt/Access/Round.antt =====
-- One round of the cursor's loops, with the blocks around the cursor left out of the statements.
use tinytcp.Base.{
  ℕ, ◌+◌, ◌≤◌, ◌<◌, ◌≡◌, refl, ◌∙◌, true, false, Option, none, some, sym, ap, List, [], ◌∷◌, ◌++◌,
  arith, length, slice, overwrite, dec_lt,
}
use tinytcp.Memblock.{Ptr}
use tinytcp.NetErr.{ok}
use tinytcp.Pkt.{PktBuffer, PktManager}
use tinytcp.Pkt.View.{
  contents, total, has, has-append, IsPacket, SameShape, contents-put_block, total-append,
  total-same,
}
use tinytcp.Pkt.Access.{cur_blk_remain_size, move_forward, store_current, load_current}
use tinytcp.Pkt.Access.Cursor.{
  Place, IsCursor, room, here_remain, here_room, here_load, here_store, stored, stored-contents,
  stored-SameShape, fits, here_inside,
}
use tinytcp.Pkt.Access.Move.{Moved, move_inside, move_on}

-- No block is in both lists.
abbrev pub Disjoint : List Ptr → List Ptr → Type 0
Disjoint ps qs = (p : Ptr) → has p ps ≡ true → has p qs ≡ false

-- What storing `src` at the cursor does.
pub record Stored (m : PktManager) (b : PktBuffer) (src : List ℕ) (m' : PktManager) : Type 0 where
  pub runs : store_current m b src ≡ ok m'
  pub shape : SameShape m m'
  pub written : contents m' b.blk_list ≡ overwrite (contents m b.blk_list) b.pos src
  pub others : (qs : List Ptr) → Disjoint b.blk_list qs → contents m' qs ≡ contents m qs

pub record Round (m : PktManager) (b : PktBuffer) : Type 0 where
  pub remain : cur_blk_remain_size m b ≡ ok (room m b)
  pub room_pos : 0 < room m b
  pub fit : b.pos + room m b ≤ b.capacity
  pub load :
      (n : ℕ) → n ≤ room m b → load_current m b n ≡ ok (slice (contents m b.blk_list) b.pos n)
  pub store : (src : List ℕ) → length src ≤ room m b → (m' : PktManager) × Stored m b src m'
  pub move :
      (n : ℕ) → n ≤ room m b → (b' : PktBuffer) × (move_forward m n b ≡ ok b') × Moved m b n b'

has_middle : (before : List Ptr) (c : Ptr) (after : List Ptr) → has c (before ++ c ∷ after) ≡ true
has_middle before c after = ground (arith, has-append c before (c ∷ after))

Round-at :
    (m : PktManager) (b : PktBuffer) (before after : List Ptr)
    → IsPacket m b
    → b.blk_list ≡ before ++ after
    → Place m b before after
    → b.pos < b.capacity
    → Round m b
unfolding stored
Round-at m b before [] k split place h =
    absurd (omega (arith, k.counted, total-append m before [], ap (total m) split))
Round-at m b before (c ∷ after) k split place h = record {
  remain = here_remain m b before c after k split place;
  room_pos = (here_room m b before c after k split place).0;
  fit = fits m b before c after k split place (room m b) (omega arith);
  load = here_load m b before c after k split place;
  store = λ src g. (
    stored m b before c after k split place src,
    record {
      runs = here_store m b before c after k split place src g;
      shape = stored-SameShape m b before c after k split place src;
      written = stored-contents m b before c after k split place src g;
      others =
          λ qs apart. contents-put_block m c _ qs (apart c (rw split (has_middle before c after)));
    },
  );
  move = λ n g. elim (dec_lt (b.blk_offset + n) ((m.blocks c).offset + (m.blocks c).size)) [
    | yes p ↦ move_inside m b before c n k g after split place p
    | no p ↦
        move_on m b before c n k g after split place
          (omega (arith, here_inside m b before c after k split place n g))
  ];
}

-- A cursor in front of the end can take a round.
pub round :
    (m : PktManager) (b : PktBuffer) → IsPacket m b → IsCursor m b → b.pos < b.capacity → Round m b
round m b k c h = Round-at m b c.before c.after k c.split c.place h

-- The cursor does not see the bytes.
module _ {m g : PktManager} (s : SameShape m g) where
  Place-same :
      (b : PktBuffer) (before after : List Ptr) → Place m b before after → Place g b before after
  Place-same b before [] h = (h.0, h.1 ∙ sym (total-same s before))
  Place-same b before (c ∷ after) h = (
    h.0,
    omega (arith, s.offsets c),
    omega (arith, s.offsets c, s.sizes c),
    omega (arith, s.offsets c, total-same s before),
  )

  pub IsCursor-same : (b : PktBuffer) → IsCursor m b → IsCursor g b
  IsCursor-same b c = record {
    before = c.before;
    after = c.after;
    split = c.split;
    place = Place-same b c.before c.after c.place;
  }

  pub room-same : (b : PktBuffer) → room g b ≡ room m b
  room-same b = go b.cur_blk
    where
      at : Option Ptr → PktBuffer
      at o = record b { cur_blk = o }

      go : (o : Option Ptr) → room g (at o) ≡ room m (at o)
      go none = refl
      go (some p) = omega (arith, s.offsets p, s.sizes p)
