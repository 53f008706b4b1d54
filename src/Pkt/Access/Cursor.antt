-- ===== src/Pkt/Access/Cursor.antt =====
-- One round of a loop over the cursor: how much the current block has left, what a copy at the
-- cursor does to the packet's bytes, and where `move_forward` goes.
use tinytcp.Base.{
  ℕ, ◌+◌, ◌-◌, ◌≤◌, ◌<◌, ◌≡◌, ◌≢◌, refl, sym, subst, ap, ap₂, ◌∙◌, false, Option, none, some, List,
  [], ◌∷◌, ◌++◌, arith, length, slice, overwrite,
}
use tinytcp.Base.Bytes.Laws.{
  length-overwrite, overwrite-append_right, overwrite-append_left, slice-overwrite, slice-slice,
  slice-append_right, slice-append_left,
}
use tinytcp.Memblock.{Ptr}
use tinytcp.NetErr.{ok}
use tinytcp.Pkt.{PktBuffer, PktManager, put_block, deref, load_bytes, store_bytes}
use tinytcp.Pkt.View.{
  bytes, contents, total, has, Distinct, BlockOk, AllOk, IsPacket, SameShape, AllOk-append_left,
  AllOk-append_right, Distinct-split, length-contents, length-bytes, contents-append, total-append,
  contents-put_block,
}
use tinytcp.Pkt.Access.{cur_blk_remain_size, next_blk, store_current, load_current}

-- The blocks `before` the cursor and from it on, and the place in its block.
abbrev pub Place : PktManager → PktBuffer → (before after : List Ptr) → Type 0
Place m b before [] = (b.cur_blk ≡ none) × (b.pos ≡ total m before)
Place m b before (c ∷ after) =
    (b.cur_blk ≡ some c)
    × ((m.blocks c).offset ≤ b.blk_offset)
    × (b.blk_offset < (m.blocks c).offset + (m.blocks c).size)
    × (b.pos + (m.blocks c).offset ≡ total m before + b.blk_offset)

-- `m_cur_blk` and `m_blk_offset` stand at byte `m_pos` of the list.
pub record IsCursor (m : PktManager) (b : PktBuffer) : Type 0 where
  pub before : List Ptr
  pub after : List Ptr
  pub split : b.blk_list ≡ before ++ after
  pub place : Place m b before after

-- What the current block has left.
abbrev pub room : PktManager → PktBuffer → ℕ
room m b = elim b.cur_blk [
  | none ↦ 0
  | some p ↦ (m.blocks p).offset + (m.blocks p).size - b.blk_offset
]

pub deref-ok : (m : PktManager) (p : Ptr) → p ≢ 0 → deref m p ≡ ok (m.blocks p)
unfolding deref
deref-ok m p h = ground arith

unfoldable pub head_of : List Ptr → Option Ptr
head_of [] = none
head_of (p ∷ ps) = some p

pub next_blk-middle :
    (ps : List Ptr) (c : Ptr) (qs : List Ptr)
    → has c ps ≡ false
    → next_blk c (ps ++ c ∷ qs) ≡ ok (head_of qs)
unfolding next_blk head_of
next_blk-middle [] c [] h = ground arith
next_blk-middle [] c (q ∷ qs) h = ground arith
next_blk-middle (p ∷ []) c qs h = ground (arith, next_blk-middle [] c qs)
next_blk-middle (p ∷ r ∷ ps) c qs h = ground (arith, next_blk-middle (r ∷ ps) c qs)

-- The cursor in the block `c`.
module _ (m : PktManager) (b : PktBuffer) (before : List Ptr) (c : Ptr) (after : List Ptr)
    (k : IsPacket m b) (split : b.blk_list ≡ before ++ c ∷ after)
    (place : Place m b before (c ∷ after)) where
  pub good : AllOk m (before ++ c ∷ after)
  good = subst (AllOk m) split k.good

  pub c-ok : BlockOk m c
  c-ok = (AllOk-append_right m before (c ∷ after) good).0

  pub apart : (has c before ≡ false) × (has c after ≡ false)
  apart = Distinct-split before c after (subst Distinct split k.distinct)

  -- The bytes in front of the cursor's block.
  length-before : length (contents m before) ≡ total m before
  length-before = length-contents m before (AllOk-append_left m before (c ∷ after) good)

  pub whole : total m b.blk_list ≡ total m before + (m.blocks c).size + total m after
  whole = rw split (omega (arith, total-append m before (c ∷ after)))

  -- The contents around the cursor's block.
  around : contents m b.blk_list ≡ contents m before ++ (bytes m c ++ contents m after)
  around = rw split (contents-append m before (c ∷ after))

  pub here_remain : cur_blk_remain_size m b ≡ ok (room m b)
  unfolding cur_blk_remain_size
  here_remain = ground (arith, deref-ok m c, c-ok.not_null, c-ok.inside, k.block_small)

  pub here_room : (0 < room m b) × (b.pos + room m b ≡ total m before + (m.blocks c).size)
  here_room = ground arith

  pub fits : (n : ℕ) → n ≤ room m b → b.pos + n ≤ b.capacity
  fits n h = omega (arith, here_room.1, whole, k.counted)

  -- Where a copy of `n` bytes at the cursor lies in the block.
  pub here_inside :
      (n : ℕ) → n ≤ room m b → b.blk_offset + n ≤ (m.blocks c).offset + (m.blocks c).size
  here_inside n h = ground arith

  -- The cursor's place in the block.
  index : ℕ
  index = b.blk_offset - (m.blocks c).offset

  pos_eq : b.pos ≡ length (contents m before) + index
  unfolding index
  pos_eq = omega (arith, length-before)

  loaded :
      (n : ℕ)
      → n ≤ room m b
      → slice (m.blocks c).payload b.blk_offset n ≡ slice (contents m b.blk_list) b.pos n
  unfolding index
  loaded n h = sym (
      ap₂ (λ t (i : ℕ). slice t i n) around pos_eq
      ∙ slice-append_right (contents m before) (bytes m c ++ contents m after) index n
      ∙ slice-append_left (bytes m c) (contents m after) index n
          (omega (arith, here_inside n h, length-bytes m c c-ok))
      ∙ slice-slice (m.blocks c).payload (m.blocks c).offset (m.blocks c).size index n
          (omega (arith, here_inside n h))
      ∙ ap (λ (i : ℕ). slice (m.blocks c).payload i n) (omega arith))

  pub here_load :
      (n : ℕ) → n ≤ room m b → load_current m b n ≡ ok (slice (contents m b.blk_list) b.pos n)
  unfolding load_current load_bytes
  here_load n h =
      ground
        (arith, deref-ok m c, c-ok.not_null, c-ok.inside, c-ok.sized, here_inside n h, loaded n h)

  unfoldable pub stored : List ℕ → PktManager
  stored src =
      put_block c
        (record (m.blocks c) { payload = overwrite (m.blocks c).payload b.blk_offset src }) m

  pub here_store : (src : List ℕ) → length src ≤ room m b → store_current m b src ≡ ok (stored src)
  unfolding store_current store_bytes stored
  here_store src h =
      ground
        (arith, deref-ok m c, c-ok.not_null, c-ok.inside, c-ok.sized, here_inside (length src) h)

  stored-bytes :
      (src : List ℕ)
      → length src ≤ room m b
      → bytes (stored src) c ≡ overwrite (bytes m c) index src
  unfolding stored index
  stored-bytes src h = ground (
    arith,
    slice-overwrite (m.blocks c).payload (m.blocks c).offset (m.blocks c).size b.blk_offset src,
    here_inside (length src) h,
  )

  stored-around :
      (src : List ℕ)
      → contents (stored src) b.blk_list
        ≡ contents m before ++ (bytes (stored src) c ++ contents m after)
  unfolding stored
  stored-around src = rw split (
      contents-append (stored src) before (c ∷ after)
      ∙ ap₂ (λ t u. t ++ (bytes (stored src) c ++ u)) (contents-put_block m c _ before apart.0)
          (contents-put_block m c _ after apart.1))

  pub stored-contents :
      (src : List ℕ)
      → length src ≤ room m b
      → contents (stored src) b.blk_list ≡ overwrite (contents m b.blk_list) b.pos src
  unfolding index
  stored-contents src h =
      stored-around src
      ∙ ap (λ t. contents m before ++ (t ++ contents m after)) (stored-bytes src h)
      ∙ ap (λ t. contents m before ++ t)
          (sym (
            overwrite-append_left (bytes m c) (contents m after) index src
              (omega (arith, here_inside (length src) h, length-bytes m c c-ok))))
      ∙ sym (overwrite-append_right (contents m before) (bytes m c ++ contents m after) index src)
      ∙ sym (ap₂ (λ t (i : ℕ). overwrite t i src) around pos_eq)

  pub stored-SameShape : (src : List ℕ) → SameShape m (stored src)
  unfolding stored
  stored-SameShape src = record {
    offsets = λ p. ground arith;
    sizes = λ p. ground arith;
    lengths = λ p. ground (arith, length-overwrite (m.blocks c).payload b.blk_offset src);
    same_size = refl;
    same_blk = refl;
    same_buf = refl;
  }
