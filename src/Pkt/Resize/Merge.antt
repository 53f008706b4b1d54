-- ===== src/Pkt/Resize/Merge.antt =====
-- `PktBuffer::merge_buf` joins the contents of two packets.
use tinytcp.Base.{ℕ, ◌+◌, ◌^◌, ◌<◌, ◌≡◌, refl, ap, ◌∙◌, List, [], ◌∷◌, ◌++◌, arith}
use tinytcp.Memblock.{Ptr}
use tinytcp.Pkt.{PktBuffer, PktManager, release_pktbuffer}
use tinytcp.Pkt.View.{
  contents, total, bytes, Distinct, AllOk, IsPacket, contents-append, total-append, AllOk-append,
}
use tinytcp.Pkt.Resize.{merge_buf}

-- A buffer that goes back to the pool leaves the blocks as they are.
module _ (m : PktManager) (buf : Ptr) where
  contents-release_buf : (ps : List Ptr) → contents (release_pktbuffer buf m) ps ≡ contents m ps
  unfolding release_pktbuffer
  contents-release_buf [] = refl
  contents-release_buf (q ∷ ps) = ap (λ t. bytes m q ++ t) (contents-release_buf ps)

  total-release_buf : (ps : List Ptr) → total (release_pktbuffer buf m) ps ≡ total m ps
  unfolding release_pktbuffer
  total-release_buf [] = refl
  total-release_buf (q ∷ ps) = ap (λ (t : ℕ). (m.blocks q).size + t) (total-release_buf ps)

  AllOk-release_buf : (ps : List Ptr) → AllOk m ps → AllOk (release_pktbuffer buf m) ps
  unfolding release_pktbuffer
  AllOk-release_buf [] k = tt
  AllOk-release_buf (q ∷ ps) k = (
    record {
      not_null = k.0.not_null;
      nonempty = k.0.nonempty;
      inside = k.0.inside;
      sized = k.0.sized;
    },
    AllOk-release_buf ps k.1,
  )

-- Merging two packets whose lists share no block, with capacities that add up to less than 2^31,
-- makes a packet that has the bytes of the first and then those of the second, and leaves the list
-- of the second empty.
pub merge_buf_lem :
    (buf : Ptr) (b other : PktBuffer) (m : PktManager)
    → IsPacket m b
    → IsPacket m other
    → Distinct (b.blk_list ++ other.blk_list)
    → b.capacity + other.capacity < 2 ^ 31
    → IsPacket (merge_buf buf b other m).2 (merge_buf buf b other m).0
      × (contents (merge_buf buf b other m).2 (merge_buf buf b other m).0.blk_list
          ≡ contents m b.blk_list ++ contents m other.blk_list)
      × ((merge_buf buf b other m).1.blk_list ≡ [])
unfolding merge_buf release_pktbuffer
merge_buf_lem buf b other m k g d s = (
  record {
    good =
        AllOk-release_buf m buf (b.blk_list ++ other.blk_list)
          (AllOk-append m b.blk_list other.blk_list k.good g.good);
    distinct = d;
    counted = omega (
      arith,
      k.counted,
      g.counted,
      total-append m b.blk_list other.blk_list,
      total-release_buf m buf (b.blk_list ++ other.blk_list),
    );
    small = omega arith;
    block_small = k.block_small;
  },
  contents-release_buf m buf (b.blk_list ++ other.blk_list)
      ∙ contents-append m b.blk_list other.blk_list,
  refl,
)
