-- ===== src/Memberlist/Metadata.antt =====
-- The metadata of a node on its way to its peers.
use go_cluster.Prelude.{ℕ, ◌≤◌, Text, false, Option, ◌≡◌, arith, is_empty, length, leb}
use go_cluster.Prelude.Int.{pos}
use go_cluster.GoMap.{GoMap}
use go_cluster.Memberlist.{Library, GossipNode, node_meta, member_info, decoded}

-- Where decoding undoes encoding and no encoding is empty (JSON never is): metadata whose encoding
-- fits in the limit of the gossip messages reaches the peers unchanged.
pub member_info-node_meta :
    (lib : Library) (meta : Option (GoMap Text Text)) (limit : ℕ) (n : GossipNode)
    → lib.decode_meta (lib.encode_meta meta) ≡ meta
    → is_empty (lib.encode_meta meta) ≡ false
    → length (lib.encode_meta meta) ≤ limit
    → n.meta ≡ node_meta (lib.encode_meta meta) (pos limit)
    → (member_info lib n).meta ≡ meta
unfolding member_info decoded node_meta
member_info-node_meta lib meta limit n round full fits sent = ground (arith, leb)
