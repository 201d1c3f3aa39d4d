-- ===== src/Intf/Request/Datagram.antt =====
-- frm/isgw_uintf.cpp, class ISGWUIntf: the messages of a UDP datagram become requests.
pub mod Order
use mathlib.Core.Option
use teaf.Prelude.{ℕ, ◌-◌, Bool, true, false, Option, none, some, List, [], ◌∷◌, Bytes, take, map}
use teaf.Util.Url.{c_str}
use teaf.Util.Split.{split_ign}
use teaf.Util.Replace.{find}
use teaf.Intf.Request.{Peer, Gate, prot_udp_ip, process_with}

-- A message that could not be handed on ends the loop.
abbrev pub if_handed : Gate × Bool → (Gate → Gate × Bool) → Gate × Bool
if_handed (g, true) next = next g
if_handed (g, false) next = (g, false)

-- The loop over the pieces that strtok_r finds.
unfoldable pub datagram_loop : Peer → Gate → List Bytes → Gate × Bool
datagram_loop c g [] = (g, true)
datagram_loop c g (p ∷ ps) =
    if_handed (process_with prot_udp_ip c g g.supply p) (λ g'. datagram_loop c g' ps)

-- `max_udp` is MAX_UDP_BUF_LEN: a piece is copied with two characters less at most.
unfoldable pub process_datagram : ℕ → Bytes → Peer → Gate → Bytes → Gate × Bool
process_datagram max_udp separator c g msg =
    datagram_loop c g (map (take (max_udp - 2)) (split_ign (c_str msg) separator))

-- The requests of a datagram get the next sequence number of all for their `sock_seq`.
abbrev pub peer_of : Peer → Gate → Peer
peer_of c g = record c { sock_seq = g.msg_seq }

-- `received` is the datagram, or none where `recv` failed. The result is always 0.
unfoldable pub datagram_input : ℕ → Bytes → Peer → Gate → Option Bytes → Gate
datagram_input max_udp separator c g none = g
datagram_input max_udp separator c g (some bytes) = elim (find separator (c_str bytes)) [
  | none ↦ g
  | some parts ↦ (process_datagram max_udp separator (peer_of c g) g bytes).0
]
