-- ===== src/Network/Status.antt =====
-- Whether a peer counts as connected in the table of src/network/mod.rs, after discoveries and
-- expirations.
use mpc_node.Common.{
  ◌≡◌, refl, String, Bool, true, false, ◌||◌, Option, none, some, List, [], ◌∷◌, str_eq, arith,
  if◌then◌else◌,
}
use mathlib.Core.Option
use mpc_node.Common.HashMap.{HashMap, lookup, insert, lookup-insert}
use mpc_node.Rpc.{PeerId, PeerInfo}
use mpc_node.Network.{add_discovered, expire, disconnect}
use mpc_node.Network.Peers.{lookup-disconnect, disconnected}

-- A peer is unknown, or known and connected or not.
abbrev pub status : PeerId → HashMap PeerInfo → Option Bool
status q peers = Option.map (λ info. info.connected) (lookup q peers)

abbrev pub named : PeerId → List (PeerId × String) → Bool
named q [] = false
named q ((p, address) ∷ list) = str_eq p q || named q list

status-insert :
    (k q : PeerId) (info : PeerInfo) (peers : HashMap PeerInfo)
    → status q (insert k info peers) ≡ (if str_eq k q then some info.connected else status q peers)
status-insert k q info peers = ground (arith, lookup-insert k q info peers)

pub status-add_discovered :
    (q : PeerId) (found : List (PeerId × String)) (peers : HashMap PeerInfo)
    → status q (add_discovered found peers) ≡ (if named q found then some true else status q peers)
unfolding add_discovered
status-add_discovered q [] peers = refl
status-add_discovered q ((k, address) ∷ found) peers =
    let added : PeerInfo = record { addresses = address ∷ []; connected = true } in
    ground
      (arith, status-add_discovered q found (insert k added peers), status-insert k q added peers)

-- A peer that is gone stays known.
abbrev pub gone : Option Bool → Option Bool
gone none = none
gone (some b) = some false

map-disconnected :
    (o : Option PeerInfo)
    → Option.map (λ (i : PeerInfo). i.connected) (Option.map disconnected o)
      ≡ gone (Option.map (λ (i : PeerInfo). i.connected) o)
map-disconnected none = refl
map-disconnected (some info) = refl

status-disconnect :
    (k q : PeerId) (peers : HashMap PeerInfo)
    → status q (disconnect k peers) ≡ (if str_eq k q then gone (status q peers) else status q peers)
status-disconnect k q peers =
    ground (arith, lookup-disconnect k q peers, map-disconnected (lookup q peers))

gone_twice : (o : Option Bool) → gone (gone o) ≡ gone o
gone_twice none = refl
gone_twice (some b) = refl

pub status-expire :
    (q : PeerId) (list : List (PeerId × String)) (peers : HashMap PeerInfo)
    → status q (expire list peers)
      ≡ (if named q list then gone (status q peers) else status q peers)
unfolding expire
status-expire q [] peers = refl
status-expire q ((k, address) ∷ list) peers = ground (
  arith,
  status-expire q list (disconnect k peers),
  status-disconnect k q peers,
  gone_twice (status q peers),
)
