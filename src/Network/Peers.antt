-- ===== src/Network/Peers.antt =====
-- The table of peers in src/network/mod.rs, under discoveries and expirations.
use mpc_node.Common.{
  ◌≡◌, refl, ◌∙◌, String, Bool, true, false, some, List, [], ◌∷◌, length, if◌then◌else◌, str_eq,
  eq_iff, arith, All,
}
use mathlib.Core.Option
use mpc_node.Common.HashMap.{HashMap, lookup, insert, lookup-insert}
use mpc_node.Rpc.{PeerId, PeerInfo}
use mpc_node.Network.{add_discovered, disconnect, expire}

abbrev pub disconnected : PeerInfo → PeerInfo
disconnected info = record info { connected = false }

-- Expiring one peer marks its entry, if there is one, and leaves every other entry alone.
pub lookup-disconnect :
    (peer_id other : PeerId) (peers : HashMap PeerInfo)
    → lookup other (disconnect peer_id peers) ≡ (
        if str_eq peer_id other
        then Option.map disconnected (lookup other peers)
        else lookup other peers)
unfolding lookup disconnect
lookup-disconnect peer_id other [] = ground arith
lookup-disconnect peer_id other ((k, info) ∷ peers) = ground (
  arith,
  eq_iff k peer_id,
  eq_iff k other,
  eq_iff peer_id other,
  lookup-disconnect peer_id other peers,
)

-- A peer is known and counts as connected.
abbrev pub IsConnected : PeerId → HashMap PeerInfo → Type 0
IsConnected peer_id peers =
    (info : PeerInfo) × (lookup peer_id peers ≡ some info) × (info.connected ≡ true)

add_discovered_keeps :
    (found : List (PeerId × String)) (peer_id : PeerId) (peers : HashMap PeerInfo)
    → IsConnected peer_id peers
    → IsConnected peer_id (add_discovered found peers)
unfolding add_discovered
add_discovered_keeps [] peer_id peers h = h
add_discovered_keeps ((k, addr) ∷ rest) peer_id peers h =
    add_discovered_keeps rest peer_id
      (insert k (record { addresses = addr ∷ []; connected = true }) peers)
      (split (str_eq k peer_id) refl)
  where
    added : PeerInfo
    added = record { addresses = addr ∷ []; connected = true }

    split : (t : Bool) → str_eq k peer_id ≡ t → IsConnected peer_id (insert k added peers)
    split true e = (added, lookup-insert k peer_id added peers ∙ (rw e refl), refl)
    split false e = (h.0, lookup-insert k peer_id added peers ∙ (rw e h.1), h.2)

-- After a discovery every peer that was found is known and counts as connected, also where the
-- list names it twice.
pub add_discovered-IsConnected :
    (found : List (PeerId × String)) (peers : HashMap PeerInfo)
    → All (λ p. IsConnected p.0 (add_discovered found peers)) found
unfolding add_discovered
add_discovered-IsConnected [] peers = tt
add_discovered-IsConnected ((k, addr) ∷ rest) peers = (
  add_discovered_keeps rest k (insert k added peers)
      (added, lookup-insert k k added peers ∙ (rw ((eq_iff k k).1 refl) refl), refl),
  add_discovered-IsConnected rest (insert k added peers),
)
  where
    added : PeerInfo
    added = record { addresses = addr ∷ []; connected = true }

length-disconnect :
    (k : PeerId) (peers : HashMap PeerInfo) → length (disconnect k peers) ≡ length peers
unfolding disconnect
length-disconnect k [] = refl
length-disconnect k ((j, info) ∷ peers) = ground (arith, length-disconnect k peers)

-- An expiration forgets no peer and invents none.
pub length-expire :
    (gone : List (PeerId × String)) (peers : HashMap PeerInfo)
    → length (expire gone peers) ≡ length peers
unfolding expire
length-expire [] peers = refl
length-expire ((k, addr) ∷ rest) peers =
    length-expire rest (disconnect k peers) ∙ length-disconnect k peers
