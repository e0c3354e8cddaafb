-- ===== src/Tests/NetworkTests.antt =====
-- The theorems on src/network/mod.rs, applied at concrete inputs.
use mpc_node.Common.{List}
use mpc_node.Common.{ℕ, ◌≡◌, refl, true, [], ◌∷◌, arith, none, some, ok, blocked}
use mpc_node.Common.HashMap.{HashMap}
use mpc_node.Channel.{channel}
use mpc_node.Wire.{Json}
use mpc_node.Crypto.Small.{small, Residue}
use mpc_node.Types.{GossipsubMessage, dkg, share_distribution, share_validation, DkgStatus, unicast}
use mpc_node.Rpc.{PeerInfo, RpcRequest}
use mpc_node.Dkg
use mpc_node.Dkg.{
  DkgNode, generate_shares, generate_polynomial, generate_commitments, msg_topic_dkg,
}
use mpc_node.Network
use mpc_node.Network.{
  Input, NetworkLayer, World, SwarmEvent, swarm_event, channel_ready, disconnect, add_discovered,
}
use mpc_node.Network.EventLoop.{run}
use mpc_node.Network.Table.{Handles, run-Handles}
use mpc_node.Network.Delivery.{run_start_delivers}
use mpc_node.Network.Failures.{run_blocks}
use mpc_node.Tests.Fixtures.{
  gossip_json, single_json_writes, GossipsubMessage-discrete, no_json, draws, crates,
}
use mpc_node.Common.{◌≢◌}
use mpc_node.Rpc.{RpcRequest}

abbrev node_one : DkgNode small
node_one = Dkg.new small "1" 1 3

abbrev layer : NetworkLayer small (Unit {0})
layer = Network.set_dkg_node small node_one (Network.new small "1")

abbrev rng : ℕ → ℕ → Residue
rng n = draws

-- What the start of the node broadcasts.
abbrev dealt_by_one : GossipsubMessage small
dealt_by_one = dkg (
    share_distribution "1"
      (generate_shares small node_one (generate_polynomial small node_one draws))
      (generate_commitments small (generate_polynomial small node_one draws)))

abbrev world : (json : Json (GossipsubMessage small)) → World small (Unit {0}) (crates json)
world json = record {
  layer = record {
    local_peer_id = "1";
    peers = [];
    message_channel = channel;
    topics = [];
    dkg_node = some node_one;
    signing_node = none;
    consensus_node = none;
    command_processor = none;
  };
  swarm = [];
  env = tt;
}

published_one :
    run small
      (Unit {0})
      (crates (gossip_json dealt_by_one))
      rng
      (swarm_event (SwarmEvent.request "2" RpcRequest.start_adkg 0) ∷ channel_ready ∷ [])
      (world (gossip_json dealt_by_one))
    ≡ (
      ok tt,
      record (world (gossip_json dealt_by_one)) {
        layer = record (world (gossip_json dealt_by_one)).layer {
          dkg_node = some (record node_one { status = DkgStatus.started });
        };
        swarm = (msg_topic_dkg, []) ∷ [];
      },
    )
published_one =
    run_start_delivers small (Unit {0}) (crates (gossip_json dealt_by_one))
      (world (gossip_json dealt_by_one)) rng "2" 0 node_one [] ((msg_topic_dkg, []) ∷ []) refl refl
      refl (omega arith) (single_json_writes GossipsubMessage-discrete dealt_by_one) refl

abbrev validation : GossipsubMessage small
validation = dkg (share_validation "2" "3" true)

blocks_on_validation :
    (run small
      (Unit {0})
      (crates (gossip_json validation))
      rng
      (swarm_event (SwarmEvent.gossipsub_message []) ∷ channel_ready ∷ [])
      (world (gossip_json validation))).0
    ≡ blocked
blocks_on_validation =
    run_blocks small (Unit {0}) (crates (gossip_json validation)) (world (gossip_json validation))
      rng [] (channel_ready ∷ []) node_one "2" "3" true [] refl refl refl

abbrev world_direct : World small (Unit {0}) (crates no_json)
world_direct = record (world no_json) {
  layer = record (world no_json).layer {
    message_channel = record channel { queue = unicast "no hex" [] ∷ [] };
  };
}

abbrev two_peers : HashMap PeerInfo
two_peers =
    ("a", record { addresses = []; connected = true })
    ∷ ("b", record { addresses = []; connected = true })
    ∷ []

other_request : ◌≢◌ {A = RpcRequest small} RpcRequest.start_dkg RpcRequest.start_adkg
other_request h = cc h

-- A peer is found and goes again, between two other events.
abbrev coming_and_going : List (Input small)
coming_and_going =
    swarm_event (SwarmEvent.discovered (("b", "/ip4") ∷ ("d", "/ip4") ∷ []))
    ∷ channel_ready
    ∷ swarm_event (SwarmEvent.expired (("b", "/ip4") ∷ []))
    ∷ swarm_event (SwarmEvent.request "d" RpcRequest.ping 0)
    ∷ []

b_is_gone :
    Handles small
      (Unit {0})
      (crates no_json)
      "b"
      coming_and_going
      (world no_json)
      (run small (Unit {0}) (crates no_json) rng coming_and_going (world no_json))
b_is_gone = run-Handles small (Unit {0}) (crates no_json) "b" rng coming_and_going (world no_json)
