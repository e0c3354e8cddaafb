-- ===== src/Tests/GossipTests.antt =====
-- The theorems on src/network_layer.rs, src/bin/ptp.rs, src/chain/mod.rs, and on messages from anyone
-- at one ADKG node, applied at concrete inputs.
use mpc_node.Common.{
  ℕ, zero, suc, map, range_from, ◌≡◌, refl, String, Bool, true, false, List, [], ◌∷◌, ◌++◌, some,
  none, err, arith, eq_iff, str_eq, if◌then◌else◌, Option,
}
use mpc_node.Wire.{Bytes}
use mpc_node.Rpc.{PeerId, RpcRequest, RpcResponse}
use mpc_node.Common.RwLock.{unlocked}
use mpc_node.Crypto.Small.{small, residue}
use mpc_node.Network.{Libp2p}
use mpc_node.Adkg
use mpc_node.Adkg.{AdkgMessage}
use mpc_node.GossipLayer.{gossip, Behaviour, discovered, expired, run}
use mpc_node.GossipLayer.PeerList.{occurrences, run-Mirrors}
use mpc_node.Adkg.UnitTests.{proposal_handled, proposal_handled_refused}
use mpc_node.Adkg.{evaluate_polynomial, generate_polynomial}
use mpc_node.Common.HashMap.{lookup}
use mpc_node.Common.{◌≢◌, ok}
use mpc_node.Wire.{Gossip}
use mpc_node.GossipLayer.Loop.{run_refused}
use mpc_node.Client.{ClientEvent, connection_established, request}
use mpc_node.Client.Requests.{Sends}
use mpc_node.Chain.{Ethers}
use mpc_node.Chain.Blocks.{
  Call, sync, send, after_calls, answers, last_number, keeping, NeverWaits, after_calls-latest,
}
use mpc_node.Tests.Fixtures.{draws, no_json, adkg_json}
use mpc_node.Adkg.Protocol.{proposal_of}

-- A gossipsub that only keeps its explicit peers, and refuses to publish.
abbrev pub has_peer : List PeerId → PeerId → Bool
has_peer [] q = false
has_peer (p ∷ peers) q = if str_eq p q then true else has_peer peers q

abbrev pub without : PeerId → List PeerId → List PeerId
without p [] = []
without p (r ∷ peers) = if str_eq r p then without p peers else r ∷ without p peers

pub has_peer-without :
    (s : List PeerId) (p q : PeerId)
    → has_peer (without p s) q ≡ (if str_eq p q then false else has_peer s q)
has_peer-without [] p q = ground arith
has_peer-without (r ∷ s) p q =
    ground (arith, has_peer-without s p q, eq_iff r p, eq_iff r q, eq_iff p q)

pub same_peers : (s s' : List PeerId) (q : PeerId) → some s ≡ some s' → has_peer s' q ≡ has_peer s q
same_peers s s' q e = cc

pub published_nothing :
    (s s' : List PeerId) (topic : String) (bytes : Bytes) (q : PeerId)
    → ◌≡◌ {A = Option (List PeerId)} none (some s')
    → has_peer s' q ≡ has_peer s q
published_nothing s s' topic bytes q e = cc

abbrev lonely : Behaviour
lonely = record {
  Swarm = List PeerId;
  publish = λ s topic bytes. none;
  subscribe = λ s topic. some s;
  add_explicit_peer = λ s p. p ∷ s;
  remove_explicit_peer = λ s p. without p s;
  Multiaddr = String;
  parse_multiaddr = λ text. some text;
  listen_on = λ s address. some s;
  poll = λ s event. s;
  is_explicit = has_peer;
  explicit-poll = λ s event q. refl;
  explicit-add = λ s p q. refl;
  explicit-remove = has_peer-without;
  explicit-publish = published_nothing;
  explicit-subscribe = λ s s' topic q. same_peers s s' q;
  explicit-listen_on = λ s s' address q. same_peers s s' q;
}

ended_at_start :
    (error : String) × (run small lonely no_json "me" 3 1 1 draws []
        (discovered (("b", "/ip4") ∷ []) ∷ [])
      ≡ (err error, record { node = Adkg.new small "me" 3 1 1; swarm = []; peer_list = [] }))
ended_at_start =
    run_refused small lonely no_json "me" 3 1 1 draws [] [] [] [] [] "/ip4/0.0.0.0/udp/0/quic-v1"
      "/ip4/0.0.0.0/tcp/0" (discovered (("b", "/ip4") ∷ []) ∷ []) refl refl refl refl refl refl
      (λ bytes. refl)

-- A gossipsub that takes every message.
abbrev pub friendly : Behaviour
friendly = record lonely {
  publish = λ s topic bytes. some s;
  explicit-publish = λ s s' topic bytes q. same_peers s s' q;
}

-- The proposal that node "me" starts with.
abbrev own_proposal : AdkgMessage small
own_proposal =
    proposal_of small (gossip friendly) no_json 3 ("me", residue 0, map draws (range_from 1 1))

mirrored_b :
    occurrences "b"
      (run small friendly (adkg_json own_proposal) "me" 3 1 1 draws [] (
        discovered (("b", "/ip4") ∷ ("b", "/ip6") ∷ ("d", "/ip4") ∷ [])
        ∷ expired (("d", "/ip4") ∷ [])
        ∷ [])).1.peer_list
    ≡ (if has_peer
          (run small friendly (adkg_json own_proposal) "me" 3 1 1 draws [] (
            discovered (("b", "/ip4") ∷ ("b", "/ip6") ∷ ("d", "/ip4") ∷ [])
            ∷ expired (("d", "/ip4") ∷ [])
            ∷ [])).1.swarm
          "b"
        then 1
        else 0)
mirrored_b =
    run-Mirrors small friendly (adkg_json own_proposal) "me" 3 1 1 draws []
      (discovered (("b", "/ip4") ∷ ("b", "/ip6") ∷ ("d", "/ip4") ∷ [])
        ∷ expired (("d", "/ip4") ∷ [])
        ∷ [])
      (λ q. refl) "b"

-- A swarm that keeps what it is told to send.
abbrev pub recorder : Libp2p small
recorder = record {
  Swarm = List (PeerId × RpcRequest small) × List (ℕ × RpcResponse small);
  publish = λ swarm topic b. none;
  subscribe = λ swarm topic. some swarm;
  send_response = λ swarm channel msg. (swarm.0, swarm.1 ++ (channel, msg) ∷ []);
  send_request = λ swarm peer msg. (swarm.0 ++ (peer, msg) ∷ [], swarm.1);
  hex_decode = λ text. none;
  peer_id_from_bytes = λ b. none;
}

abbrev pub kept : Sends small recorder
kept = record {
  requests = λ swarm. swarm.0;
  responses = λ swarm. swarm.1;
  requests-request = λ s p r. refl;
  responses-request = λ s p r. refl;
  requests-response = λ s channel r. refl;
  responses-response = λ s channel r. refl;
}

abbrev pub two_events : List (ClientEvent small)
two_events =
    connection_established "a" ∷ request "a" RpcRequest.ping 5 ∷ connection_established "b" ∷ []

-- A chain that grows by one block with each question, and whose first answer is an error.
abbrev grow : ℕ → Option ℕ × ℕ
grow zero = (none, 1)
grow (suc n) = (some (suc n), suc (suc n))

abbrev chain : Ethers
chain = record {
  Provider = ℕ;
  Wallet = String;
  Address = String;
  Hash = ℕ;
  connect = λ url. some 0;
  parse_wallet = λ key. some key;
  address = λ wallet. wallet;
  get_block_number = grow;
  send_transaction = λ n tx. (some n, n);
}

abbrev calls : List (Call chain)
calls = sync ∷ send "to" [] ∷ sync ∷ sync ∷ []

latest_of_calls :
    ((after_calls chain calls (keeping chain "key" 0 7)).latest_block
      ≡ unlocked (last_number chain 7 (answers chain calls "key" 0)))
    × NeverWaits chain calls (keeping chain "key" 0 7)
latest_of_calls = after_calls-latest chain calls "key" 0 7

abbrev silent : Gossip
silent = record { Swarm = List PeerId; publish = λ s topic bytes. none }

failed_test :
    ((proposal_handled small silent no_json draws []).0 ≢ ok tt)
    × (lookup "sender" (proposal_handled small silent no_json draws []).1.node.shares
        ≡ some (evaluate_polynomial small (generate_polynomial small draws 2).0 1))
failed_test = proposal_handled_refused small silent no_json draws [] (λ bytes. refl)
