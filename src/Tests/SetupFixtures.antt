-- ===== src/Tests/SetupFixtures.antt =====
-- Concrete key pairs, transports, gossipsub and mDNS, and a swarm that knows its peer id and refuses what
-- it has published before.
use mpc_node.Common.{
  ℕ, ◌≡◌, refl, ap, ◌∙◌, String, Bool, true, false, List, [], ◌∷◌, ◌++◌, some, none, arith, eq_iff,
  if◌then◌else◌, Option, ◌==◌, suc,
}
use mpc_node.Wire.{Bytes}
use mpc_node.Rpc.{PeerId}
use mpc_node.Swarm.{Libraries, Tracing, message_id}
use mpc_node.GossipLayer.{Behaviour}
use mpc_node.Crypto.Small.{small}
use mpc_node.Wire.{Json}
use mpc_node.Types.{GossipsubMessage}
use mpc_node.Network.{Libp2p, Crates}
use mpc_node.Network.Setup
use mpc_node.Network.Setup.{Status}
use mpc_node.Tests.Fixtures.{open_swarm, identity_hash, no_json}
use mpc_node.GossipLayer.Setup.{SwarmBuilder}
use mpc_node.GossipLayer.Cache.{Cache}
use mpc_node.Tests.GossipTests.{has_peer, without, has_peer-without}

abbrev first_byte : Bytes → ℕ
first_byte [] = 0
first_byte (b ∷ rest) = suc b

pub same_key : (key w : String) → some key ≡ some w → w ≡ key
same_key key w e = cc

-- A key pair is its peer id, and every constructor succeeds.
abbrev pub libraries : Libraries
libraries = record {
  Keypair = String;
  peer_id = λ key. key;
  Noise = Unit {0};
  noise_new = λ key. some tt;
  Transport = Unit {0};
  tcp_transport = λ noise. tt;
  quic_transport = λ key. tt;
  or_transport = λ a b. tt;
  Wired = String;
  with_tcp = λ key. some key;
  with_quic = λ w. w;
  identity_of = λ w. w;
  identity-with_tcp = same_key;
  identity-with_quic = λ w. refl;
  GossipsubConfig = Unit {0};
  gossipsub_config = λ heartbeat mode id_of. some tt;
  Gossipsub = Unit {0};
  gossipsub_new = λ key config. some tt;
  Mdns = Unit {0};
  mdns_new = λ config id. some tt;
  RequestResponse = String;
  request_response_new = λ protocol. protocol;
  hash = first_byte;
  to_string = λ n. if n == 0 then "0" else if n == 1 then "1" else if n == 2 then "2" else "3";
}

abbrev set_once : Bool → Option Bool
set_once true = none
set_once false = some true

pub set_once_only : (p p' : Bool) → set_once p ≡ some p' → set_once p' ≡ none
set_once_only true p' e = cc
set_once_only false true e = refl
set_once_only false false e = cc

abbrev pub tracing : Tracing
tracing = record {
  Process = Bool;
  try_init = set_once;
  Appender = String;
  rolling_never = λ directory name. some name;
  Filter = String;
  parse_filter = λ text. some text;
  try_init-once = set_once_only;
}

-- A swarm: its peer id, its explicit peers, and the ids of what it has published.
pub record Radio : Type 0 where
  pub id : PeerId
  pub peers : List PeerId
  pub sent : List String

abbrev once : Bool → Radio → String → Option Radio
once true s message = none
once false s message = some (record s { sent = message ∷ s.sent })

abbrev pub publish_once : Radio → String → Bytes → Option Radio
publish_once s topic bytes =
    once (has_peer s.sent (message_id libraries bytes)) s (message_id libraries bytes)

once-some :
    (b : Bool) (s s' : Radio) (message : String)
    → once b s message ≡ some s'
    → s' ≡ record s { sent = message ∷ s.sent }
once-some true s s' message e = cc
once-some false s s' message e = cc

pub same_radio :
    (s s' : Radio) (q : PeerId) → some s ≡ some s' → has_peer s'.peers q ≡ has_peer s.peers q
same_radio s s' q e = cc

pub publish_once-some :
    (s s' : Radio) (topic : String) (bytes : Bytes)
    → publish_once s topic bytes ≡ some s'
    → s' ≡ record s { sent = message_id libraries bytes ∷ s.sent }
publish_once-some s s' topic bytes e =
    once-some (has_peer s.sent (message_id libraries bytes)) s s' (message_id libraries bytes) e

abbrev pub radio : Behaviour
radio = record {
  Swarm = Radio;
  publish = publish_once;
  subscribe = λ s topic. some s;
  add_explicit_peer = λ s p. record s { peers = p ∷ s.peers };
  remove_explicit_peer = λ s p. record s { peers = without p s.peers };
  Multiaddr = String;
  parse_multiaddr = λ text. some text;
  listen_on = λ s address. some s;
  poll = λ s event. s;
  is_explicit = λ s. has_peer s.peers;
  explicit-poll = λ s event q. refl;
  explicit-add = λ s p q. refl;
  explicit-remove = λ s. has_peer-without s.peers;
  explicit-publish = λ s s' topic bytes q e.
      ap (λ (t : Radio). has_peer t.peers q) (publish_once-some s s' topic bytes e);
  explicit-subscribe = λ s s' topic q. same_radio s s' q;
  explicit-listen_on = λ s s' address q. same_radio s s' q;
}

pub same_id : (s s' : Radio) → some s ≡ some s' → s'.id ≡ s.id
same_id s s' e = cc

abbrev pub radio_builder : SwarmBuilder libraries radio
radio_builder = record {
  with_tokio_executor = λ transport behaviour id. record { id = id; peers = []; sent = [] };
  build = λ wired behaviour. record { id = wired; peers = []; sent = [] };
  local_peer_id = λ s. s.id;
  local-with_tokio_executor = λ transport behaviour id. refl;
  local-build = λ wired behaviour. refl;
  local-publish =
      λ s s' topic bytes e. ap (λ (t : Radio). t.id) (publish_once-some s s' topic bytes e);
  local-subscribe = λ s s' topic. same_id s s';
  local-listen_on = λ s s' address. same_id s s';
  local-add = λ s p. refl;
  local-remove = λ s p. refl;
  local-poll = λ s event. refl;
}

pub has_first : (q : PeerId) (peers : List PeerId) → has_peer (q ∷ peers) q ≡ true
has_first q peers = ground (arith, eq_iff q q)

pub has_later :
    (p q : PeerId) (peers : List PeerId) → has_peer peers q ≡ true → has_peer (p ∷ peers) q ≡ true
has_later p q peers h = ground (arith, h)

abbrev pub sent_ids : Cache radio (message_id libraries)
sent_ids = record {
  seen = λ s. has_peer s.sent;
  publish-seen = λ s topic bytes e. ap (λ b. once b s (message_id libraries bytes)) e;
  seen-publish = λ s s' topic bytes e.
      ap (λ (t : Radio). has_peer t.sent (message_id libraries bytes))
        (publish_once-some s s' topic bytes e)
      ∙ has_first (message_id libraries bytes) s.sent;
  kept-publish = λ s s' topic bytes i e h.
      ap (λ (t : Radio). has_peer t.sent i) (publish_once-some s s' topic bytes e)
      ∙ has_later (message_id libraries bytes) i s.sent h;
  kept-add = λ s p i h. h;
  kept-remove = λ s p i h. h;
  kept-poll = λ s event i h. h;
}

-- A swarm for src/network/mod.rs that keeps what it has been asked for.
abbrev pub asked_swarm : Libp2p small
asked_swarm = record open_swarm {
  Swarm = Status String;
  publish = λ s topic b. some s;
  subscribe = λ s topic. some (record s { subscribed = s.subscribed ++ topic ∷ [] });
  send_response = λ s response_channel msg. s;
  send_request = λ s peer msg. s;
}

abbrev pub asked_crates : Json (GossipsubMessage small) → Crates small
asked_crates json = record {
  p2p = asked_swarm;
  blake3 = identity_hash;
  json = json;
  signing_json = no_json;
}

pub told :
    (f : Status String → Status String) (s s' : Status String) → some (f s) ≡ some s' → s' ≡ f s
told s s' e = cc

abbrev pub asked_builder : Setup.SwarmBuilder small libraries asked_swarm
asked_builder = record {
  Multiaddr = String;
  parse_multiaddr = λ text. some text;
  build = λ wired behaviour. record {
    local_peer_id = wired;
    listening = [];
    dialled = [];
    subscribed = [];
  };
  listen_on = λ s address. some (record s { listening = s.listening ++ address ∷ [] });
  dial = λ s address. some (record s { dialled = s.dialled ++ address ∷ [] });
  status = λ s. s;
  status-build = λ wired behaviour. refl;
  status-listen_on = λ s s' address.
      told (λ (t : Status String). record t { listening = t.listening ++ address ∷ [] }) s s';
  status-dial = λ s s' address.
      told (λ (t : Status String). record t { dialled = t.dialled ++ address ∷ [] }) s s';
  status-subscribe = λ s s' topic.
      told (λ (t : Status String). record t { subscribed = t.subscribed ++ topic ∷ [] }) s s';
}
