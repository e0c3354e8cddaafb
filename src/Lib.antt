-- ===== src/Lib.antt =====
-- mpc-node: nodes that generate a key together over gossip, and sign with it. This library models
-- the nodes' own code and proves what it computes.
--
-- The program's parts and the files that model them:
--   src/adkg_layer.bkp.rs      Adkg: the asynchronous distributed key generation. `AdkgNode` is
--     `ADKGNode`; `start_adkg`, `handle_message`, `verify_commitments`, `check_completion` and
--     `reconstruct_secret` keep their names, a loop is a function beside the one it stands in
--     (`evaluate_terms`, `commitment_terms`, `lagrange_term`, `lagrange_sum`). Its child modules
--     are named for what they prove: Polynomial, Feldman, Weights, Interpolation, Reconstruct,
--     Completion, Acks, Protocol, Delivery, Start, Agreement, Holding (a node that takes
--     acknowledgements), Ceremony (a node from its start to its completion), Shortfall (all of
--     them), Backed and Received (messages from anyone), UnitTests (the tests of the
--     file), Keeps and Runs (rules for what the methods keep, and when they return).
--   src/network_layer.rs       GossipLayer: the topics, the listeners and the loop that drives an
--     ADKG node over gossip; GossipLayer/Setup is what `run` does before, here and in
--     src/network_layer_bkp.rs, the earlier version. GossipLayer/PeerList, /Loop, /Duplicates,
--     /Identity and /Restart prove; GossipLayer/Keeps and /Cache are what they use.
--     Cluster is a network of nodes that each run this loop: `Step` is one turn of one node,
--     `Reach` any interleaving of turns; Cluster/Dealt, Cluster/Sent and Cluster/Honest say what a
--     node holds and publishes in it, Cluster/Invariant that it stays so, Cluster/Safety,
--     Cluster/Completion and Cluster/Acks what follows.
--   src/dkg/mod.rs             Dkg: the key generation that the network layer runs. Dkg/Shares is
--     about what it deals out, Dkg/Handlers and Dkg/Store about what it does with messages.
--   src/signing/mod.rs         Signing, with Signing/Laws and Signing/Gathering.
--   src/frost/mod.rs           Frost, with Frost/Nonces.
--   src/consensus/mod.rs       Consensus, with Consensus/Vrf.
--   src/commands/mod.rs        Commands, with Commands/Dispatch.
--   src/network/mod.rs         Network: the layer that owns the other components. Network/Routing
--     hands a gossip message to its component, Network/Requests answers a request,
--     Network/EventLoop is the loop of `start` on a list of inputs, Network/Setup what `start` does
--     before it; Network/Peers, /Status, /Table, /Delivery, /Failures, /Ready and
--     /Startup prove.
--   src/main.rs                Startup: `main`, with Startup/Main.
--   src/bin/ptp.rs             Client: `main` of the test client, with Client/Requests.
--   src/chain/mod.rs           Chain: the blockchain client, with Chain/Blocks.
--   troot/src/main.rs          Taproot: the script, the transaction and the witness of the
--     prototype, with Taproot/Spending and Taproot/Posting.
--   several files              Swarm: what the programs call to build a swarm, and the configuration
--     of gossipsub, which they share.
--   src/types                  Types (messages), Types/Codec (the serde visitors of bls.rs and
--     p2p.rs), Types/RoundTrip; Rpc and Rpc/RoundTrip (rpc.rs).
--
-- How the parts interact: a component writes to the channel that it shares with the network layer
-- (`Channel`, of capacity 100 as in the source), and the loop takes the messages out and publishes
-- them. Network/Routing lends the component the layer's own channel, so that a component that waits
-- for room in the channel waits for the task that it runs in.
--
-- How code is modelled: an async method is a function from a state to an `Outcome` and a state
-- (Common/Effects; Common/Keeps and Common/Runs are rules for proofs about it). The outcome is a
-- value, an `Err`, a panic, or waiting for ever. A tokio lock is data (Common/RwLock) where guards
-- overlap on one lock. The locks of the ADKG node are left out, so that Adkg, Cluster and
-- GossipLayer do not speak of waiting for them: a write guard there ends with its statement, and
-- the read guards of `check_completion` live to its end, on three different locks. A `HashMap` is
-- an association list (Common/HashMap). What `OsRng` draws is an argument, a function from the
-- number of the draw. Every loop is structural recursion: there is no fuel. Indices and counts are
-- natural numbers; the source adds or takes away one (`threshold + 1`, `idx - 1` behind a test),
-- and the bound of `usize` is written out where a text is parsed to one (Common/Parse).
--
-- What is a parameter: the curve and its scalars (Crypto, with the documented laws of the crates;
-- Crypto/Small is a value of it, over the integers modulo 7), serde_json and serde_cbor (`Json`),
-- gossipsub's `publish` (`Gossip`; with subscriptions and explicit
-- peers `Behaviour`; with the ids that it remembers `Cache`), libp2p (`Libp2p`, `Libraries`, and a
-- `SwarmBuilder` for each program), tracing (`Tracing`), bitcoin and an HTTP client (`Bitcoin`,
-- `Services`), ethers (`Ethers`), the
-- rules for tapscripts (`Interpreter`), blake3 (`Blake3`), and the encodings of
-- points and ids (`Encoding`).
--
-- What is not modelled: src/adkg_layer_bkp.rs (an earlier version of a modelled file, which the
-- crate does not name and which does not compile), the layers of src/main.rs that write log records,
-- src/protos (generated), the empty modules, the tests of closures in src/main.rs, the tests of
-- libp2p in src/network_layer.rs, and what is only printed or logged. A key that is generated is an
-- argument. In Cluster the users type nothing, and a node that has ended leaves what it has
-- published behind.
pub mod Common
pub mod Wire
pub mod Crypto
pub mod Taproot
pub mod Types
pub mod Rpc
pub mod Network
pub mod Channel
pub mod Adkg
pub mod Dkg
pub mod Signing
pub mod Frost
pub mod Consensus
pub mod Commands
pub mod Startup
pub mod Swarm
pub mod Chain
pub mod Client
pub mod Cluster
pub mod GossipLayer
mod Tests
