-- ===== src/Startup.antt =====
-- src/main.rs: the layer that `main` builds and starts, and what becomes of the shares that other
-- nodes deal out to it. Of the set-up of logging there is left what can
-- end the program; the layers that write the records are left out. The keys are what the random generator filled in.
pub mod Main
use mpc_node.Common.{
  ℕ, ◌≡◌, ◌≢◌, refl, List, [], ◌∷◌, map, none, some, ok, All, String, Option, Io, get, modify,
  or_fail, unwrap, ◌>>=◌, ◌>>◌,
}
use mpc_node.Crypto.{Curve}
use mpc_node.Wire.{Bytes}
use mpc_node.Types.{KeyShare, dkg, share_distribution}
use mpc_node.Rpc.{PeerId}
use mpc_node.Dkg
use mpc_node.Dkg.{DkgNode}
use mpc_node.Dkg.Handlers.{handle_message_no_index}
use mpc_node.Consensus
use mpc_node.Commands
use mpc_node.Network
use mpc_node.Swarm.{Libraries, Tracing}
use mpc_node.Network.Setup.{SwarmBuilder, Started, start}
use mpc_node.Network.{Crates, NetworkLayer, World, SwarmEvent, Input, swarm_event}
use mpc_node.Network.Routing.{handle_gossipsub_message}
use mpc_node.Network.EventLoop.{handle_swarm_event, step, run}
use mpc_node.Common.Parse.{parse_usize, usize_max}

module _ (c : Curve) (E : Type 0) (x : Crates c) where
  -- Three of five nodes are the threshold; the DKG component is named by the peer id.
  abbrev pub main_layer : PeerId → Bytes → Bytes → NetworkLayer c E
  main_layer peer_id secret_key label = Network.set_command_processor c Commands.new (
      Network.set_consensus_node c (Consensus.new x.blake3 secret_key label)
        (Network.set_dkg_node c (Dkg.new c peer_id 3 5) (Network.new c peer_id)))

  -- The process, and the layer once `start` has been called.
  pub record Program (t : Tracing) : Type 0 where
    pub process : t.Process
    pub started : Option (Started c E x)

  module _ (l : Libraries) (builder : SwarmBuilder c l x.p2p) (t : Tracing) where
    -- `network.start().await?` of a new layer.
    on_start : Io (Started c E x) (Unit {0}) → NetworkLayer c E → E → Io (Program t) (Unit {0})
    on_start m layer env s =
        let (r, started) = m (record { layer = layer; env = env; swarm = none }) in
        (r, record s { started = some started })

    -- `main`, whose layer has drawn `local_key` and whose consensus component has drawn `secret_key`.
    -- The name of the log file carries a number that is drawn. `init()` panics where a subscriber is set.
    unfoldable pub main :
        String
        → l.Keypair
        → Bytes
        → Bytes
        → List String
        → E
        → (ℕ → ℕ → c.Scalar)
        → List (Input c)
        → Io (Program t) (Unit {0})
    unfolding on_start
    main log_name local_key secret_key label args env rng inputs = do
      appender ← unwrap (t.rolling_never "logs" log_name)
      filter ← or_fail (t.parse_filter "") "filter"
      s ← get
      process ← unwrap (t.try_init s.process)
      modify (λ s. record s { process = process })
      on_start (start c E x l builder local_key args rng inputs)
          (main_layer (l.peer_id local_key) secret_key label) env

  -- A share distribution, as it comes in: the bytes of a message whose shares carry ordinary
  -- indices.
  abbrev pub IsDistribution : Bytes → Type 0
  IsDistribution bytes =
      (sender : String) × (shares : List (KeyShare c)) × (commitments : List c.G1Affine)
      × (x.json.from_slice bytes ≡ some (dkg (share_distribution sender shares commitments)))
      × All (λ s. s.index ≢ usize_max) shares

  -- A world whose DKG component is `node`.
  abbrev pub with_node : World c E x → DkgNode c → World c E x
  with_node w node = record w { layer = record w.layer { dkg_node = some node } }

  ignores_one :
      (w : World c E x) (node : DkgNode c) (bytes : Bytes)
      → parse_usize node.id ≡ none
      → IsDistribution bytes
      → handle_gossipsub_message c E x bytes (with_node w node) ≡ (ok tt, with_node w node)
  unfolding handle_gossipsub_message
  ignores_one w node bytes named (sender, shares, commitments, read, ordinary) =
      rw
        (
          read,
          handle_message_no_index c x.json
              (record { node = node; channel = w.layer.message_channel }) sender shares commitments
              named ordinary,
        )
        refl

  pub ignores_each :
      (w : World c E x) (node : DkgNode c) (rng : ℕ → ℕ → c.Scalar) (messages : List Bytes)
      → parse_usize node.id ≡ none
      → All IsDistribution messages
      → run c E x rng
          (map (λ bytes. swarm_event (SwarmEvent.gossipsub_message bytes)) messages)
          (with_node w node)
        ≡ (ok tt, with_node w node)
  unfolding run step handle_swarm_event
  ignores_each w node rng [] named distributions = refl
  ignores_each w node rng (bytes ∷ messages) named distributions =
      rw (ignores_one w node bytes named distributions.0)
        (ignores_each w node (λ n. rng (ℕ.suc n)) messages named distributions.1)
