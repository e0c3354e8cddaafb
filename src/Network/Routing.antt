-- ===== src/Network/Routing.antt =====
-- `handle_gossipsub_message` of src/network/mod.rs: a message goes to the component that it names,
-- and is dropped where that component is not set.
use mpc_node.Common.{Option, none, some, ok, Io, modify, unwrap, ◌>>=◌}
use mpc_node.Crypto.{Curve}
use mpc_node.Wire.{Bytes}
use mpc_node.Types.{GossipsubMessage, dkg, signing, command, consensus}
use mpc_node.Dkg.{DkgNode}
use mpc_node.Dkg
use mpc_node.Signing.{SigningNode}
use mpc_node.Signing
use mpc_node.Consensus.{ConsensusNode}
use mpc_node.Consensus
use mpc_node.Commands.{CommandProcessor}
use mpc_node.Commands
use mpc_node.Network.{NetworkLayer, World, Crates}

module _ (c : Curve) (E : Type 0) (x : Crates c) where
  abbrev pub Method : Type 0 → Type 0
  Method A = Io (World c E x) A

  abbrev pub on_layer : (NetworkLayer c E → NetworkLayer c E) → Method (Unit {0})
  on_layer f = modify (λ w. record w { layer = f w.layer })

  -- A method of a component, on the component and the channel that it shares with the layer.
  unfoldable pub on_dkg : Io (Dkg.World c) (Unit {0}) → Option (DkgNode c) → Method (Unit {0})
  on_dkg m none w = (ok tt, w)
  on_dkg m (some node) w =
      let (r, d) = m (record { node = node; channel = w.layer.message_channel }) in
      (
        r,
        record w { layer = record w.layer { dkg_node = some d.node; message_channel = d.channel } },
      )

  on_signing : Io (Signing.World c) (Unit {0}) → Option (SigningNode c) → Method (Unit {0})
  on_signing m none w = (ok tt, w)
  on_signing m (some node) w =
      let (r, d) = m (record { node = node; channel = w.layer.message_channel }) in
      (
        r,
        record w {
          layer = record w.layer { signing_node = some d.node; message_channel = d.channel };
        },
      )

  on_consensus : Io ConsensusNode (Unit {0}) → Option ConsensusNode → Method (Unit {0})
  on_consensus m none w = (ok tt, w)
  on_consensus m (some node) w =
      let (r, node') = m node in
      (r, record w { layer = record w.layer { consensus_node = some node' } })

  on_commands :
      (CommandProcessor E → Io E (Unit {0})) → Option (CommandProcessor E) → Method (Unit {0})
  on_commands m none w = (ok tt, w)
  on_commands m (some p) w = let (r, env) = m p w.env in (r, record w { env = env })

  unfoldable pub route : GossipsubMessage c → Method (Unit {0})
  unfolding on_dkg on_signing on_consensus on_commands
  route (dkg msg) w = on_dkg (Dkg.handle_message c x.json msg) w.layer.dkg_node w
  route (signing msg) w =
      on_signing (Signing.handle_message c x.signing_json msg) w.layer.signing_node w
  route (command cmd) w =
      on_commands (λ p. Commands.handle_message p cmd) w.layer.command_processor w
  route (consensus msg) w =
      on_consensus (Consensus.handle_message x.blake3 msg) w.layer.consensus_node w

  -- `serde_json::from_slice(..).unwrap()`
  unfoldable pub handle_gossipsub_message : Bytes → Method (Unit {0})
  unfolding route
  handle_gossipsub_message bytes = do msg ← unwrap (x.json.from_slice bytes); route msg
