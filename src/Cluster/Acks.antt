-- ===== src/Cluster/Acks.antt =====
-- What the acknowledgements that a node of src/adkg_layer.bkp.rs has recorded mean, in a network of nodes
-- that all run the code.
use mathlib.Core.Path.{subst}
use mpc_node.Common.{
  ℕ, ◌≡◌, refl, sym, ap, ◌∙◌, String, Bool, true, inl, inr, Option, none, some, List, [], ◌∷◌,
  Outcome, All, All-map, All-append, get_elem?,
}
use mpc_node.Common.HashMap.{HashMap, lookup, All-insert, All-lookup}
use mpc_node.Crypto.{Curve}
use mpc_node.Wire.{Json, Gossip, Bytes}
use mpc_node.Adkg.{AdkgMessage, World, share_ack, push_ack, handle_message, start_adkg}
use mpc_node.Adkg.Keeps.{handle_message-Keeps, start_adkg-Keeps}
use mpc_node.Cluster.{Recorded, Setup, Net, moved, start, receive, Reach, begin, step}
use mpc_node.Cluster.Sent.{HasEntry, insert-HasEntry, IsSent}
use mpc_node.Cluster.Honest.{IsHonest}
use mpc_node.Cluster.Invariant.{Reach-IsHonest, published-IsSent, world-moved}

module _ (c : Curve) where
  -- A test of every single acknowledgement.
  abbrev pub AllAcks : (String × Bool → Type 0) → HashMap (List (String × Bool)) → Type 0
  AllAcks P acks = All (λ entry. All P entry.1) acks

  push_ack-AllAcks :
      (P : String × Bool → Type 0) (sender_id : String) (ack : String × Bool)
      (acks : HashMap (List (String × Bool)))
      → P ack
      → AllAcks P acks
      → AllAcks P (push_ack c sender_id ack acks)
  unfolding push_ack
  push_ack-AllAcks P sender_id ack acks p h =
      All-insert (λ entry. All P entry.1) sender_id _ acks
        (All-append P _ (ack ∷ []) (before (lookup sender_id acks) refl) (p, tt)) h
    where
      before :
          (o : Option (List (String × Bool)))
          → lookup sender_id acks ≡ o
          → All P (elim o [ none ↦ [] | some old ↦ old ])
      before none e = tt
      before (some old) e = All-lookup (λ entry. All P entry.1) sender_id old acks h e

module _ (c : Curve) (g : Gossip) (json : Json (AdkgMessage c)) where
  -- What is stored under a name stays stored.
  handle_message-HasEntry :
      (name : String) (msg : AdkgMessage c) (w : World c g)
      → HasEntry c name w.node.shares
      → HasEntry c name (handle_message c g json msg w).1.node.shares
  handle_message-HasEntry name msg =
      handle_message-Keeps c g json (λ w. HasEntry c name w.node.shares) msg (λ w h. h)
        (λ w key e h. h) (λ w sender_id valid e h. h)
        (λ w sender_id share commitments bytes swarm e p h. h)
        (λ w sender_id shares commitments share e at v h.
          insert-HasEntry c name sender_id share w.node.shares h)

  start_adkg-HasEntry :
      (name : String) (rng : ℕ → c.Scalar) (w : World c g)
      → HasEntry c name w.node.shares
      → HasEntry c name (start_adkg c g json rng w).1.node.shares
  start_adkg-HasEntry name rng w =
      start_adkg-Keeps c g json (λ w. HasEntry c name w.node.shares) rng w (λ bytes swarm e p h. h)
        (λ w' h. h)

  handle_message-AllAcks :
      (P : String × Bool → Type 0) (msg : AdkgMessage c) (id : String) (w : World c g)
      → ((sender_id : String) (valid : Bool)
          → msg ≡ share_ack sender_id id valid
          → P (sender_id, valid))
      → (w.node.id ≡ id) × AllAcks c P w.node.acks
      → ((handle_message c g json msg w).1.node.id ≡ id)
        × AllAcks c P (handle_message c g json msg w).1.node.acks
  handle_message-AllAcks P msg id w backs =
      handle_message-Keeps c g json (λ w. (w.node.id ≡ id) × AllAcks c P w.node.acks) msg (λ w h. h)
        (λ w key e h. h)
        (λ w sender_id valid e h. (
          h.0,
          push_ack-AllAcks c P sender_id (sender_id, valid) w.node.acks
              (backs sender_id valid (e ∙ ap (λ r. share_ack sender_id r valid) h.0)) h.1,
        ))
        (λ w sender_id share commitments bytes swarm e p h. h)
        (λ w sender_id shares commitments share e at v h. h) w

  start_adkg-AllAcks :
      (P : String × Bool → Type 0) (rng : ℕ → c.Scalar) (w : World c g)
      → AllAcks c P w.node.acks
      → AllAcks c P (start_adkg c g json rng w).1.node.acks
  start_adkg-AllAcks P rng w =
      start_adkg-Keeps c g json (λ w. AllAcks c P w.node.acks) rng w (λ bytes swarm e p h. h)
        (λ w' h. h)

module _ (c : Curve) (g : Gossip) (json : Json (AdkgMessage c)) (rec : Recorded g)
    (setup : Setup c) where
  -- An acknowledgement of a node that holds a share under the name of node `i`.
  abbrev pub IsBacked : Net c g → ℕ → String × Bool → Type 0
  IsBacked net i ack =
      (j : ℕ) × (ack.0 ≡ setup.name j)
      × (ack.1 ≡ true)
      × HasEntry c (setup.name i) (net.world j).node.shares

  Grows : Net c g → Net c g → Type 0
  Grows net net' =
      (name : String) (j : ℕ)
      → HasEntry c name (net.world j).node.shares
      → HasEntry c name (net'.world j).node.shares

  moved-Grows :
      (net : Net c g) (k : ℕ) (r : Outcome (Unit {0})) (w : World c g)
      → ((name : String)
          → HasEntry c name (net.world k).node.shares
          → HasEntry c name w.node.shares)
      → Grows net (moved c g net k r w)
  unfolding Grows
  moved-Grows net k r w h name =
      world-moved c g
        (λ j w. HasEntry c name (net.world j).node.shares → HasEntry c name w.node.shares) net k r w
        (λ j has. has) (h name)

  -- The acknowledgements that a step leaves behind are backed by the network before it, so by the
  -- one after it.
  moved-AllAcks :
      (net : Net c g) (k : ℕ) (r : Outcome (Unit {0})) (w : World c g)
      → ((name : String)
          → HasEntry c name (net.world k).node.shares
          → HasEntry c name w.node.shares)
      → ((i : ℕ) → AllAcks c (IsBacked net i) (net.world i).node.acks)
      → AllAcks c (IsBacked net k) w.node.acks
      → (i : ℕ)
      → AllAcks c (IsBacked (moved c g net k r w) i) ((moved c g net k r w).world i).node.acks
  unfolding Grows
  moved-AllAcks net k r w grows h hk i =
      All-map (λ entry. All (IsBacked net i) entry.1)
        (λ entry. All (IsBacked (moved c g net k r w) i) entry.1) _
        (λ entry.
          All-map (IsBacked net i) (IsBacked (moved c g net k r w) i) entry.1
            (λ ack (j, e, v, has). (j, e, v, moved-Grows net k r w grows (setup.name i) j has)))
        (world-moved c g (λ i w. AllAcks c (IsBacked net i) w.node.acks) net k r w h hk i)

  -- An acknowledgement that comes in is backed.
  received-IsBacked :
      (net : Net c g) (k from at : ℕ) (bytes : Bytes) (msg : AdkgMessage c)
      → IsHonest c g json rec setup from (net.world from)
      → get_elem? (rec.published (net.world from).swarm) at ≡ some bytes
      → json.from_slice bytes ≡ some msg
      → (sender_id : String) (valid : Bool) → msg ≡ share_ack sender_id (setup.name k) valid
      → IsBacked net k (sender_id, valid)
  received-IsBacked net k from at bytes msg h found read sender_id valid e =
      sent (published-IsSent c g json rec setup from at (net.world from) bytes msg h found read)
    where
      sent :
          IsSent c g json setup from (net.world from).node.shares msg
          → IsBacked net k (sender_id, valid)
      sent (inl dealt) = cc
      sent (inr (receiver, ack, has)) =
          let same : receiver ≡ setup.name k = cc in
          (from, cc, cc, subst (λ name. HasEntry c name (net.world from).node.shares) same has)

  -- Where every node of a network runs the code, in every interleaving: every single acknowledgement
  -- that a node has recorded is a positive one of a node which holds a share under the first
  -- node's name.
  pub acks-Reach :
      {net : Net c g}
      → Reach c g json rec setup net
      → (i : ℕ) → AllAcks c (IsBacked net i) (net.world i).node.acks
  acks-Reach (begin {net} h) i =
      subst (λ n. AllAcks c (IsBacked net i) n.acks) (sym (h.is_new i)) tt
  acks-Reach (step {net} {net'} reach (start k r w waits e moves)) i =
      subst (λ n. (i : ℕ) → AllAcks c (IsBacked n i) (n.world i).node.acks) (sym moves)
        (moved-AllAcks net k r w
          (λ name has.
            subst (λ w. HasEntry c name w.node.shares) (ap (λ q. q.1) e)
              (start_adkg-HasEntry c g json name (setup.rng k) (net.world k) has))
          (acks-Reach reach)
          (subst (λ w. AllAcks c (IsBacked net k) w.node.acks) (ap (λ q. q.1) e)
            (start_adkg-AllAcks c g json (IsBacked net k) (setup.rng k) (net.world k)
              (acks-Reach reach k))))
        i
  acks-Reach
        (step {net} {net'} reach (receive k from at bytes msg r w loops apart found read e moves))
        i =
      subst (λ n. (i : ℕ) → AllAcks c (IsBacked n i) (n.world i).node.acks) (sym moves)
        (moved-AllAcks net k r w
          (λ name has.
            subst (λ w. HasEntry c name w.node.shares) (ap (λ q. q.1) e)
              (handle_message-HasEntry c g json name msg (net.world k) has))
          (acks-Reach reach)
          (subst (λ w. AllAcks c (IsBacked net k) w.node.acks) (ap (λ q. q.1) e)
            (handle_message-AllAcks c g json (IsBacked net k) msg (setup.name k) (net.world k)
              (received-IsBacked net k from at bytes msg
                (Reach-IsHonest c g json rec setup reach from) found read)
              ((Reach-IsHonest c g json rec setup reach k).named, acks-Reach reach k)).1))
        i
