-- ===== src/Channel.antt =====
-- `tokio::sync::mpsc::channel(100)`, which carries what the components send to the network loop.
-- `send` on a full channel waits: the loop that would empty it is the task that sends.
use mpc_node.Common.{
  ℕ, Bool, true, List, [], ◌∷◌, ◌++◌, length, ltb, if◌then◌else◌, Outcome, ok, err, blocked,
}
use mpc_node.Types.{ChannelMessage}

pub record Channel : Type 0 where
  pub queue : List ChannelMessage
  pub capacity : ℕ
  -- The receiver has not been dropped.
  pub receiving : Bool

-- `mpsc::channel(100)`
abbrev pub channel : Channel
channel = record { queue = []; capacity = 100; receiving = true }

unfoldable pub send : ChannelMessage → Channel → Outcome (Unit {0}) × Channel
send msg c =
    if c.receiving
    then (if ltb (length c.queue) c.capacity
        then (ok tt, record c { queue = c.queue ++ msg ∷ [] })
        else (blocked, c))
    else (err "channel closed", c)
