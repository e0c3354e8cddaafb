-- ===== src/Commands.antt =====
-- src/commands/mod.rs: commands are dispatched to the handlers that were registered for them. What
-- a handler changes is the environment `E`; the channel of the struct is not used in the source.
pub mod Dispatch
use mpc_node.Common.{String, Option, none, some, [], Io, pure, ◌>>◌}
use mpc_node.Common.HashMap.{HashMap, lookup, insert}
use mpc_node.Types.{Command, share_generation, sign_message, update_state, consensus_proposal}

abbrev pub Handler : Type 0 → Type 0
Handler E = Command → Io E (Unit {0})

pub record CommandProcessor (E : Type 0) : Type 0 where
  pub handlers : HashMap (Handler E)

module _ {E : Type 0} where
  -- `CommandProcessor::new`
  abbrev pub new : CommandProcessor E
  new = record { handlers = [] }

  unfoldable pub register_handler : String → Handler E → CommandProcessor E → CommandProcessor E
  register_handler command_type handler p = record p {
    handlers = insert command_type handler p.handlers;
  }

  run_handler : Option (Handler E) → Command → Io E (Unit {0})
  run_handler none msg = pure tt
  run_handler (some handler) msg = do handler msg; pure tt

  unfoldable pub handle_message : CommandProcessor E → Command → Io E (Unit {0})
  unfolding run_handler
  handle_message p (share_generation threshold) =
      run_handler (lookup "share_generation" p.handlers) (share_generation threshold)
  handle_message p (sign_message message) =
      run_handler (lookup "sign_message" p.handlers) (sign_message message)
  handle_message p (update_state key value) =
      run_handler (lookup "update_state" p.handlers) (update_state key value)
  handle_message p (consensus_proposal round value) =
      run_handler (lookup "consensus_proposal" p.handlers) (consensus_proposal round value)
