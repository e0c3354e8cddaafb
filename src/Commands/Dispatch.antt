-- ===== src/Commands/Dispatch.antt =====
-- The dispatch of src/commands/mod.rs against the name of a command.
use mpc_node.Common.{
  String, Bool, true, false, some, ◌≡◌, refl, sym, ap, ◌∙◌, if◌then◌else◌, str_eq, arith,
}
use mpc_node.Common.HashMap.{lookup, lookup-insert}
use mpc_node.Types.{Command, share_generation, sign_message, update_state, consensus_proposal}
use mpc_node.Commands.{CommandProcessor, Handler, register_handler, handle_message, run_handler}

-- The key that a command's handler is registered under.
abbrev pub command_type : Command → String
command_type (share_generation threshold) = "share_generation"
command_type (sign_message message) = "sign_message"
command_type (update_state key value) = "update_state"
command_type (consensus_proposal round value) = "consensus_proposal"

module _ {E : Type 0} where
  handle_message-run_handler :
      (p : CommandProcessor E) (msg : Command)
      → handle_message p msg ≡ run_handler (lookup (command_type msg) p.handlers) msg
  unfolding handle_message
  handle_message-run_handler p (share_generation threshold) = refl
  handle_message-run_handler p (sign_message message) = refl
  handle_message-run_handler p (update_state key value) = refl
  handle_message-run_handler p (consensus_proposal round value) = refl

  run_handler-some :
      (handler : Handler E) (msg : Command) (env : E)
      → run_handler (some handler) msg env ≡ handler msg env
  unfolding run_handler
  run_handler-some handler msg env = ground arith

  -- After a registration a command of that type runs the new handler, with its result and its
  -- effect; every other command is treated as before.
  pub handle_message-register_handler :
      (p : CommandProcessor E) (key : String) (handler : Handler E) (msg : Command) (env : E)
      → handle_message (register_handler key handler p) msg env
        ≡ (if str_eq key (command_type msg) then handler msg env else handle_message p msg env)
  unfolding register_handler
  handle_message-register_handler p key handler msg env =
      ap (λ f. f env) (handle_message-run_handler (register_handler key handler p) msg)
      ∙ ap (λ o. run_handler o msg env) (lookup-insert key (command_type msg) handler p.handlers)
      ∙ split (str_eq key (command_type msg))
    where
      split :
          (t : Bool)
          → run_handler (if t then some handler else lookup (command_type msg) p.handlers) msg env
            ≡ (if t then handler msg env else handle_message p msg env)
      split true = run_handler-some handler msg env
      split false = sym (ap (λ f. f env) (handle_message-run_handler p msg))
