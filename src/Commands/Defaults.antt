-- ===== src/Commands/Defaults.antt =====
-- src/ssa/commands/registry.py: the commands of the program.
use zero_hdsc.Base.{String, List, [], ◌∷◌, Result, ok, ◌>>◌}
use zero_hdsc.Commands.{
  Texts, CommandCapability, CommandRegistry, new_registry, check_capability, register,
}

-- A capability without aliases.
abbrev pub command : String → String → String → String → String → CommandCapability
command name description action argument_hint payload = record {
  name = name;
  description = description;
  action = action;
  argument_hint = argument_hint;
  aliases = [];
  payload = payload;
}

abbrev pub default_capabilities : List CommandCapability
default_capabilities =
    command "attach" "Queue a file for the next multimodal message" "attachment.add" "PATH" ""
    ∷ command "attachments" "Show files queued for the next message" "attachment.list" "" ""
    ∷ command "detach" "Remove a queued file by number" "attachment.remove" "N" ""
    ∷ command "clear-attachments" "Clear the queued attachment list" "attachment.clear" "" ""
    ∷ command "space" "Open trace-space inspection" "tab.open" "" "space-tab"
    ∷ command "state" "Open organism state" "tab.open" "" "state-tab"
    ∷ command "relation" "Open relationship state" "tab.open" "" "relation-tab"
    ∷ command "memory" "Open persistent memories" "tab.open" "" "memory-tab"
    ∷ command "identity" "Open evidence-backed identity" "tab.open" "" "identity-tab"
    ∷ command "activity" "Open offline and learning activity" "tab.open" "" "activity-tab"
    ∷ command "refresh" "Refresh the current dashboard" "dashboard.refresh" "" ""
    ∷ command "clear" "Clear visible conversation messages" "conversation.clear" "" ""
    ∷ record (command "help" "Show all registered slash commands" "commands.help" "" "") {
      aliases = "commands" ∷ [];
    }
    ∷ record (command "quit" "Close the terminal interface" "app.quit" "" "") {
      aliases = "exit" ∷ [];
    }
    ∷ []

-- The constructors check the capabilities before the first one is registered.
unfoldable pub check_all : Texts → List CommandCapability → Result (Unit {0})
check_all t [] = ok tt
check_all t (c ∷ cs) = check_capability t c >> check_all t cs

-- What `register` raises ends the loop.
unfoldable pub register_each : List CommandCapability → CommandRegistry → Result CommandRegistry
register_each [] r = ok r
register_each (c ∷ cs) r = let (registered, r') = register c r in registered >> register_each cs r'

unfoldable pub build_default_command_registry : Texts → Result CommandRegistry
build_default_command_registry t =
    check_all t default_capabilities >> register_each default_capabilities new_registry
