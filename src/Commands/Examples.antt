-- ===== src/Commands/Examples.antt =====
-- The default commands, and concrete registrations.
use zero_hdsc.Base.{
  ◌≤◌, none, [], ◌∷◌, ◌≡◌, refl, length, All, ok, err, token_taken, find, dict_get, dict_set,
}
use zero_hdsc.Commands.{
  CommandCapability, CommandRegistry, values, Texts, new_registry, register, get, suggest,
  remove_slash, set_tokens, is_command_name, check_capability,
}
use zero_hdsc.Commands.Defaults.{
  build_default_command_registry, default_capabilities, check_all, register_each,
}
use zero_hdsc.Commands.Refinement.{replay, register_all, get-register_all}
use zero_hdsc.Commands.Suggest.{IsSuggestion, Treats, suggest-Suggests}

-- Texts without capitals and surrounding spaces.
abbrev plain : Texts
plain = record { casefold = λ s. s; strip = λ s. s; lstrip = λ s. s }

abbrev helping : CommandCapability
helping = record {
  name = "help";
  description = "Show";
  action = "commands.help";
  argument_hint = "";
  aliases = "commands" ∷ [];
  payload = "";
}

-- A capability whose alias is taken by `helping`.
abbrev clashing : CommandCapability
clashing = record helping { name = "list"; aliases = "help" ∷ [] }

taken :
    register clashing (register helping new_registry).1
    ≡ (err (token_taken "help"), (register helping new_registry).1)
unfolding register find dict_get dict_set set_tokens
taken = refl

-- The commands of the program are all valid, and none takes the token of another.
default_built :
    build_default_command_registry plain ≡ ok (register_all (default_capabilities) new_registry)
unfolding build_default_command_registry check_all register_each check_capability is_command_name
    register find dict_get set_tokens dict_set
default_built = refl

get-register_all_example :
    get plain (register_all (helping ∷ clashing ∷ []) new_registry) "/help"
    ≡ replay (helping ∷ clashing ∷ []) (λ token. none) (remove_slash (plain.casefold "/help"))
get-register_all_example = get-register_all plain (helping ∷ clashing ∷ []) "/help"

abbrev one_command : CommandRegistry
one_command = (register helping new_registry).1

suggest-Suggests_example :
    (length (suggest plain one_command "/co" 8) ≤ 8)
    × All (IsSuggestion plain one_command "/co") (suggest plain one_command "/co" 8)
    × All (Treats plain one_command "/co" 8) (values one_command.commands)
suggest-Suggests_example = suggest-Suggests plain one_command "/co" 8
