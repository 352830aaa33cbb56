-- ===== src/Safety/Effects.antt =====
-- What an action does, as the list of its effects in order, and which effects a federated rule may
-- have. The list forgets how sequences are nested.
use thundercrab.Prelude.{
  ◌≢◌, Option, none, some, List, [], ◌∷◌, ◌++◌, map, Text, codes, ascii_lower,
}
use thundercrab.Rule.{Action, Actions, file_into, set_flag, sequence, nil, cons}
use thundercrab.Safety.Errors.{SafetyError, unsafe_match, protected_folder, protected_flag, nested}

pub data Effect : Type 0 where
  files : (folder : Text) → Effect
  flags : (flag : Text) → Effect

unfoldable mutual
  pub effects : Action → List Effect
  effects (file_into folder) = files folder ∷ []
  effects (set_flag flag) = flags flag ∷ []
  effects (sequence actions) = effects_of actions

  pub effects_of : Actions → List Effect
  effects_of nil = []
  effects_of (cons a rest) = effects a ++ effects_of rest

-- The folders whose name in lower case is "inbox" or "important", and the three flags, are closed.
abbrev pub IsPermitted : Effect → Type 0
IsPermitted (files f) =
    (map ascii_lower f ≢ codes "inbox") × (map ascii_lower f ≢ codes "important")
IsPermitted (flags f) = (f ≢ codes "\\Flagged") × (f ≢ codes "$Important") × (f ≢ codes "$Label1")

-- The effect that an error names, below its wrappers.
unfoldable pub cause : SafetyError → Option Effect
cause unsafe_match = none
cause (protected_folder f) = some (files f)
cause (protected_flag f) = some (flags f)
cause (nested e) = cause e
