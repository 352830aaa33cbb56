-- ===== src/Safety/Errors.antt =====
-- thundercrab-suggestions/src/safety.rs: why a suggestion is rejected.
use thundercrab.Prelude.{Text}

pub data SafetyError : Type 0 where
  unsafe_match : SafetyError
  protected_folder : (folder : Text) → SafetyError
  protected_flag : (flag : Text) → SafetyError
  nested : SafetyError → SafetyError
