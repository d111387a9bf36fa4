-- ===== src/CommandLine/Types.antt =====
-- What the parser of the command line (main.h, main.cpp) knows and how it ends. Callbacks change a
-- state of the application.
use kj.Base.{ℕ, Bool, Option, none, some, List, [], ◌∷◌, ◌++◌, ◌==◌, if◌then◌else◌}
use kj.Text.{Bytes}
use kj.Text.Search.{codes, bytes_eq}

-- `Validity`: an error message, or none.
abbrev pub Validity : Type 0
Validity = Option Bytes

-- How a `MainFunc` ends: it returns, or leaves the process by `exitError` or `exitInfo` with a
-- message, or by the help text.
pub data Exit (S : Type 0) : Type 0 where
  finished : S → Exit S
  exit_error : Bytes → S → Exit S
  exit_info : Bytes → S → Exit S
  printed_help : Bytes → S → Exit S

-- A callback returns the changed state with its verdict.
module _ (S : Type 0) where
  abbrev pub MainFunc : Type 0
  MainFunc = Bytes → List Bytes → S → Exit S

  pub record CliOption : Type 0 where
    pub has_arg : Bool
    pub func : S → S × Validity
    pub func_with_arg : Bytes → S → S × Validity

  -- As it is kept; see `make_arg` for how it begins.
  pub record Arg : Type 0 where
    pub title : Bytes
    pub callback : Bytes → S → S × Validity
    pub min_count : ℕ
    pub max_count : ℕ

  -- The maps of `MainBuilder::Impl` are lists of their entries.
  pub record Impl : Type 0 where
    pub short_options : List (ℕ × CliOption)
    pub long_options : List (Bytes × CliOption)
    pub sub_commands : List (Bytes × MainFunc)
    pub args : List Arg
    pub final_callback : Option (S → S × Validity)

unfoldable pub find_named {ℓ} : {V : Type ℓ} → Bytes → List (Bytes × V) → Option V
find_named name [] = none
find_named name ((key, value) ∷ rest) =
    if bytes_eq key name then some value else find_named name rest

module _ {S : Type 0} where
  unfoldable pub find_short : ℕ → List (ℕ × CliOption S) → Option (CliOption S)
  find_short c [] = none
  find_short c ((name, option) ∷ rest) = if name == c then some option else find_short c rest

  unfoldable pub usage_error : Bytes → Bytes → S → Exit S
  usage_error program message s =
      exit_error
        (program
          ++ (codes ": "
              ++ (message
                  ++ (codes "\nTry '" ++ (program ++ codes " --help' for more information.")))))
        s

  -- `KJ_IF_MAYBE(error, callback(...).releaseError()) { usageError(...); }` and what follows it.
  abbrev pub checked : Bytes → Bytes → S × Validity → (S → Exit S) → Exit S
  checked program label (s, none) next = next s
  checked program label (s, some error) next =
      usage_error program (label ++ (codes ": " ++ error)) s
