-- ===== src/Repositories/Strategies.antt =====
-- StrategyRepository: the versions that were uploaded and their parameters. The ids count up from 1.
use newhbot.Base.{
  ℕ, suc, ◌==◌, String, str_eq, keep, find?, if◌then◌else◌, Option, List, [], ◌∷◌, ◌++◌, length,
}
use newhbot.Action.{Action, ok, gets}
use newhbot.Models.{StrategyVersion, StrategyParameter}
use newhbot.World.{World}

-- The rows with the last one first.
abbrev pub latest_first : {A : Type 0} → List A → List A
latest_first [] = []
latest_first (x ∷ xs) = latest_first xs ++ x ∷ []

unfoldable pub list_versions : Action World (List StrategyVersion)
list_versions = gets (λ s. latest_first s.db.versions)

unfoldable pub add_version : StrategyVersion → Action World StrategyVersion
add_version v s =
    let row = record v { id = suc (length s.db.versions) } in
    (ok row, record s { db = record s.db { versions = s.db.versions ++ row ∷ [] } })

unfoldable pub get_by_hash : String → Action World (Option StrategyVersion)
get_by_hash file_hash = gets (λ s.
    find? (λ (v : StrategyVersion). str_eq v.file_hash file_hash) (latest_first s.db.versions))

unfoldable pub parameters_for : ℕ → Action World (List StrategyParameter)
parameters_for version_id =
    gets
      (λ s. keep (λ (p : StrategyParameter). p.strategy_version_id == version_id) s.db.parameters)

unfoldable pub add_parameter : StrategyParameter → Action World StrategyParameter
add_parameter p s =
    let row = record p { id = suc (length s.db.parameters) } in
    (ok row, record s { db = record s.db { parameters = s.db.parameters ++ row ∷ [] } })

unfoldable pub get_parameter : ℕ → Action World (Option StrategyParameter)
get_parameter id = gets (λ s. find? (λ (p : StrategyParameter). p.id == id) s.db.parameters)

abbrev pub effective_parameter_value : StrategyParameter → String
effective_parameter_value p = if p.enabled then p.current_value else p.default_value
