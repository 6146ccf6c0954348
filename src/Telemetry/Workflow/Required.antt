-- ===== src/Telemetry/Workflow/Required.antt =====
-- `RequiredChecks` of src/telemetry/workflow.rs: the required status checks of a branch.
use github_webhook_exporter.Prelude.{
  ℕ, ◌==◌, Bool, List, [], ◌∷◌, any, length, Text, text_eq, text_lt, if◌then◌else◌,
}
use github_webhook_exporter.Telemetry.Workflow.Names.{DisplayName}

abbrev pub max_required_check_count : ℕ
max_required_check_count = 100

-- The `BTreeSet`, as the list of its elements in ascending order. The order of the scalar values
-- is the order of the bytes that encode them, by which Rust compares strings.
pub record RequiredChecks : Type 0 where
  pub names : List DisplayName

-- `BTreeSet::insert`.
unfoldable pub insert_name : DisplayName → List DisplayName → List DisplayName
unfolding text_eq text_lt
insert_name name [] = name ∷ []
insert_name name (other ∷ names) =
    if text_eq name.text other.text
    then other ∷ names
    else if text_lt name.text other.text
    then name ∷ other ∷ names
    else other ∷ insert_name name names

-- The loop over the names, from the set retained so far.
unfoldable pub retain_names : List DisplayName → List DisplayName → List DisplayName
unfolding insert_name
retain_names retained [] = retained
retain_names retained (name ∷ names) =
    let rest = retain_names (insert_name name retained) names in
    if length retained == max_required_check_count then retained else rest

unfoldable pub new_checks : List DisplayName → RequiredChecks
unfolding retain_names
new_checks names = record { names = retain_names [] names }

unfoldable pub contains : RequiredChecks → Text → Bool
unfolding text_eq
contains checks name = any (λ (n : DisplayName). text_eq name n.text) checks.names
