-- ===== src/Tests/InitialRuns.antt =====
-- An initial plan of one file.
use remote_sandbox_cli.Base.{
  ◌≡◌, refl, ℕ_discrete, Text-discrete, option_text_discrete, option_nat_discrete, some, [], ◌∷◌,
  All, split, join, true,
}
use remote_sandbox_cli.Base.Dict.{lookup}
use remote_sandbox_cli.Base.Sort.{sort, insort}
use remote_sandbox_cli.Base.Result.{ok}
use remote_sandbox_cli.Paths.{
  normalize_relative_path, nt_isabs, push_component, collapse, initial_slashes, normpath,
}
use remote_sandbox_cli.Manifest.{entry, missing, EntryKind-discrete}
use remote_sandbox_cli.Policy.{sync}
use remote_sandbox_cli.Sync.Transfer.{TransferBatch, push_direction, transfer_item, transfer_batch}
use remote_sandbox_cli.InitialPlan.{InitialSyncPlan, local_to_remote, build_initial_plan}
use remote_sandbox_cli.InitialPlan.Sources.{FromSource, build_initial_plan-FromSource}
use remote_sandbox_cli.Tests.Inputs.{a_txt, new_file}

abbrev first_batch : TransferBatch
first_batch = record {
  direction = push_direction;
  items =
      record {
        path = a_txt;
        expected_source = some (entry new_file);
        expected_destination = some (missing (some a_txt));
      }
      ∷ [];
}

abbrev first_plan : InitialSyncPlan
first_plan = record { transfer_batch = some first_batch; placeholders = [] }

first :
    build_initial_plan
      (λ e side. ok sync)
      (λ paths. ok [])
      1000
      local_to_remote
      ((a_txt, new_file) ∷ [])
      []
      []
    ≡ ok first_plan
unfolding build_initial_plan transfer_item transfer_batch sort insort lookup normalize_relative_path
    normpath nt_isabs push_component collapse initial_slashes split join ℕ_discrete Text-discrete
    option_text_discrete option_nat_discrete EntryKind-discrete
first = refl

build_initial_plan-FromSource_example :
    All (FromSource true ((a_txt, new_file) ∷ []) [] []) first_batch.items
build_initial_plan-FromSource_example =
    build_initial_plan-FromSource (λ e side. ok sync) (λ paths. ok []) 1000 local_to_remote
      ((a_txt, new_file) ∷ []) [] [] first_plan first_batch first refl
