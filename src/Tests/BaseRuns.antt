-- ===== src/Tests/BaseRuns.antt =====
-- The requeued paths and the whole base of a workspace's store.
use remote_sandbox_cli.Base.{
  ◌≡◌, refl, [], ◌∷◌, split, join, if◌then◌else◌, Text, text_eq, ℕ_discrete, Text-discrete,
}
use remote_sandbox_cli.Base.Dict.{Dict}
use remote_sandbox_cli.Base.Result.{ok, err, integrity_error}
use remote_sandbox_cli.Paths.{
  normalize_relative_path, nt_isabs, push_component, collapse, initial_slashes, normpath,
}
use remote_sandbox_cli.Manifest.{EntryFingerprint, entry_fingerprint}
use remote_sandbox_cli.State.Bases.{replace_base, list_base}
use remote_sandbox_cli.State.Replaced.{by_path, repeats_path, list_base-replace_base}
use remote_sandbox_cli.Tests.Inputs.{a_txt, new_file, empty_store}

new_file_valid : entry_fingerprint new_file ≡ ok new_file
unfolding entry_fingerprint normalize_relative_path normpath nt_isabs push_component collapse
    initial_slashes split join ℕ_discrete Text-discrete
new_file_valid = refl

normal_a : normalize_relative_path a_txt ≡ ok a_txt
unfolding normalize_relative_path normpath nt_isabs push_component collapse initial_slashes split
    join ℕ_discrete Text-discrete
normal_a = refl

abbrev new_base : Dict Text EntryFingerprint
new_base = (a_txt, new_file) ∷ []

list_base-replace_base_example :
    ((replace_base new_base empty_store).0
      ≡ (if repeats_path new_base then err integrity_error else ok tt))
    × ((list_base (replace_base new_base empty_store).1).0
        ≡ (if repeats_path new_base then (list_base empty_store).0 else ok (by_path new_base)))
list_base-replace_base_example =
    list_base-replace_base new_base empty_store ((normal_a, new_file_valid), tt)
