-- ===== src/Tests/InotifyRuns.antt =====
-- Bytes from the kernel.
use remote_sandbox_cli.Base.{◌≡◌, refl, ℕ_discrete, true, [], ◌∷◌, arith}
use remote_sandbox_cli.Base.Result.{ok, err, value_error}
use remote_sandbox_cli.Manifest.{negsuc}
use remote_sandbox_cli.Inotify.{InotifyEvent, parse_inotify_buffer, parse_from, unpack}
use remote_sandbox_cli.Inotify.Parsed.{IsWritten, records_onto, parse_inotify_buffer-records_onto}

abbrev overflowed : InotifyEvent
overflowed = record {
  watch_descriptor = negsuc 0;
  mask = 16386;
  cookie = 70000;
  name = 97 ∷ [];
  overflow = true;
}

parsed :
    parse_inotify_buffer (
      255 ∷ 255 ∷ 255 ∷ 255 ∷ 2 ∷ 64 ∷ 0 ∷ 0 ∷ 112 ∷ 17 ∷ 1 ∷ 0 ∷ 4 ∷ 0 ∷ 0 ∷ 0 ∷ 97 ∷ 0 ∷ 0 ∷ 0
      ∷ [])
    ≡ ok (overflowed ∷ [])
unfolding parse_inotify_buffer parse_from unpack ℕ_discrete
parsed = refl

overflowed-IsWritten : IsWritten (overflowed, 3)
unfolding ℕ_discrete
overflowed-IsWritten = (omega arith, omega arith, omega arith, omega arith, (omega arith, tt), refl)

parse_inotify_buffer-records_onto_example :
    parse_inotify_buffer (records_onto ((overflowed, 3) ∷ []) (1 ∷ [])) ≡ err value_error
parse_inotify_buffer-records_onto_example =
    parse_inotify_buffer-records_onto ((overflowed, 3) ∷ []) (1 ∷ []) (overflowed-IsWritten, tt)
      (omega arith)
