-- ===== src/Tests/AgentRuns.antt =====
-- The agent's store.
use remote_sandbox_cli.Base.{
  ◌≤◌, ◌<◌, ◌≡◌, refl, none, some, List, [], ◌∷◌, All, codes, select, option_text_eq, arith,
}
use remote_sandbox_cli.Base.Sort.{IsSorted}
use remote_sandbox_cli.Base.Result.{ok}
use remote_sandbox_cli.Journal.{create, modify, delete}
use remote_sandbox_cli.Sqlite.{Connection}
use remote_sandbox_cli.RemoteStore.{
  protected_sequence, RemoteEvent, RemoteDb, events_after, sequence_le,
}
use remote_sandbox_cli.RemoteStore.Delivered.{up_to}
use remote_sandbox_cli.RemoteStore.Within.{IsWithin}
use remote_sandbox_cli.RemoteStore.Runs.{
  Request, append, after, acknowledged, serve_all, serve_all-IsWithin, serve_all-keeps_delivered,
}
use remote_sandbox_cli.RemoteStore.Handed.{events_after-delivers}
use remote_sandbox_cli.Tests.Inputs.{a_txt, b_txt}

-- Two events, the first of them delivered, and a running watcher.
abbrev agent : Connection RemoteDb
agent = record {
  db = record {
    events =
        record {
          sequence = 1;
          kind = create;
          path = a_txt;
          destination_path = none;
          created_at = 5;
        }
        ∷ record {
          sequence = 2;
          kind = create;
          path = b_txt;
          destination_path = none;
          created_at = 6;
        }
        ∷ [];
    allocated = 2;
    acknowledged_sequence = 0;
    delivered_sequence = 1;
    watcher = record {
      pid = some 12;
      status = codes "running";
      backend = none;
      started_at = some 4;
      heartbeat_at = some 4;
      error = none;
      token = some (codes "t1");
    };
  };
  savepoints = [];
}

agent-IsWithin : IsWithin agent.db
agent-IsWithin = record {
  events_within = (omega arith, (omega arith, tt));
  acknowledged_within = omega arith;
  delivered_within = omega arith;
}

-- A change that is merged, one that is not, and a delivery between them.
abbrev busy : List Request
busy = append 9 modify b_txt none ∷ after 0 none ∷ append 10 delete b_txt none ∷ acknowledged 2 ∷ []

serve_all-keeps_delivered_example :
    select (up_to (protected_sequence agent.db)) (serve_all busy agent).db.events
    ≡ select (up_to (protected_sequence agent.db)) agent.db.events
serve_all-keeps_delivered_example = serve_all-keeps_delivered busy agent agent-IsWithin

serve_all-IsWithin_example : IsWithin (serve_all busy agent).db
serve_all-IsWithin_example = serve_all-IsWithin busy agent agent-IsWithin

events_after-delivers_example :
    (rows : List RemoteEvent) × ((events_after 0 (some 1) agent).0 ≡ ok rows)
    × IsSorted sequence_le rows
    × All
        (λ e.
          (0 < e.sequence) × (e.sequence ≤ (events_after 0 (some 1) agent).1.db.delivered_sequence))
        rows
events_after-delivers_example = events_after-delivers 0 (some 1) agent refl
