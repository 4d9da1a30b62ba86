-- ===== src/Manager/Startup/Tests.antt =====
-- A concrete start of the program.
use ptf.Prelude.{◌+◌, true, Option, none, some}
use ptf.Prelude.Int.{pos}
use ptf.Http.Text.{Text}
use ptf.Text.{codes}
use ptf.Config.{Entries, Config}
use ptf.Config
use ptf.Pool.Setup.{Os}

abbrev os : Os
os = record {
  pipe = λ i. some (3 + i, 4 + i);
  base = λ i. true;
  add_event = λ i. true;
  create = λ i. 0;
}

abbrev configured : Config
configured = record {
  conf = some (record { manager_port = none; listen = none; workers = some (pos 2) });
  manage_port = pos 13388;
  listen_addr = codes "0.0.0.0";
  n_worker = pos 2;
}

abbrev config_file : Text → Option Entries
config_file path = some (record { manager_port = none; listen = none; workers = some (pos 2) })
