-- ===== src/Cli/Tests.antt =====
-- A quantum of 45 seconds, sent to a scheduler that has just started.
use nvshare.Prelude.{true, [], true, none, ◌+◌}
use nvshare.Common.Transfer.{count, result}
use nvshare.Scheduler.State.{World, Client}
use nvshare.Cli.{Connection}

abbrev connection : Connection
connection = record { connected = true; written = true; closed = true }

abbrev client : Client
client = record { fd = 5; id = 0; pod_name = []; pod_namespace = [] }

abbrev world : World
world = record {
  write = λ _. result (count 537);
  epoll_del = λ _. true;
  close = λ _. none;
  stale = λ _. 0;
  rand = λ n. n + 1;
  draws = 1;
}
