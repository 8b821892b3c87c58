-- ===== src/Examples/NodeProcess.antt =====
-- A node's process: it listens, serves a request, registers at the second try and gets a signal.
use torua.Node.Process.Requests.{arrived, turns}
use torua.Mux.{find_handler}
use torua.Node.Race.Many.{advance_at, run_all}
use torua.Node.Serve.Begun.{begin_call, begin_answer, begin_shard_path}
use torua.Node.Race.Cells.Runs.{empty_heap, not_begun}
use torua.Node.Startup.{read_config}
use torua.Base.{
  ◌≡◌, refl, Str, [], none, some, ascii, true, str_beq, if◌then◌else◌, ◌==◌, str_eq, false,
  index_byte, atoi, trim_prefix, ◌<◌, length, arith, ◌++◌,
}
use torua.Cluster.{marshal_error}
use torua.Node.Process.{
  Process, Reach, start, here, next, listens, arrives, goes_on, posts, notifies, signals,
  registering, registered, waiting, shutting,
}
use torua.Node.Process.Exit.{Reach-Agrees, answers, Agrees}
use torua.Examples.Data.{get_of}

env_n : Str → Str
env_n k =
    if k == ascii "NODE_ID"
    then ascii "n"
    else if k == ascii "COORDINATOR_ADDR"
    then ascii "http://c"
    else []

abbrev begun : Process
begun = record {
  config = record {
    node_id = ascii "n";
    listen = ascii ":8081";
    public = ascii "http://127.0.0.1:8081";
    coord = ascii "http://c";
  };
  heap = empty_heap;
  calls = [];
  is_listening = false;
  main = registering 10;
}

env_n_begins : start env_n ≡ some begun
unfolding start env_n str_beq read_config
env_n_begins = refl

abbrev listening : Process
listening = record begun { is_listening = true }

-- A request for shard 2 arrives and finds nothing.
abbrev asked : Process
asked = record listening {
  calls = [] ++ not_begun (begin_call (get_of (ascii "/shard/2/store/k")));
}

abbrev moved : Process
moved = record asked {
  heap = (advance_at asked.heap asked.calls 0).0;
  calls = (advance_at asked.heap asked.calls 0).1;
}

one_call : 0 < length asked.calls
unfolding begin_call find_handler str_beq begin_answer begin_shard_path index_byte atoi trim_prefix
one_call = omega arith

abbrev signalled : Process
signalled = record moved { main = shutting }

to_signal : Reach begun signalled
to_signal =
    next
      (next
        (next
          (next
            (next
              (next (next here (listens begun refl))
                (arrives listening (get_of (ascii "/shard/2/store/k")) refl refl))
              (goes_on asked 0 refl one_call))
            (posts moved 9 (some marshal_error) refl))
          (posts (record moved { main = registering 9 }) 8 none refl))
        (notifies (record moved { main = registered }) refl))
      (signals (record moved { main = waiting }) refl)

Reach-Agrees_example :
    ((signalled.heap, signalled.calls)
      ≡ run_all empty_heap (not_begun (arrived to_signal)) (turns to_signal))
    × Agrees signalled.main (answers to_signal)
Reach-Agrees_example = Reach-Agrees env_n env_n_begins to_signal
