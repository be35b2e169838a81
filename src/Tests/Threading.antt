-- ===== src/Tests/Threading.antt =====
-- Threads, the start and the end of the program, and of a client, at concrete inputs.
use dokevi_network.Startup.Instance.{
  Callers, After, same, then_get, test_null, test_there, make, give_back, call_again, outside,
  given, no_instance, one_instance,
}
use dokevi_network.Prelude.{
  ℕ, ◌+◌, ◌-◌, ◌<◌, ◌≤◌, ◌≡◌, ◌≢◌, ◌↔◌, ◌%◌, refl, List, [], ◌∷◌, ◌++◌, true, false, none, some,
  arith, All, ok, err, spins, throws,
}
use dokevi_network.Bytes.{word}
use dokevi_network.Log.{new_log_manager, Level}
use dokevi_network.Packet.{Packet}
use dokevi_network.Threads.{ThreadManager, main_thread, find_info}
use dokevi_network.Threads.Numbers.{register_all, register_all-from, IsNumbered}
use dokevi_network.Startup.{Setup, Managers, initialize_managers, release_managers, run}
use dokevi_network.Startup.Release.{run-release_managers}
use dokevi_network.Client.{new_client}
use dokevi_network.Client.Session.{disconnected, recv_thread}
use dokevi_network.Client.Life.{
  Life, Call, closesocket, connect, disconnect, destroy, connect-disconnect_open,
}
use dokevi_network.Random.{get_int, rand_bound}
use dokevi_network.Random.Range.{get_int_iff}

-- The main thread 40 only.
abbrev threads : ThreadManager
threads = record {
  cur_thread = 0;
  count = 1;
  size = 1;
  main_thread_id = 40;
  info_map = (40, record { index = 0; type = main_thread }) ∷ [];
  thread_pool = [];
  released = false;
}

register_all-from_example :
    ((register_all (41 ∷ 42 ∷ []) threads).0 ≡ 1 ∷ 2 ∷ [])
    × IsNumbered 1 (41 ∷ 42 ∷ []) (register_all (41 ∷ 42 ∷ []) threads).1
unfolding find_info
register_all-from_example =
    register_all-from (41 ∷ 42 ∷ []) threads (refl, (refl, tt))
      (((λ e. omega (arith, e)), tt), (tt, tt)) (omega arith)

abbrev managers : Managers
managers = record {
  seeded = none;
  config_file = [];
  config_released = false;
  log_manager = new_log_manager;
  threads = threads;
  packets = none;
  minidump_event = false;
}

abbrev fresh : ℕ → Packet
fresh n = record {
  buffer = [];
  immediate_send = false;
  is_sending = false;
  size = 0;
  remain_size = n;
  max_size = n;
  next = none;
}

abbrev setup : Setup
setup = record {
  time = 1000;
  thread_id = 40;
  log_settings = record { enable_daily_log = 0; use_log = 1; sinks_throw = false };
  use_minidump = 1;
  fresh = fresh;
}

abbrev set_up : Managers
set_up = (initialize_managers setup (1 ∷ []) managers).0

run-release_managers_example :
    (s' : Managers) × (lines : List Level) × (release_managers (run false [] set_up).0
      ≡ ok (s', lines))
    × (release_managers (run false (500 ∷ 600 ∷ []) set_up).0 ≡ err spins)
    × (release_managers (run true (500 ∷ 600 ∷ []) set_up).0 ≡ err throws)
run-release_managers_example =
    run-release_managers setup (1 ∷ []) 500 (600 ∷ []) managers refl
      ((λ e. omega (arith, e)), ((λ e. omega (arith, e)), tt))

abbrev new_life : Life
new_life = record { disconnect = false; listen_socket = 0; thread = none }

connect-disconnect_open_example :
    (a : Life) × (b : Life) × (calls : List Call) × (calls' : List Call) × (calls'' : List Call)
    × (connect 5 true new_life ≡ (true, a, calls))
    × (disconnect (disconnected ∷ []) (new_client 0 false) a
        ≡ ok (b, new_client 0 false, [], calls'))
    × (destroy [] (new_client 0 false) b ≡ ok (b, new_client 0 false, [], calls''))
    × (b.listen_socket ≡ 5)
    × All (λ call. call ≢ closesocket 5) (calls ++ calls' ++ calls'')
unfolding recv_thread
connect-disconnect_open_example =
    connect-disconnect_open 5 new_life (disconnected ∷ []) (new_client 0 false) (new_client 0 false)
      [] (λ e. omega (arith, e)) (λ e. omega (arith, e)) refl

-- From -3 to 4.
get_int_iff_example :
    ((rand : ℕ) × (rand < rand_bound)
      × (get_int rand (word - 3) ((word - 3 + 7) % word) ≡ ok ((word - 3 + 5) % word)))
    ↔ ((5 ≤ 7) × (5 < rand_bound))
get_int_iff_example = get_int_iff (word - 3) 7 5 (omega arith) (omega arith) (omega arith)

-- Thread 0 has the object 0, and is outside again.
abbrev with_object : (s : Callers) × After no_instance s
with_object = (
  _,
  then_get 0
      (then_get 0 (then_get 0 (then_get 0 same (test_null refl refl)) (make refl))
        (give_back 0 refl refl))
      (call_again 0 refl),
)

-- And thread 1 is given it.
abbrev second_call : (t : Callers) × After with_object.0 t
second_call = (_, then_get 1 (then_get 1 same (test_there 0 refl refl)) (give_back 0 refl refl))

all_outside : (j : ℕ) → with_object.0.callers j ≡ outside
all_outside j = ground arith

one_instance_example :
    (second_call.0.instance_of.inst ≡ some 0)
    × ((i b : ℕ) → second_call.0.callers i ≡ given b → b ≡ 0)
one_instance_example = one_instance 0 refl all_outside second_call.1
