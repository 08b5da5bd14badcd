-- ===== src/Service/Lifecycle.antt =====
-- The end of the agent: `Service::Stop`, which the handler of Ctrl-C calls on threads of its own, and `Service::
-- Run` of apps/host_agent/src/core/service.cpp from its waiting on, with `Stop` and the destructors of the
-- parts that have a thread: api/http_server.cpp, collectors/direct_gpu_collector.cpp,
-- collectors/ollama_runtime_collector.cpp and core/snapshot_pusher.cpp. The threads take turns in any order; one
-- turn is one access to what they share. Left out are the reader of the GPU collector, what the parts print,
-- and a Ctrl-C before the waiting.
pub mod Steps
pub mod Joined
pub mod Flag
pub mod Listens
use capacity_agent.Base.{
  ℕ, Bool, true, false, not, ◌&&◌, ◌||◌, ◌==◌, Option, none, some, List, [], ◌∷◌, ◌++◌, Text,
  get_elem?, set, if◌then◌else◌,
}
use capacity_agent.CommandLine.{ServiceConfig}

-- The parts of the service with a thread.
pub data Part : Type 0 where
  http_server gpu_collector ollama_collector snapshot_pusher pipe_thread : Part

abbrev pub index : Part → ℕ
index http_server = 0
index gpu_collector = 1
index ollama_collector = 2
index snapshot_pusher = 3
index pipe_thread = 4

abbrev pub same : Part → Part → Bool
same p q = index p == index q

-- `running_` and `thread_` of a part: whether the thread is joinable, whether it has not ended, and
-- whether a call of `join` waits for it.
pub record Worker : Type 0 where
  pub running : Bool
  pub joinable : Bool
  pub alive : Bool
  pub joining : Bool

-- A new part after `Start`.
abbrev pub start : Worker
start = record { running = true; joinable = true; alive = true; joining = false }

-- The parts, with none for a null pointer. `undefined` is set once two calls of `join` on one thread
-- overlap, or one finds it joined: what follows then is not defined.
pub record Service : Type 0 where
  pub running : Bool
  pub workers : Part → Option Worker
  pub undefined : Bool

-- What `Initialize` of the collectors answers.
pub record Answers : Type 0 where
  pub gpu_initialize : Bool
  pub ollama_initialize : Bool

-- A collector that is enabled and initialises is started; another one is dropped again.
abbrev pub start_if : Bool → Bool → Option Worker
start_if enabled initialized = if enabled then (if initialized then some start else none) else none

abbrev pub has_url : Text → Bool
has_url [] = false
has_url (c ∷ url) = true

abbrev pub start_part : ServiceConfig → Answers → Part → Option Worker
start_part config answers http_server = some start
start_part config answers gpu_collector = start_if config.gpu.enabled answers.gpu_initialize
start_part config answers ollama_collector =
    start_if config.ollama.enabled answers.ollama_initialize
start_part config answers snapshot_pusher = start_if (has_url config.push.url) true
start_part config answers pipe_thread = some start

-- The service as `Run` waits.
abbrev pub start_all : ServiceConfig → Answers → Service
start_all config answers = record {
  running = true;
  workers = start_part config answers;
  undefined = false;
}

abbrev pub on_worker : (Worker → Worker) → Option Worker → Option Worker
on_worker f none = none
on_worker f (some w) = some (f w)

abbrev pub update : Part → (Worker → Worker) → Service → Service
update p f s = record s {
  workers = λ q. if same p q then on_worker f (s.workers q) else s.workers q;
}

abbrev pub running_if : Option Worker → Bool
running_if none = false
running_if (some w) = w.running

abbrev pub joinable_if : Option Worker → Bool
joinable_if none = false
joinable_if (some w) = w.joinable

abbrev pub alive_if : Option Worker → Bool
alive_if none = false
alive_if (some w) = w.alive

abbrev pub joining_if : Option Worker → Bool
joining_if none = false
joining_if (some w) = w.joining

-- The steps of a thread that stops the service: `running_.store(false)` of the service, the waiting of `Run`,
-- the call of `Stop` of a part, `running_.store(false)` of a part, the test of `joinable`, the call of
-- `join`, and its return.
pub data Act : Type 0 where
  clear_running await_clear : Act
  stop store_false test_joinable join leave : Part → Act

-- `Stop` of a part from its first test on: a null pointer is left alone, and `HttpServer::Stop` returns where
-- the server is not running.
abbrev pub stop_acts : Part → Option Worker → List Act
stop_acts p none = []
stop_acts http_server (some w) = if w.running then test_joinable http_server ∷ [] else []
stop_acts p (some w) = store_false p ∷ test_joinable p ∷ []

-- `HttpServer::Stop` clears `running_` behind the join.
abbrev pub after_join : Part → List Act
after_join http_server = store_false http_server ∷ []
after_join _ = []

abbrev pub enter_join : Part → Bool → Service → List Act × Service
enter_join p true s = (leave p ∷ [], update p (λ w. record w { joining = true }) s)
enter_join p false s = ([], record s { undefined = true })

abbrev pub joined : Worker → Worker
joined w = record w { joinable = false; joining = false }

-- One step: what the thread does next, and the service; or nothing while it has to wait.
unfoldable pub act : Act → Service → Option (List Act × Service)
act clear_running s = some ([], record s { running = false })
act await_clear s = if s.running then none else some ([], s)
act (stop p) s = some (stop_acts p (s.workers p), s)
act (store_false p) s = some ([], update p (λ w. record w { running = false }) s)
act (test_joinable p) s = some (if joinable_if (s.workers p) then join p ∷ [] else after_join p, s)
act (join p) s = some (enter_join p (joinable_if (s.workers p) && not (joining_if (s.workers p))) s)
act (leave p) s = if alive_if (s.workers p) then none else some (after_join p, update p joined s)

-- `Service::Stop`.
abbrev pub service_stop : List Act
service_stop =
    clear_running
    ∷ store_false pipe_thread
    ∷ stop snapshot_pusher
    ∷ stop gpu_collector
    ∷ stop ollama_collector
    ∷ stop http_server
    ∷ []

-- `Run` from the waiting on.
abbrev pub end_of_run : List Act
end_of_run =
    await_clear
    ∷ store_false pipe_thread
    ∷ test_joinable pipe_thread
    ∷ stop snapshot_pusher
    ∷ stop gpu_collector
    ∷ stop ollama_collector
    ∷ stop http_server
    ∷ []

-- The main thread, the threads that call the handler, and what they share.
pub record System : Type 0 where
  pub main : List Act
  pub handlers : List (List Act)
  pub service : Service

-- A turn of the main thread or of a handler's; a Ctrl-C; the end of a part's thread, which may come at any
-- time; and `listen` returning false.
pub data Turn : Type 0 where
  of_main ctrl_c listen_fails : Turn
  of_handler : ℕ → Turn
  ends : Part → Turn

abbrev pub proceed : Act → List Act → Service → Option (List Act × Service) → List Act × Service
proceed a acts s none = (a ∷ acts, s)
proceed a acts s (some r) = (r.0 ++ acts, r.1)

-- A step of a thread; one that waits stays where it is.
unfoldable pub advance : List Act → Service → List Act × Service
unfolding act
advance [] s = ([], s)
advance (a ∷ acts) s = proceed a acts s (act a s)

abbrev pub handle : ℕ → Option (List Act) → System → System
unfolding advance
handle k none y = y
handle k (some acts) y =
    let r = advance acts y.service in record y { handlers = set y.handlers k r.0; service = r.1 }

unfoldable pub turn : Turn → System → System
unfolding advance
turn of_main y = let r = advance y.main y.service in record y { main = r.0; service = r.1 }
turn (of_handler k) y = handle k (get_elem? y.handlers k) y
turn ctrl_c y = record y { handlers = service_stop ∷ y.handlers }
turn (ends p) y = record y { service = update p (λ w. record w { alive = false }) y.service }
turn listen_fails y = record y {
  service = update http_server (λ w. record w { running = false; alive = false }) y.service;
}

unfoldable pub turns : List Turn → System → System
unfolding turn
turns [] y = y
turns (t ∷ ts) y = turns ts (turn t y)

abbrev pub waiting : ServiceConfig → Answers → System
waiting config answers = record {
  main = end_of_run;
  handlers = [];
  service = start_all config answers;
}

-- Whether the destructor of the service, after `Run` and with no other thread left in it, terminates the
-- program: the destructors of the parts stop them, and a `std::thread` that is still joinable is destroyed.
unfoldable pub destroy_terminates : Service → Bool
destroy_terminates s =
    joinable_if (s.workers pipe_thread)
    || (joinable_if (s.workers http_server) && not (running_if (s.workers http_server)))
