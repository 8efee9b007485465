-- ===== src/Tasks.antt =====
-- Tasks (src/tasks.rs): the data of a task, and the store that handles and the manager share.
-- An entry lives behind an `Arc`, so it is a cell of a heap, and the manager's deque and each handle
-- hold its number. Times are milliseconds given to each call.
pub mod Id
pub mod Handle
pub mod Manager
pub mod Runs
pub mod Updates
pub mod Acts
pub mod Laws
pub mod Isolation
pub mod Ends
mod Tests
use kubevirt_webgui.Base.{
  ℕ, ◌≡◌, ◌+◌, ◌%◌, ◌^◌, Bool, true, false, ◌&&◌, List, [], ◌∷◌, Option, none, some, Str, str_eq,
  ◌==◌, if◌then◌else◌,
}

abbrev pub max_tasks : ℕ
max_tasks = 1000

abbrev pub max_lines : ℕ
max_lines = 2000

abbrev pub progress_every : ℕ
progress_every = 500

pub data TaskStatus : Type 0 where
  running ok warning error stopped : TaskStatus

pub record TaskTarget : Type 0 where
  pub kind : Str
  pub namespace : Option Str
  pub name : Str

-- `rate` is the bit pattern of an `f64`.
pub record Progress : Type 0 where
  pub done : ℕ
  pub total : Option ℕ
  pub unit : Str
  pub rate : Option ℕ
  pub detail : Option Str

pub record TaskInfo : Type 0 where
  pub id : Str
  pub kind : Str
  pub description : Str
  pub target : TaskTarget
  pub user : Str
  pub started_at : ℕ
  pub ended_at : Option ℕ
  pub status : TaskStatus
  pub message : Option Str
  pub progress : Option Progress

pub record LogLine : Type 0 where
  pub ts : ℕ
  pub text : Str

pub record TaskEvent : Type 0 where
  pub user : Str
  pub task : TaskInfo
  pub line : Option LogLine

-- `abort` is the number of the spawned future while it may be aborted.
pub record Entry : Type 0 where
  pub info : TaskInfo
  pub log : List LogLine
  pub abort : Option ℕ
  pub progress_sent : Option ℕ

-- `heap` holds every entry made, `next` the next free cell; `tasks` is the deque, oldest first;
-- `events` is what was broadcast, newest first; `aborted` the futures that were told to stop.
pub record Store : Type 0 where
  pub heap : ℕ → Option Entry
  pub next : ℕ
  pub tasks : List ℕ
  pub events : List TaskEvent
  pub aborted : List ℕ
  pub seq : ℕ

abbrev pub is_running : TaskStatus → Bool
is_running running = true
is_running _ = false

abbrev pub write : (ℕ → Option Entry) → ℕ → Entry → ℕ → Option Entry
write heap r e k = if k == r then some e else heap k

pub empty : Store
empty = record { heap = λ _. none; next = 0; tasks = []; events = []; aborted = []; seq = 0 }
