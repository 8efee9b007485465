-- ===== src/Tasks/Tests.antt =====
-- One task from its start to its end, and the theorems at it.
use kubevirt_webgui.Base.{
  ℕ, ◌+◌, ◌≤◌, ◌≡◌, refl, ◌⊎◌, Bool, true, false, [], ◌∷◌, none, some, Str, codes, length, All,
  ◌==◌, str_eq,
}
use kubevirt_webgui.Tasks.{TaskTarget, TaskStatus, Progress, Entry, Store, empty}
use kubevirt_webgui.Tasks.Id.{task_id, task_id_injective}
use kubevirt_webgui.Tasks.Handle.{progress, is_complete, is_stored, finish, log}
use kubevirt_webgui.Tasks.Manager.{spawn, list, find, detail, stop, new_info, new_entry}
use kubevirt_webgui.Tasks.Runs.{Reach, here, next, spawns, finishes}
use kubevirt_webgui.Tasks.Laws.{IsValid, empty-IsValid, Reach-IsValid, Reach-KeptIn}
use kubevirt_webgui.Tasks.Updates.{Keeps}
use kubevirt_webgui.Tasks.Isolation.{list-own, detail-own}
use kubevirt_webgui.Tasks.Ends.{stop_lem, stopped_entry, progress_lem, IsDue}

abbrev db : TaskTarget
db = record { kind = codes "VirtualMachine"; namespace = some (codes "vms"); name = codes "db" }

-- `f64` values compared as their patterns: right for the numbers that occur.
abbrev same_bits : ℕ → ℕ → Bool
same_bits a b = a == b

id_test : task_id (codes "ann") 26 0 (codes "vm.start") db ≡ codes "UPID:ann:1A:0:vm.start:vms/db"
unfolding task_id
id_test = refl

abbrev one : Store
unfolding spawn
one = (spawn (codes "ann") (codes "vm.start") db (codes "Start db") 26 empty).2

abbrev first_entry : Entry
first_entry = new_entry (new_info (codes "ann") (codes "vm.start") db (codes "Start db") 26 empty)

one_first : one.heap 0 ≡ some first_entry
unfolding spawn empty
one_first = refl

same_task : (◌≡◌ {A = ℕ} 26 26) × (◌≡◌ {A = ℕ} 3 3)
same_task =
    task_id_injective (codes "ann") 26 26 3 3 (codes "vm.start") (codes "vm.start") db db refl

started : Reach same_bits empty one
unfolding spawn
started = next here (spawns (codes "ann") (codes "vm.start") db (codes "Start db") 26)

Reach-IsValid_example : IsValid one
Reach-IsValid_example = Reach-IsValid same_bits {s = empty} {t = one} empty-IsValid started

finished_one : Reach same_bits one (finish 0 TaskStatus.ok none 40 one)
finished_one = next here (finishes 0 TaskStatus.ok none 40 refl)

Reach-KeptIn_example :
    (e' : Entry) × ((finish 0 TaskStatus.ok none 40 one).heap 0 ≡ some e') × Keeps first_entry e'
Reach-KeptIn_example =
    Reach-KeptIn same_bits {s = one} {t = finish 0 TaskStatus.ok none 40 one}
      (Reach-IsValid same_bits {s = empty} {t = one} empty-IsValid started) finished_one 0
      first_entry one_first

listed : length (list (codes "ann") 5 one) ≡ 1
unfolding list spawn empty str_eq
listed = refl

hidden : list (codes "bob") 5 one ≡ []
unfolding list spawn empty str_eq
hidden = refl

own_tasks :
    All (λ i. i.user ≡ codes "ann") (list (codes "ann") 5 one)
    × (length (list (codes "ann") 5 one) ≤ 5)
own_tasks = list-own (codes "ann") 5 one

abbrev one_id : Str
one_id = first_entry.info.id

abbrev logged : Store
unfolding log
logged = log 0 (codes "ready") 30 one

detailed :
    detail (codes "ann") one_id logged
    ≡ some (first_entry.info, record { ts = 30; text = codes "ready" } ∷ [])
unfolding detail find spawn empty log str_eq task_id
detailed = refl

own_detail : (first_entry.info.user ≡ codes "ann") × (first_entry.info.id ≡ one_id)
own_detail =
    detail-own (codes "ann") one_id logged first_entry.info
      (record { ts = 30; text = codes "ready" } ∷ []) detailed

stopped_once :
    ((find (codes "ann") one_id one ≡ none) × (stop (codes "ann") one_id 50 one ≡ (false, one)))
    ⊎ ((r : ℕ) × (e : Entry) × (one.heap r ≡ some e)
        × (e.info.user ≡ codes "ann")
        × (e.info.id ≡ one_id)
        × ((stop (codes "ann") one_id 50 one).0 ≡ true)
        × ((stop (codes "ann") one_id 50 one).1.heap r ≡ some (stopped_entry 50 e)))
stopped_once = stop_lem (codes "ann") one_id 50 one

abbrev half : Progress
half = record { done = 5; total = some 10; unit = codes "bytes"; rate = none; detail = none }

new_progress :
    (e' : Entry) × ((progress same_bits 0 half 60 one).heap 0 ≡ some e')
    × (e'.info ≡ record first_entry.info { progress = some half })
    × ((((is_complete same_bits half ≡ true) ⊎ IsDue none 60)
          × (length (progress same_bits 0 half 60 one).events ≡ length one.events + 1)
          × (e'.progress_sent ≡ some 60))
        ⊎ ((is_complete same_bits half ≡ false)
            × (¬ IsDue none 60)
            × ((progress same_bits 0 half 60 one).events ≡ one.events)))
unfolding is_stored
new_progress = progress_lem same_bits 0 half 60 one first_entry one_first refl refl
