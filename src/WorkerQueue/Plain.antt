-- ===== src/WorkerQueue/Plain.antt =====
-- A format for tasks that has the laws of `Codec`: a task is written as its id.
use taxlien_gateway.Prelude.{◌≡◌, true, Option, none, some, String, if◌then◌else◌, truthy, arith}
use taxlien_gateway.Models.Worker.{WorkTask}
use taxlien_gateway.WorkerQueue.{Codec}

abbrev pub task : String → WorkTask
task id = record {
  task_id = id;
  type_name = "parcel";
  platform = "qpublic";
  target = "12-34";
  priority = 2;
  proxy = none;
  created_at = 0;
}

abbrev pub read_task : String → Option WorkTask
read_task raw = if truthy (some raw) then some (task raw) else none

abbrev pub read_id : String → Option String
read_id raw = if truthy (some raw) then some raw else none

pub read_id-read_task :
    (raw : String) (t : WorkTask) → read_task raw ≡ some t → read_id raw ≡ some t.task_id
read_id-read_task raw t e = ground arith

pub truthy-read_task :
    (raw : String) (t : WorkTask) → read_task raw ≡ some t → truthy (some raw) ≡ true
truthy-read_task raw t e = ground arith

abbrev pub plain : Codec
plain = record {
  dumps = λ t. t.task_id;
  loads = read_task;
  task_id_of = read_id;
  task_id_of-loads = read_id-read_task;
  truthy-loads = truthy-read_task;
}
