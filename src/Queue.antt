-- ===== src/Queue.antt =====
-- src/queue/index.ts: adding a job to a queue. Each queue keeps the options of `defaultJobOptions`.
use db_backup_tool.Base.{ℕ, String, Option, none, some, or_else}
use db_backup_tool.Effects.{queue_add}
use db_backup_tool.Effects.Inputs.{QueueName, queue_text, QueueData, AddOptions}
use db_backup_tool.Effects.Io.{Io, call}

-- The options of `enqueue`.
pub record EnqueueOptions : Type 0 where
  pub job_key : Option String
  pub delay : Option ℕ
  pub repeat_pattern : Option String
  pub job_id : Option String

-- `{ jobId }`
abbrev pub job_id_option : String → EnqueueOptions
job_id_option id = record { job_key = none; delay = none; repeat_pattern = none; job_id = some id }

abbrev add_options : Option EnqueueOptions → AddOptions
add_options none = record { job_id = none; delay = none; repeat_pattern = none }
add_options (some opts) = record {
  job_id = or_else opts.job_id opts.job_key;
  delay = opts.delay;
  repeat_pattern = opts.repeat_pattern;
}

-- `enqueue`
unfoldable pub enqueue : QueueName → QueueData → Option EnqueueOptions → Io String
enqueue name payload opts = call (queue_add name (queue_text name) payload (add_options opts))
