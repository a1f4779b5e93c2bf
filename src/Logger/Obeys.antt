-- ===== src/Logger/Obeys.antt =====
-- src/logger.rs: a logger that was built, and what its builder was told.
use xoslog.Prelude.{◌⊎◌, ◌≢◌, ◌+◌, ◌≤◌, ◌≡◌, true, false, Option, none, some, [], All, length}
use xoslog.Prelude.Text.{Text}
use xoslog.Level.{Level}
use xoslog.Filter.{TargetFilter, from_env, enabled}
use xoslog.Logger.Writer.{Message, log, flush, shutdown}
use xoslog.Logger.Channel.{block, drop_newest, waits, send_log}
use xoslog.Entry.{LogEntry}
use xoslog.Logger.Queue.{Setup, System, accepted, count_logs}
use xoslog.Logger.Builder.{LoggerBuilder}

-- A message is no record, or one that a filter with a default level lets pass.
abbrev pub Allowed : TargetFilter → Level → Message → Type 0
Allowed f l (log e) = enabled f e.target e.level l ≡ true
Allowed f l (flush ack) = Unit
Allowed f l (shutdown ack) = Unit

module _ {ℓ} {S : Type ℓ} where
  -- The filter of a builder: its own, or the environment's if it is to be read, or the empty one
  pub data Chooses (variables : Text → Option Text) (b : LoggerBuilder S)
      : TargetFilter → Type 0 where
    given : (f : TargetFilter) → b.filter ≡ some f → Chooses variables b f
    environment :
        (f : TargetFilter)
        → b.filter ≡ none
        → b.read_env ≡ true
        → from_env variables ≡ some f
        → Chooses variables b f
    unset :
        b.filter ≡ none
        → from_env variables ≡ none
        → Chooses variables b (record { directives = [] })
    unread : b.filter ≡ none → b.read_env ≡ false → Chooses variables b (record { directives = [] })

  -- A logger does what its builder was told: its capacity, its policy, its filter and its level.
  pub record Obeys (b : LoggerBuilder S) (f : TargetFilter) (g : Setup S) (q : System S)
      : Type 0 where
    pub bounded : length q.shared.queue ≤ b.capacity
    pub lossless : (b.backpressure ≡ drop_newest) ⊎ (q.shared.dropped ≡ 0)
    pub prompt :
        (b.backpressure ≡ block) ⊎ ((e : LogEntry) → send_log g.fmt_f64 g.config e q.shared ≢ waits)
    pub counted : count_logs (accepted q) + q.shared.dropped ≡ q.offered
    pub allowed : All (Allowed f b.level) (accepted q)
