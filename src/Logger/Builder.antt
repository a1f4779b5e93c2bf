-- ===== src/Logger/Builder.antt =====
-- src/logger.rs: `LoggerBuilder`, and the loggers that it builds. `S` holds the states of the sinks.
use xoslog.Prelude.{ℕ, Bool, true, false, Option, none, some, List, [], ◌∷◌, ◌++◌}
use xoslog.Prelude.Text.{Text}
use xoslog.Prelude.Int.{ℤ, pos}
use xoslog.Level.{Level, info, trace}
use xoslog.Filter.{TargetFilter, from_env}
use xoslog.Sink.Interval.{RotationInterval, never}
use xoslog.Syslog.{Facility, default_ident}
use xoslog.Syslog.Deliver.{SyslogSink, Host, local_sink}
use xoslog.Syslog.Remote.{RemoteSyslogSink, Udp, Opened, opened, refused, new_remote}
use xoslog.Logger.Writer.{SinkSlot, new_slot}
use xoslog.Logger.Channel.{Backpressure, block, Config}

pub data SinkSource {ℓ} (S : Type ℓ) : Type ℓ where
  stdout stderr : SinkSource S
  file : Text → ℕ → ℕ → RotationInterval → SinkSource S
  syslog remote_syslog custom : S → SinkSource S

pub record LoggerBuilder {ℓ} (S : Type ℓ) : Type ℓ where
  pub level : Level
  pub capacity : ℕ
  pub backpressure : Backpressure
  pub include_location : Bool
  pub time_offset_seconds : ℤ
  pub json : Bool
  pub filter : Option TargetFilter
  pub read_env : Bool
  pub sinks : List (SinkSource S × Level)

abbrev pub default_channel_capacity : ℕ
default_channel_capacity = 8192

-- How the crate's own sinks become states of sinks; only the opening of a file can fail.
pub record Opener {ℓ} (S : Type ℓ) : Type ℓ where
  pub stdout : S
  pub stderr : S
  pub open_file : Text → ℕ → ℕ → RotationInterval → Option S
  pub of_syslog : SyslogSink → S
  pub of_remote : RemoteSyslogSink → S

-- What `to_remote_syslog` asks of the network: `none` if the host cannot be resolved, and how the
-- socket is made.
pub record Network : Type 0 where
  pub resolve : Text → ℕ → Option (List ℕ)
  pub udp : Udp

-- An explicit filter, or else the environment's if it is to be read
abbrev pub filter_or_env : Option TargetFilter → Bool → Option TargetFilter → TargetFilter
filter_or_env (some f) read_env env = f
filter_or_env none true (some f) = f
filter_or_env none true none = record { directives = [] }
filter_or_env none false env = record { directives = [] }

module _ {ℓ} {S : Type ℓ} where
  abbrev pub new_builder : LoggerBuilder S
  new_builder = record {
    level = info;
    capacity = default_channel_capacity;
    backpressure = block;
    include_location = true;
    time_offset_seconds = pos 0;
    json = false;
    filter = none;
    read_env = true;
    sinks = [];
  }

  unfoldable pub set_level : Level → LoggerBuilder S → LoggerBuilder S
  set_level l b = record b { level = l }

  unfoldable pub channel_capacity : ℕ → LoggerBuilder S → LoggerBuilder S
  channel_capacity n b = record b { capacity = n }

  unfoldable pub set_backpressure : Backpressure → LoggerBuilder S → LoggerBuilder S
  set_backpressure p b = record b { backpressure = p }

  unfoldable pub set_include_location : Bool → LoggerBuilder S → LoggerBuilder S
  set_include_location include b = record b { include_location = include }

  unfoldable pub set_json : LoggerBuilder S → LoggerBuilder S
  set_json b = record b { json = true }

  unfoldable pub set_filter : TargetFilter → LoggerBuilder S → LoggerBuilder S
  set_filter f b = record b { filter = some f }

  unfoldable pub env_filter : LoggerBuilder S → LoggerBuilder S
  env_filter b = record b { read_env = true }

  unfoldable pub ignore_env_filter : LoggerBuilder S → LoggerBuilder S
  ignore_env_filter b = record b { read_env = false }

  unfoldable pub set_time_offset_seconds : ℤ → LoggerBuilder S → LoggerBuilder S
  set_time_offset_seconds seconds b = record b { time_offset_seconds = seconds }

  unfoldable pub set_single_sink : SinkSource S → LoggerBuilder S → LoggerBuilder S
  set_single_sink source b = record b { sinks = (source, trace) ∷ [] }

  -- `add_sink`
  unfoldable pub add_sink : S → Level → LoggerBuilder S → LoggerBuilder S
  add_sink sink min_level b = record b { sinks = b.sinks ++ ((custom sink, min_level) ∷ []) }

  unfoldable pub to_stdout : LoggerBuilder S → LoggerBuilder S
  unfolding set_single_sink
  to_stdout b = set_single_sink stdout b

  unfoldable pub to_stderr : LoggerBuilder S → LoggerBuilder S
  unfolding set_single_sink
  to_stderr b = set_single_sink stderr b

  -- `sink`
  unfoldable pub to_sink : S → LoggerBuilder S → LoggerBuilder S
  unfolding set_single_sink
  to_sink sink b = set_single_sink (custom sink) b

  unfoldable pub to_syslog : Opener S → Host → Facility → LoggerBuilder S → LoggerBuilder S
  unfolding set_single_sink
  to_syslog opener host f b =
      set_single_sink (syslog (opener.of_syslog (local_sink host f (default_ident host.program)))) b

  abbrev pub remote_opened :
      Opener S → LoggerBuilder S → Opened RemoteSyslogSink → Option (LoggerBuilder S)
  remote_opened opener b (opened sink) =
      some (set_single_sink (remote_syslog (opener.of_remote sink)) b)
  remote_opened opener b (refused e) = none

  abbrev pub at_first :
      Opener S
      → Network
      → Host
      → Facility
      → LoggerBuilder S
      → Option (List ℕ)
      → Option (LoggerBuilder S)
  at_first opener network host f b none = none
  at_first opener network host f b (some []) = none
  at_first opener network host f b (some (addr ∷ more)) =
      remote_opened opener b (new_remote network.udp host addr f (default_ident host.program))

  -- `to_remote_syslog` takes the first address that the host is resolved to.
  unfoldable pub to_remote_syslog :
      Opener S → Network → Host → Text → ℕ → Facility → LoggerBuilder S → Option (LoggerBuilder S)
  to_remote_syslog opener network host name port f b =
      at_first opener network host f b (network.resolve name port)

  -- `to_file_with_interval` opens the file once to see that it can be opened.
  unfoldable pub to_file_with_interval :
      Opener S → Text → ℕ → ℕ → RotationInterval → LoggerBuilder S → Option (LoggerBuilder S)
  to_file_with_interval opener path max_size max_backups interval b =
      elim (opener.open_file path max_size max_backups interval) [
        | none ↦ none
        | some sink ↦ some (set_single_sink (file path max_size max_backups interval) b)
      ]

  unfoldable pub to_file : Opener S → Text → ℕ → ℕ → LoggerBuilder S → Option (LoggerBuilder S)
  to_file opener path max_size max_backups b =
      to_file_with_interval opener path max_size max_backups never b

  abbrev pub open_source : Opener S → SinkSource S → Option S
  open_source opener stdout = some opener.stdout
  open_source opener stderr = some opener.stderr
  open_source opener (file path max_size max_backups interval) =
      opener.open_file path max_size max_backups interval
  open_source opener (syslog sink) = some sink
  open_source opener (remote_syslog sink) = some sink
  open_source opener (custom sink) = some sink

  abbrev pub push_slot : Level → Option S → Option (List (SinkSlot S)) → Option (List (SinkSlot S))
  push_slot min_level (some sink) (some slots) = some (new_slot sink min_level ∷ slots)
  push_slot min_level (some sink) none = none
  push_slot min_level none slots = none

  -- The loop of `build` over the sinks; it ends at the first that cannot be opened.
  unfoldable pub open_slots : Opener S → List (SinkSource S × Level) → Option (List (SinkSlot S))
  open_slots opener [] = some []
  open_slots opener ((source, min_level) ∷ sinks) =
      push_slot min_level (open_source opener source) (open_slots opener sinks)

  abbrev pub or_stdout : List (SinkSource S × Level) → List (SinkSource S × Level)
  or_stdout [] = (stdout, trace) ∷ []
  or_stdout (s ∷ sinks) = s ∷ sinks

  unfoldable pub build_slots : Opener S → LoggerBuilder S → Option (List (SinkSlot S))
  build_slots opener b = open_slots opener (or_stdout b.sinks)

  -- The fixed part of the logger that `build` returns, in an environment of variables
  unfoldable pub build_config : (Text → Option Text) → LoggerBuilder S → Config
  build_config variables b = record {
    level = b.level;
    filter = filter_or_env b.filter b.read_env (from_env variables);
    time_offset_seconds = b.time_offset_seconds;
    backpressure = b.backpressure;
    json = b.json;
    capacity = b.capacity;
  }
