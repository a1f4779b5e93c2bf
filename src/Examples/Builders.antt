-- ===== src/Examples/Builders.antt =====
-- The builder on concrete runs.
use xoslog.Prelude.{◌≡◌, refl, none, some, List, [], ◌∷◌, ℕ}
use xoslog.Level.{trace, warn}
use xoslog.Logger.Writer.{SinkSlot, new_slot}
use xoslog.Logger.Queue.{Setup}
use xoslog.Logger.Builder.{
  open_slots, add_sink, Opener, stdout, new_builder, set_single_sink, build_slots,
}
use xoslog.Logger.Built.{OpensAs, healthy, healthy_all, add_sinks, build_slots-add_sinks, setup_of}
use xoslog.Logger.Obeys.{Obeys}
use xoslog.Examples.Loggers.{good, no_float}

abbrev opener : Opener ℕ
opener = record {
  stdout = 1;
  stderr = 2;
  open_file = λ path size backups interval. none;
  of_syslog = λ sink. 3;
  of_remote = λ sink. 4;
}

abbrev built : List (SinkSlot ℕ)
built = new_slot 1 trace ∷ new_slot 7 warn ∷ []

built_slots :
    build_slots opener (add_sinks ((7, warn) ∷ []) (set_single_sink stdout new_builder))
    ≡ some built
unfolding build_slots set_single_sink open_slots add_sink
built_slots = refl

build_slots-add_sinks_example :
    (sink : ℕ) × OpensAs opener stdout sink
    × (built ≡ healthy sink trace ∷ healthy_all ((7, warn) ∷ []))
build_slots-add_sinks_example =
    build_slots-add_sinks opener new_builder stdout ((7, warn) ∷ []) built built_slots

-- The logger that the default builder makes, with one call of `log` begun
abbrev default_slots : List (SinkSlot ℕ)
default_slots = new_slot 1 trace ∷ []

abbrev default_setup : Setup ℕ
default_setup = setup_of opener good no_float (λ name. none) new_builder
