-- ===== src/Logger/Built.antt =====
-- src/logger.rs, `LoggerBuilder::build`: the slots of a logger, and the logger that it returns.
use xoslog.Prelude.{
  ℕ, ◌≡◌, ◌∙◌, refl, sym, ap, Bool, true, false, Option, none, some, List, [], ◌∷◌, ◌++◌,
  Option-cases, inl, inr, append-nil, append_assoc, arith,
}
use xoslog.Prelude.Text.{Text}
use xoslog.Level.{Level, trace}
use xoslog.Sink.Interval.{RotationInterval}
use xoslog.Logger.Writer.{SinkSlot, SinkOps}
use xoslog.Logger.Queue.{begun, Setup, System}
use xoslog.Logger.Sound.{IsSound}
use xoslog.Logger.Admission.{IsFiltered}
use xoslog.Logger.Builder.{
  SinkSource, custom, stdout, stderr, file, syslog, remote_syslog, LoggerBuilder, Opener, add_sink,
  set_single_sink, push_slot, open_source, open_slots, or_stdout, build_slots, build_config,
}

module _ {ℓ} {S : Type ℓ} where
  -- The slot of a sink that nothing has been written to
  abbrev pub healthy : S → Level → SinkSlot S
  healthy sink l = record { sink = sink; min_level = l; consecutive_errors = 0; degraded = false }

  abbrev pub healthy_all : List (S × Level) → List (SinkSlot S)
  healthy_all [] = []
  healthy_all ((sink, l) ∷ added) = healthy sink l ∷ healthy_all added

  -- The sink that a configured source stands for
  pub data OpensAs (opener : Opener S) : SinkSource S → S → Type ℓ where
    as_stdout : OpensAs opener stdout opener.stdout
    as_stderr : OpensAs opener stderr opener.stderr
    as_file :
        (path : Text) (max_size max_backups : ℕ) (interval : RotationInterval) (sink : S)
        → opener.open_file path max_size max_backups interval ≡ some sink
        → OpensAs opener (file path max_size max_backups interval) sink
    as_syslog : (sink : S) → OpensAs opener (syslog sink) sink
    as_remote_syslog : (sink : S) → OpensAs opener (remote_syslog sink) sink
    as_custom : (sink : S) → OpensAs opener (custom sink) sink

  or_empty : Option (List (SinkSlot S)) → List (SinkSlot S)
  or_empty none = []
  or_empty (some a) = a

  not_opened : {a : List (SinkSlot S)} → none ≡ some a → ⊥
  not_opened h = cc

  abbrev pub add_sinks : List (S × Level) → LoggerBuilder S → LoggerBuilder S
  add_sinks [] b = b
  add_sinks ((sink, l) ∷ added) b = add_sinks added (add_sink sink l b)

  customs : List (S × Level) → List (SinkSource S × Level)
  customs [] = []
  customs ((sink, l) ∷ added) = (custom sink, l) ∷ customs added

  add_sinks-customs :
      (added : List (S × Level)) (b : LoggerBuilder S)
      → (add_sinks added b).sinks ≡ b.sinks ++ customs added
  unfolding customs add_sink
  add_sinks-customs [] b = sym (append-nil b.sinks)
  add_sinks-customs ((sink, l) ∷ added) b =
      add_sinks-customs added (add_sink sink l b)
      ∙ append_assoc b.sinks ((custom sink, l) ∷ []) (customs added)

  open_slots-customs :
      (opener : Opener S) (added : List (S × Level))
      → open_slots opener (customs added) ≡ some (healthy_all added)
  unfolding customs open_slots
  open_slots-customs opener [] = refl
  open_slots-customs opener ((sink, l) ∷ added) =
      ap (push_slot l (some sink)) (open_slots-customs opener added)

  some_injective : {a b : List (SinkSlot S)} → some a ≡ some b → a ≡ b
  unfolding or_empty
  some_injective h = ap or_empty h

  -- How the first sink is opened, in front of others
  first_slot :
      (opener : Opener S) (source : SinkSource S) (l : Level) (rest slots : List (SinkSlot S))
      → push_slot l (open_source opener source) (some rest) ≡ some slots
      → (sink : S) × OpensAs opener source sink × (slots ≡ healthy sink l ∷ rest)
  first_slot opener stdout l rest slots h = (opener.stdout, as_stdout, sym (some_injective h))
  first_slot opener stderr l rest slots h = (opener.stderr, as_stderr, sym (some_injective h))
  first_slot opener (file path size backups interval) l rest slots h =
      elim (Option-cases (opener.open_file path size backups interval)) [
        | inl e ↦ absurd (not_opened (sym (ap (λ o. push_slot l o (some rest)) e) ∙ h))
        | inr (sink, e) ↦ (
          sink,
          as_file path size backups interval sink e,
          sym (some_injective (sym (ap (λ o. push_slot l o (some rest)) e) ∙ h)),
        )
      ]
  first_slot opener (syslog sink) l rest slots h = (sink, as_syslog sink, sym (some_injective h))
  first_slot opener (remote_syslog sink) l rest slots h =
      (sink, as_remote_syslog sink, sym (some_injective h))
  first_slot opener (custom sink) l rest slots h = (sink, as_custom sink, sym (some_injective h))

  -- A logger that was built after one `to_*` and then `add_sink` for each of a list has exactly the
  -- slot of the sink that the first stands for, with the most verbose floor, and then those of the
  -- sinks of the list, in their order, with the floors they were given; none has failures or is
  -- degraded, and whatever sinks were configured before are gone.
  pub build_slots-add_sinks :
      (opener : Opener S) (b : LoggerBuilder S) (source : SinkSource S) (added : List (S × Level))
      (slots : List (SinkSlot S))
      → build_slots opener (add_sinks added (set_single_sink source b)) ≡ some slots
      → (sink : S) × OpensAs opener source sink × (slots ≡ healthy sink trace ∷ healthy_all added)
  unfolding build_slots set_single_sink open_slots
  build_slots-add_sinks opener b source added slots h =
      first_slot opener source trace (healthy_all added) slots (
        sym (
          ap (λ s. open_slots opener (or_stdout s))
            (add_sinks-customs added (set_single_sink source b))
          ∙ ap (push_slot trace (open_source opener source)) (open_slots-customs opener added))
        ∙ h)

-- The new state of a logger: its writer with these slots, behind an empty queue
abbrev pub started {ℓ} : {S : Type ℓ} → List (SinkSlot S) → System S
started slots = begun (record { running = true; slots = slots; stderr = []; acks = [] })

module _ {ℓ} {S : Type ℓ} (opener : Opener S) (ops : SinkOps S) (fmt_f64 : ℕ → Text) where
  abbrev pub setup_of : (Text → Option Text) → LoggerBuilder S → Setup S
  setup_of variables b = record {
    ops = ops;
    fmt_f64 = fmt_f64;
    include_location = b.include_location;
    config = build_config variables b;
  }

  abbrev pub spawned : Bool → Setup S → Option (List (SinkSlot S)) → Option (Setup S × System S)
  spawned true g (some slots) = some (g, started slots)
  spawned false g (some slots) = none
  spawned true g none = none
  spawned false g none = none

  -- `build`, where the writer thread may not be spawned
  unfoldable pub build : Bool → (Text → Option Text) → LoggerBuilder S → Option (Setup S × System S)
  build spawns variables b = spawned spawns (setup_of variables b) (build_slots opener b)

  some_pair : Option (Setup S × System S) → Setup S × System S → Setup S × System S
  some_pair none d = d
  some_pair (some x) d = x

  pub spawned_lem :
      (spawns : Bool) (g h : Setup S) (slots : Option (List (SinkSlot S))) (p : System S)
      → spawned spawns g slots ≡ some (h, p)
      → (h ≡ g) × (l : List (SinkSlot S)) × (slots ≡ some l) × (p ≡ started l)
  unfolding some_pair
  spawned_lem true g h (some slots) p e =
      let same = ap (λ o. some_pair o (g, started slots)) (sym e) in
      (
        ap (λ (x : Setup S × System S). x.0) same,
        slots,
        refl,
        ap (λ (x : Setup S × System S). x.1) same,
      )
  spawned_lem false g h (some slots) p e = cc
  spawned_lem true g h none p e = cc
  spawned_lem false g h none p e = cc

  pub started-IsSound : (g : Setup S) (slots : List (SinkSlot S)) → IsSound g (started slots)
  started-IsSound g slots = record {
    bounded = omega arith;
    counted = omega arith;
    lossless = inr refl;
    linked = refl;
  }

  pub started-IsFiltered : (g : Setup S) (slots : List (SinkSlot S)) → IsFiltered g (started slots)
  started-IsFiltered g slots = record { waiting = tt; messages = tt }
