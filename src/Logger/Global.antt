-- ===== src/Logger/Global.antt =====
-- src/logger.rs: the global logger and the macros.
use xoslog.Prelude.{
  ℕ, ◌≡◌, ◌∙◌, refl, sym, ap, Bool, true, false, not, Option, none, some, List, [], ◌∷◌,
  if◌then◌else◌, if_true, if_false, Bool-cases, inl, inr,
}
use xoslog.Prelude.Text.{Text}
use xoslog.Level.{Level, trace, debug, info, warn, error}
use xoslog.Time.{SystemTime}
use xoslog.Entry.{LogEntry, Field, FieldValue, field, new_entry}
use xoslog.Logger.Channel.{
  Config, Shared, Call, returns, is_enabled_for, admit, send_admitted, log_call,
}

module _ {ℓ} {L : Type ℓ} where
  -- `set_global`, on the content of the `OnceLock`: the logger that is given back, and the content
  unfoldable pub set_global : L → Option L → Option L × Option L
  set_global logger none = (none, some logger)
  set_global logger (some first) = (some logger, some first)

  -- `init_default`, on what `build` returned: whether it succeeds, and the content
  unfoldable pub init_default : Option L → Option L → Bool × Option L
  init_default none global = (false, global)
  init_default (some logger) global = (true, (set_global logger global).1)

-- `fields!`, on the names of its arguments with their values
unfoldable pub fields_macro : List (Text × FieldValue) → List Field
fields_macro [] = []
fields_macro ((key, value) ∷ rest) = field key value ∷ fields_macro rest

-- Where a macro stands
pub record Place : Type 0 where
  pub module_path : Text
  pub file : Text
  pub line : ℕ

module _ (fmt_f64 : ℕ → Text) where
  -- The record that `log!` makes, of the first reading of the clock
  abbrev pub macro_entry : SystemTime → Level → List Field → Text → Place → LogEntry
  macro_entry created level fields message place =
      record (new_entry created level message place.module_path place.file place.line) {
        fields = fields;
      }

  abbrev pub log_enabled :
      Config
      → SystemTime
      → SystemTime
      → List Field
      → Level
      → List Field
      → Text
      → Place
      → Shared
      → Call
  log_enabled c created clock context level fields message place s =
      if is_enabled_for c level place.module_path
      then log_call fmt_f64 c clock context (macro_entry created level fields message place) s
      else returns s []

  -- `log!`; without a list of fields they stay empty, as `LogEntry::new` leaves them.
  unfoldable pub log_macro :
      Option Config
      → SystemTime
      → SystemTime
      → List Field
      → Level
      → List Field
      → Text
      → Place
      → Shared
      → Call
  log_macro none created clock context level fields message place s = returns s []
  log_macro (some c) created clock context level fields message place s =
      log_enabled c created clock context level fields message place s

  -- `log_trace!`, `log_debug!`, `log_info!`, `log_warn!` and `log_error!`
  abbrev pub Macro : Type 0
  Macro =
      Option Config
      → SystemTime
      → SystemTime
      → List Field
      → List Field
      → Text
      → Place
      → Shared
      → Call

  unfoldable pub log_trace : Macro
  log_trace c created clock context fields message place s =
      log_macro c created clock context trace fields message place s

  unfoldable pub log_debug : Macro
  log_debug c created clock context fields message place s =
      log_macro c created clock context debug fields message place s

  unfoldable pub log_info : Macro
  log_info c created clock context fields message place s =
      log_macro c created clock context info fields message place s

  unfoldable pub log_warn : Macro
  log_warn c created clock context fields message place s =
      log_macro c created clock context warn fields message place s

  unfoldable pub log_error : Macro
  log_error c created clock context fields message place s =
      log_macro c created clock context error fields message place s

  admit_disabled :
      (c : Config) (clock : SystemTime) (context : List Field) (e : LogEntry) (s : Shared)
      → is_enabled_for c e.level e.target ≡ false
      → admit c clock context e s ≡ none
  unfolding admit
  admit_disabled c clock context e s h = elim (Bool-cases s.closed) [
    | inl k ↦ if_true _ _ k
    | inr k ↦ if_false _ _ k ∙ if_true _ _ (ap not h)
  ]

  -- The macros' own test of the level changes nothing: with a global logger, a macro does what `log`
  -- does with its record, enabled or not, whether the logger is open, full or gone.
  pub log_macro-log_call :
      (c : Config) (created clock : SystemTime) (context : List Field) (level : Level)
      (fields : List Field) (message : Text) (place : Place) (s : Shared)
      → log_macro (some c) created clock context level fields message place s
        ≡ log_call fmt_f64 c clock context (macro_entry created level fields message place) s
  unfolding log_macro log_call send_admitted new_entry
  log_macro-log_call c created clock context level fields message place s =
      elim (Bool-cases (is_enabled_for c level place.module_path)) [
        | inl h ↦ if_true _ _ h
        | inr h ↦
            let entry = macro_entry created level fields message place in
            if_false _ _ h
            ∙ sym (ap (λ o. send_admitted fmt_f64 c o s) (admit_disabled c clock context entry s h))
      ]

abbrev pub set_all {ℓ} : {L : Type ℓ} → List L → Option L → Option L
set_all [] global = global
set_all (l ∷ ls) global = set_all ls (set_global l global).1

-- Once a logger is global it stays so, whatever loggers are set afterwards.
pub set_all_first {ℓ} : {L : Type ℓ} (l : L) (ls : List L) → set_all ls (some l) ≡ some l
unfolding set_global
set_all_first l [] = refl
set_all_first l (m ∷ ls) = set_all_first l ls
