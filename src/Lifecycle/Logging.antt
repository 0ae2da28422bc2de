-- ===== src/Lifecycle/Logging.antt =====
-- legacy/app/core/logging.py: what `setup_logging` hands to the logging libraries.
use taxlien_gateway.Prelude.{
  ℕ, Bool, true, Option, none, some, List, [], ◌∷◌, String, if◌then◌else◌,
}
use taxlien_gateway.Lifecycle.Settings.{Settings}

-- The processors of structlog, which each entry of the log passes in order.
pub data Processor : Type 0 where
  merge_contextvars add_log_level stack_info_renderer format_exc_info : Processor
  time_stamper : String → Processor
  json_renderer console_renderer : Processor

-- The arguments of `logging.basicConfig`, less the stream, and of `structlog.configure`.
pub record LogConfig : Type 0 where
  pub format : String
  pub level : ℕ
  pub processors : List Processor
  pub cache_logger_on_first_use : Bool

abbrev pub renderer : Settings → Processor
renderer settings = if settings.debug then console_renderer else json_renderer

abbrev pub processors_of : Settings → List Processor
processors_of settings =
    merge_contextvars
    ∷ add_log_level
    ∷ stack_info_renderer
    ∷ format_exc_info
    ∷ time_stamper "iso"
    ∷ renderer settings
    ∷ []

-- `upper` is `str.upper`, and `level` the level that an attribute of the module `logging` is, if there
-- is such an attribute and it is a level; `none` is an exception.
unfoldable pub setup_logging : (String → String) → (String → Option ℕ) → Settings → Option LogConfig
setup_logging upper level settings = elim (level (upper settings.log_level)) [
  | none ↦ none
  | some n ↦ some (record {
    format = "%(message)s";
    level = n;
    processors = processors_of settings;
    cache_logger_on_first_use = true;
  })
]
