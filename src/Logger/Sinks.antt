-- ===== src/Logger/Sinks.antt =====
-- logger.py: the sinks of `setup_logging`. A sink of loguru takes the records of its level and above.
use whatsapp_api.Base.{
  ℕ, ◌≡◌, refl, Bool, true, false, not, ◌&&◌, ◌||◌, String, Option, none, some, List, [], ◌∷◌, leb,
  arith, if◌then◌else◌, exists,
}
use whatsapp_api.Base.Text.{is_empty}

pub data Level : Type 0 where
  debug info warning error critical : Level

-- The numbers of loguru's levels.
abbrev severity : Level → ℕ
severity debug = 10
severity info = 20
severity warning = 30
severity error = 40
severity critical = 50

abbrev truthy : Option String → Bool
truthy none = false
truthy (some s) = not (is_empty s)

-- `_is_serverless`, where the arguments are the two variables of the environment.
unfoldable is_serverless : Option String → Option String → Bool
is_serverless vercel lambda = truthy vercel || truthy lambda

-- The settings that `setup_logging` reads.
pub record LogSettings : Type 0 where
  pub app_debug : Bool
  pub log_level : Level
  pub log_json : Bool
  pub log_file_path : String
  pub log_rotation : String
  pub log_retention : String

-- Where a sink writes: `sys.stdout` or a file, with its rotation and retention.
pub data Target : Type 0 where
  stdout : Target
  file : String → String → String → Target

pub record Sink : Type 0 where
  pub target : Target
  pub level : Level
  pub serialize : Bool
  pub diagnose : Bool
  pub enqueue : Bool

abbrev console : Bool → LogSettings → Sink
console use_enqueue settings = record {
  target = stdout;
  level = settings.log_level;
  serialize = settings.log_json;
  diagnose = if settings.log_json then false else settings.app_debug;
  enqueue = use_enqueue;
}

abbrev log_file : LogSettings → Sink
log_file settings = record {
  target = file settings.log_file_path settings.log_rotation settings.log_retention;
  level = info;
  serialize = settings.log_json;
  diagnose = false;
  enqueue = true;
}

-- The sinks that `setup_logging` leaves: those that were there are removed.
unfoldable setup_logging : Bool → LogSettings → List Sink
setup_logging serverless settings =
    let use_enqueue = not serverless in
    console use_enqueue settings ∷ (if not serverless then log_file settings ∷ [] else [])

abbrev takes : Sink → Level → Bool
takes sink l = leb (severity sink.level) (severity l)

abbrev on_stdout : Target → Bool
on_stdout stdout = true
on_stdout (file _ _ _) = false

-- Is a record of the level written to the console, or to the file?
abbrev printed : List Sink → Level → Bool
printed sinks l = exists (λ (s : Sink). on_stdout s.target && takes s l) sinks

abbrev filed : List Sink → Level → Bool
filed sinks l = exists (λ (s : Sink). not (on_stdout s.target) && takes s l) sinks

abbrev queued : List Sink → Bool
queued sinks = exists (λ (s : Sink). s.enqueue) sinks

-- A record is printed from the level of the settings on. Outside of a serverless runtime
-- it is written to the file from INFO on. A sink has a queue outside of such a runtime only.
setup_logging_lem :
    (serverless : Bool) (settings : LogSettings) (l : Level)
    → (printed (setup_logging serverless settings) l
        ≡ leb (severity settings.log_level) (severity l))
      × (filed (setup_logging serverless settings) l ≡ (not serverless && leb 20 (severity l)))
      × (queued (setup_logging serverless settings) ≡ not serverless)
unfolding setup_logging
setup_logging_lem true settings l = (ground arith, refl, refl)
setup_logging_lem false settings l = (ground arith, ground arith, refl)
