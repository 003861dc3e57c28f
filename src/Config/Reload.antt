-- ===== src/Config/Reload.antt =====
-- crates/halephant-core/src/config/reload.rs, and `Config::parse` of config/mod.rs. Reading the file
-- and decoding TOML are library calls: what they yield is an argument.
pub mod Kept
use mathlib.Core.List.{List-discrete}
use mathlib.Core.Option.{some-injective}
use halephant.Config.Types.{LogFormat, Config}
use halephant.Config.{Invalid, validate}
use halephant.Prelude.{
  ℕ, ◌≡◌, refl, sym, ap, List, [], ◌∷◌, Option, none, some, Text, text_dec, ℕ_discrete, codes,
}

-- What came of the blocking task: it failed, the file could not be read or decoded, or it was decoded.
pub data Loaded : Type 0 where
  task_failed unreadable : Loaded
  decoded : Config → Loaded

pub data ReloadOutcome : Type 0 where
  success : ReloadOutcome
  restart_required : Text → ReloadOutcome
  parse_failed : ReloadOutcome

pub some_ne : (s t : Text) → ¬ (s ≡ t) → ¬ (some s ≡ some t)
some_ne s t n e = n (some-injective _ _ e)

unfoldable pub option_dec : (o p : Option Text) → Dec (o ≡ p)
option_dec none none = yes refl
option_dec none (some t) = no (λ e. cc)
option_dec (some s) none = no (λ e. cc)
option_dec (some s) (some t) = elim (text_dec s t) [
  | yes e ↦ yes (ap some e)
  | no n ↦ no (some_ne s t n)
]

unfoldable pub format_dec : (a b : LogFormat) → Dec (a ≡ b)
format_dec LogFormat.json LogFormat.json = yes refl
format_dec LogFormat.json LogFormat.text = no (λ e. cc)
format_dec LogFormat.text LogFormat.json = no (λ e. cc)
format_dec LogFormat.text LogFormat.text = yes refl

-- `if old.field != new.field { return Some(name) }`.
unless : {P : Type 0} → Dec P → Text → Option Text → Option Text
unless (yes _) name rest = rest
unless (no _) name rest = some name

unfoldable pub requires_restart : Config → Config → Option Text
unfolding unless
requires_restart old new =
    unless (List-discrete text_dec old.server.listen new.server.listen) (codes "server.listen") (
      unless (option_dec old.server.pgpass new.server.pgpass) (codes "server.pgpass") (
        unless (ℕ_discrete old.server.workers new.server.workers) (codes "server.workers") (
          unless (option_dec old.admin.listen new.admin.listen) (codes "admin.listen") (
            unless (option_dec old.otel.endpoint new.otel.endpoint) (codes "otel.endpoint") (
              unless (text_dec old.otel.service_name new.otel.service_name)
                (codes "otel.service_name")
                (unless (format_dec old.logging.format new.logging.format) (codes "logging.format")
                  (unless (text_dec old.logging.level new.logging.level) (codes "logging.level")
                    none)))))))

-- The configuration that is decoded, if it is valid.
accepted : Config → Option Invalid → Option Config
accepted config none = some config
accepted config (some _) = none

parse : Config → Option Config
unfolding accepted
parse config = accepted config (validate config)

swap : Config → Config → Option Text → Config × ReloadOutcome
swap current new none = (new, success)
swap current new (some field) = (current, restart_required field)

reload_parsed : Config → Option Config → Config × ReloadOutcome
unfolding swap
reload_parsed current none = (current, parse_failed)
reload_parsed current (some new) = swap current new (requires_restart current new)

-- The configuration that is shared afterwards, and the outcome.
unfoldable pub reload_config : Loaded → Config → Config × ReloadOutcome
unfolding reload_parsed parse
reload_config task_failed current = (current, parse_failed)
reload_config unreadable current = (current, parse_failed)
reload_config (decoded config) current = reload_parsed current (parse config)

-- A sequence of reloads, each on what the last one left.
unfoldable pub reload_all : List Loaded → Config → Config
reload_all [] current = current
reload_all (l ∷ ls) current = reload_all ls (reload_config l current).0
