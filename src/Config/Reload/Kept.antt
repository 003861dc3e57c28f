-- ===== src/Config/Reload/Kept.antt =====
-- What a reload of crates/halephant-core/src/config/reload.rs keeps.
use halephant.Config.Types.{Config}
use halephant.Config.{Invalid, validate}
use halephant.Config.Reload.{
  Loaded, task_failed, unreadable, decoded, ReloadOutcome, success, unless, option_dec, format_dec,
  requires_restart, accepted, parse, swap, reload_parsed, reload_config, reload_all,
}
use halephant.Prelude.{
  ◌≡◌, refl, ◌∙◌, List, [], ◌∷◌, Option, none, some, Text, text_dec, ℕ_discrete, arith, codes,
}
use mathlib.Core.List.{List-discrete}

-- The settings that are bound when the process starts.
pub record SameBound (old new : Config) : Type 0 where
  pub listen : old.server.listen ≡ new.server.listen
  pub pgpass : old.server.pgpass ≡ new.server.pgpass
  pub workers : old.server.workers ≡ new.server.workers
  pub admin_listen : old.admin.listen ≡ new.admin.listen
  pub endpoint : old.otel.endpoint ≡ new.otel.endpoint
  pub service_name : old.otel.service_name ≡ new.otel.service_name
  pub format : old.logging.format ≡ new.logging.format
  pub level : old.logging.level ≡ new.logging.level

unless-none :
    {P : Type 0}
    → (d : Dec P) (name : Text) (rest : Option Text) → unless d name rest ≡ none
    → P × (rest ≡ none)
unfolding unless
unless-none (yes p) name rest h = (p, h)
unless-none (no n) name rest h = absurd (ground arith)

requires_restart-SameBound :
    (old new : Config) → requires_restart old new ≡ none → SameBound old new
unfolding requires_restart
requires_restart-SameBound old new h =
    let s0 =
      unless-none (List-discrete text_dec old.server.listen new.server.listen)
        (codes "server.listen") _ h in
    let s1 =
      unless-none (option_dec old.server.pgpass new.server.pgpass) (codes "server.pgpass") _ s0.1 in
    let s2 =
      unless-none (ℕ_discrete old.server.workers new.server.workers) (codes "server.workers") _
        s1.1 in
    let s3 =
      unless-none (option_dec old.admin.listen new.admin.listen) (codes "admin.listen") _ s2.1 in
    let s4 =
      unless-none (option_dec old.otel.endpoint new.otel.endpoint) (codes "otel.endpoint") _ s3.1 in
    let s5 =
      unless-none (text_dec old.otel.service_name new.otel.service_name) (codes "otel.service_name")
        _ s4.1 in
    let s6 =
      unless-none (format_dec old.logging.format new.logging.format) (codes "logging.format") _
        s5.1 in
    let s7 =
      unless-none (text_dec old.logging.level new.logging.level) (codes "logging.level") _ s6.1 in
    record {
      listen = s0.0;
      pgpass = s1.0;
      workers = s2.0;
      admin_listen = s3.0;
      endpoint = s4.0;
      service_name = s5.0;
      format = s6.0;
      level = s7.0;
    }

SameBound-refl : (c : Config) → SameBound c c
SameBound-refl c = record {
  listen = refl;
  pgpass = refl;
  workers = refl;
  admin_listen = refl;
  endpoint = refl;
  service_name = refl;
  format = refl;
  level = refl;
}

SameBound-trans : (a b c : Config) → SameBound a b → SameBound b c → SameBound a c
SameBound-trans a b c p q = record {
  listen = p.listen ∙ q.listen;
  pgpass = p.pgpass ∙ q.pgpass;
  workers = p.workers ∙ q.workers;
  admin_listen = p.admin_listen ∙ q.admin_listen;
  endpoint = p.endpoint ∙ q.endpoint;
  service_name = p.service_name ∙ q.service_name;
  format = p.format ∙ q.format;
  level = p.level ∙ q.level;
}

-- What may become of the shared configuration: it is as it was and the outcome is not a success, or it
-- is the decoded one, valid and bound as before, and the outcome is a success.
Kept : Config → Config × ReloadOutcome → Type 0
Kept old (new, success) = SameBound old new × (validate new ≡ none)
Kept old (new, _) = new ≡ old

swap-Kept :
    (current new : Config) (o : Option Text)
    → requires_restart current new ≡ o
    → validate new ≡ none
    → Kept current (swap current new o)
unfolding swap Kept
swap-Kept current new none h v = (requires_restart-SameBound current new h, v)
swap-Kept current new (some field) h v = refl

accepted-Kept :
    (current new : Config) (o : Option Invalid)
    → validate new ≡ o
    → Kept current (reload_parsed current (accepted new o))
unfolding accepted reload_parsed Kept
accepted-Kept current new none v = swap-Kept current new (requires_restart current new) refl v
accepted-Kept current new (some i) v = refl

reload_config-Kept : (l : Loaded) (current : Config) → Kept current (reload_config l current)
unfolding reload_config parse Kept
reload_config-Kept task_failed current = refl
reload_config-Kept unreadable current = refl
reload_config-Kept (decoded new) current = accepted-Kept current new (validate new) refl

Kept-next :
    (old : Config) (r : Config × ReloadOutcome)
    → validate old ≡ none
    → Kept old r
    → SameBound old r.0 × (validate r.0 ≡ none)
unfolding Kept
Kept-next old (new, success) v k = k
Kept-next old (new, _) v k = rw k (SameBound-refl old, v)

-- Over any sequence of reloads, whatever is found on the disk, the shared configuration stays valid,
-- and every setting that is bound when the process starts stays as it was at the start.
pub reload_all-Kept :
    (ls : List Loaded) (c : Config)
    → validate c ≡ none
    → SameBound c (reload_all ls c) × (validate (reload_all ls c) ≡ none)
unfolding reload_all
reload_all-Kept [] c v = (SameBound-refl c, v)
reload_all-Kept (l ∷ ls) c v =
    let step = Kept-next c (reload_config l c) v (reload_config-Kept l c) in
    let later = reload_all-Kept ls (reload_config l c).0 step.1 in
    (SameBound-trans _ _ _ step.0 later.0, later.1)
