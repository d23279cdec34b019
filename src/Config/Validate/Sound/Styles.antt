-- ===== src/Config/Validate/Sound/Styles.antt =====
-- The style of thinking of a configuration that `Validate` accepts for serving.
use ollame.Prelude.{
  ◌≡◌, inl, inr, true, Bool, Option, Bytes, codes, contains, ok, bind_ok, Result-cases,
}
use ollame.Config.Types.{Config}
use ollame.Config.Validate.Enums.{validate_enum, validate_enums}
pub use ollame.Config.Validate.Behaviors.Styles.{styles, StyleHolds, validate_behavior-StyleHolds}
use ollame.Config.Validate.Behaviors.Styles.{validate_enum-style}
use ollame.Config.Validate.{Url, serve_profile, serve_enums, check_serve, validate}
use ollame.Config.Validate.Sound.Accepted.{serve_ok}

pub validate-style :
    (parse_url : Bytes → Option Url) (compiles : Bytes → Bool) (cfg : Config)
    → validate parse_url compiles cfg serve_profile ≡ ok tt
    → contains styles cfg.compat.think_style ≡ true
unfolding check_serve validate_enums
validate-style parse_url compiles cfg accepted =
    let served = serve_ok parse_url compiles cfg accepted in
    elim (Result-cases (validate_enums (serve_enums cfg))) [
      | inr (e, bad) ↦ absurd (cc (rw bad at served))
      | inl (_, good) ↦
          let (_, _, rest) = bind_ok (validate_enum (codes "auth.mode") cfg.auth.mode) _ good in
          let (_, style, _) =
            bind_ok (validate_enum (codes "compat.think_style") cfg.compat.think_style) _ rest in
          validate_enum-style cfg.compat.think_style style
    ]
