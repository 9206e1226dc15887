-- ===== src/Config/Decides.antt =====
-- internal/config/validate.go: `Validate` decides the conditions.
use omegacrawl.Base.{◌≡◌, ◌↔◌, List, [], ◌++◌, none, some, arith}
use omegacrawl.Config.Types.{Config}
use omegacrawl.Config.Validate.{Problem, Outcome, validate_secrets, validate, ◌andalso◌}
use omegacrawl.Config.Conditions.{Present, IsAcceptable}
use omegacrawl.Config.Sections.{
  check_captcha_iff, check_changes_iff, check_queue_iff, check_auth_iff, append-nil_iff,
}
use omegacrawl.Config.Limits.{check_limits_iff}

whole-nil :
    (a c q d : List Problem) (u s : Outcome)
    → (((some a andalso u andalso some c andalso some q andalso some d) andalso s) ≡ some [])
      ↔ ((a ≡ []) × (u ≡ some []) × (c ≡ []) × (q ≡ []) × (d ≡ []) × (s ≡ some []))
whole-nil a c q d none s = ground arith
whole-nil a c q d (some u) none = ground arith
whole-nil a c q d (some u) (some s) = ground (
  arith,
  append-nil_iff a u,
  append-nil_iff (a ++ u) c,
  append-nil_iff ((a ++ u) ++ c) q,
  append-nil_iff (((a ++ u) ++ c) ++ q) d,
  append-nil_iff ((((a ++ u) ++ c) ++ q) ++ d) s,
)

secrets_iff :
    (c : Config)
    → (validate_secrets c ≡ some [])
      ↔ (Present c.auth_config × Present c.captcha_config × Present c.queue_config)
unfolding validate_secrets
secrets_iff c = ground arith

-- `Validate` returns nil exactly on the configurations that meet every condition.
pub validate-IsAcceptable : (c : Config) → (validate c ≡ some []) ↔ IsAcceptable c
unfolding validate
validate-IsAcceptable c = (
  λ h.
      let (a, u, p, q, d, s) = (whole-nil _ _ _ _ _ _).0 h in
      record {
        limits = (check_limits_iff c).0 a;
        auth = (check_auth_iff c.auth_config).0 u;
        captcha = (check_captcha_iff c.captcha_config).0 p;
        queue = (check_queue_iff c.queue_config).0 q;
        changes = (check_changes_iff c.change_detection_config).0 d;
        sections = (secrets_iff c).0 s;
      },
  λ v. (whole-nil _ _ _ _ _ _).1 (
    (check_limits_iff c).1 v.limits,
    (check_auth_iff c.auth_config).1 v.auth,
    (check_captcha_iff c.captcha_config).1 v.captcha,
    (check_queue_iff c.queue_config).1 v.queue,
    (check_changes_iff c.change_detection_config).1 v.changes,
    (secrets_iff c).1 v.sections,
  ),
)
