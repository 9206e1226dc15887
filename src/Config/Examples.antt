-- ===== src/Config/Examples.antt =====
-- Test data for the configuration, and the theorems applied to it.
use omegacrawl.Base.{◌≡◌, ◌↔◌, [], none, some}
use omegacrawl.Config.Types.{Config}
use omegacrawl.Config.Default.{default_config}
use omegacrawl.Config.Validate.{validate}
use omegacrawl.Config.Conditions.{IsAcceptable}
use omegacrawl.Config.Decides.{validate-IsAcceptable}

abbrev without_queue : Config
without_queue = record default_config { queue_config = none }

validate-IsAcceptable_example : (validate default_config ≡ some []) ↔ IsAcceptable default_config
validate-IsAcceptable_example = validate-IsAcceptable default_config
