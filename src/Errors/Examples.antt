-- ===== src/Errors/Examples.antt =====
-- Test data for the errors, and the theorems applied to it.
use omegacrawl.Base.{true, false}
use omegacrawl.Errors.Kinds.{GoError, other, timeout_is, nil}
use omegacrawl.Errors.Classify.{codes}

abbrev net_timeout : GoError
net_timeout = other 1 (codes "i/o timeout") (timeout_is true) false nil
