-- ===== src/Tests/Guests.antt =====
-- A run of the guest's evaluator of core/stateless.
use angie_guardian.Prelude.{false}
use angie_guardian.Pipeline.State.{Domain}
use angie_guardian.Tests.Attacks.{numbers}
use angie_guardian.Tests.Pipelines.{site}

-- A domain without proof of work, where a rule blocks.
abbrev plain : Domain numbers
plain = record site { pow_enabled = false }
