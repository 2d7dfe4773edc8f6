-- ===== src/Client/Migration.antt =====
-- What a change of the network asks for, and the retries of a migration,
-- crates/voip-client/src/migration.rs.
use three_pillars_voip.Base.{
  ℕ, ◌+◌, ◌*◌, ◌%◌, ◌^◌, ◌<◌, ◌≡◌, refl, Bool, true, false, Option, none, some, leb, String,
  if◌then◌else◌, u32_mod, u64_mod, arith,
}
use three_pillars_voip.Core.Config.{VoipConfig, retry_delay_secs}

pub data NetworkChangeEvent : Type 0 where
  wifi_to_cellular cellular_to_wifi new_wifi_network ipv6_prefix_change nat_rebinding :
      NetworkChangeEvent

unfoldable pub requires_nat_reprobe : NetworkChangeEvent → Bool
requires_nat_reprobe ipv6_prefix_change = false
requires_nat_reprobe _ = true

unfoldable pub changes_interface : NetworkChangeEvent → Bool
changes_interface wifi_to_cellular = true
changes_interface cellular_to_wifi = true
changes_interface new_wifi_network = true
changes_interface _ = false

pub description : NetworkChangeEvent → String
description wifi_to_cellular = "WiFi → Cellular"
description cellular_to_wifi = "Cellular → WiFi"
description new_wifi_network = "New WiFi network"
description ipv6_prefix_change = "IPv6 prefix change"
description nat_rebinding = "NAT rebinding"

pub record MigrationRetryHandler : Type 0 where
  pub attempt : ℕ
  pub max_attempts : ℕ
  pub initial_delay_secs : ℕ
  pub backoff_multiplier : ℕ

abbrev pub new : VoipConfig → MigrationRetryHandler
new config = record {
  attempt = 0;
  max_attempts = config.push_retry_max_attempts;
  initial_delay_secs = config.push_retry_initial_delay_secs;
  backoff_multiplier = config.push_retry_backoff_multiplier;
}

unfoldable pub is_exhausted : MigrationRetryHandler → Bool
is_exhausted h = leb h.max_attempts h.attempt

-- The power and the product wrap at the width of a `u64`.
unfoldable pub next_delay : MigrationRetryHandler → Option ℕ
next_delay h =
    if leb h.max_attempts h.attempt
    then none
    else some (h.initial_delay_secs * (h.backoff_multiplier ^ h.attempt % u64_mod) % u64_mod)

unfoldable pub record_attempt : MigrationRetryHandler → MigrationRetryHandler
record_attempt h = record h { attempt = (h.attempt + 1) % u32_mod }

pub reset : MigrationRetryHandler → MigrationRetryHandler
reset h = record h { attempt = 0 }

abbrev pub attempts : ℕ → MigrationRetryHandler → MigrationRetryHandler
attempts ℕ.zero h = h
attempts (ℕ.suc n) h = record_attempt (attempts n h)

attempts_lem :
    (config : VoipConfig) (n : ℕ)
    → n < u32_mod
    → attempts n (new config) ≡ record (new config) { attempt = n }
unfolding record_attempt
attempts_lem config ℕ.zero h = refl
attempts_lem config (ℕ.suc n) h = ground (arith, attempts_lem config n)

-- After n attempts the delay of a migration is that of the configuration for attempt n + 1, while fewer
-- than the maximum were made, and none from then on; n is a `u32`.
pub next_delay-attempts :
    (config : VoipConfig) (n : ℕ)
    → n < u32_mod
    → next_delay (attempts n (new config)) ≡ (
        if leb config.push_retry_max_attempts n
        then none
        else some (retry_delay_secs config (n + 1)))
unfolding next_delay retry_delay_secs
next_delay-attempts config n h = ground (arith, attempts_lem config n h)
