-- ===== src/Client/PortProber.antt =====
-- Trying the ports of a prediction, `PortPredictionProber` of crates/voip-client/src/probe.rs. Ports
-- are `u16`s, whose sums wrap, as in a release build. What trying a port gives is quinn's; the attempts
-- run at once and end in any order.
use three_pillars_voip.Base.{
  ℕ, zero, suc, ◌+◌, ◌-◌, ◌%◌, ◌<◌, ◌≤◌, ◌≡◌, ap, Bool, Option, none, some, List, [], ◌∷◌, leb,
  if◌then◌else◌, arith, Bool-cases, inl, inr,
}
use three_pillars_voip.Core.Config.{VoipConfig}

abbrev pub u16_mod : ℕ
u16_mod = 65536

pub data ProbeError : Type 0 where
  all_ports_exhausted : ProbeError
  probe_timeout : ℕ → ProbeError

-- That many ports from the first on.
unfoldable pub consecutive : ℕ → ℕ → List ℕ
consecutive zero first = []
consecutive (suc n) first = first ∷ consecutive n (first + 1)

-- `first..=last`.
abbrev pub inclusive : ℕ → ℕ → List ℕ
inclusive first last = consecutive (last + 1 - first) first

abbrev pub smaller : ℕ → ℕ → ℕ
smaller a b = if leb a b then a else b

-- `port_start + max_probes as u16 - 1`.
unfoldable pub effective_end : (port_start port_end max_probes : ℕ) → ℕ
effective_end port_start port_end max_probes =
    let sum = (port_start + max_probes % u16_mod) % u16_mod in
    smaller port_end ((sum + 65535) % u16_mod)

unfoldable pub probed_ports : (port_start port_end : ℕ) → VoipConfig → List ℕ
unfolding effective_end
probed_ports port_start port_end config =
    inclusive port_start (effective_end port_start port_end config.prediction_max_probes)

pub data Probed (C : Type 0) : Type 0 where
  ok : C → Probed C
  err : ProbeError → Probed C

-- The attempts in the order in which they end, and whether all of them end in time.
abbrev pub first_connected : {C : Type 0} → VoipConfig → Bool → List (Option C) → Probed C
first_connected config in_time [] =
    if in_time
    then err all_ports_exhausted
    else err (probe_timeout config.quic_prediction_timeout_ms)
first_connected config in_time (none ∷ rest) = first_connected config in_time rest
first_connected config in_time (some c ∷ rest) = ok c

few :
    (first last max : ℕ)
    → first ≤ last
    → last < u16_mod
    → 1 ≤ max
    → max < u16_mod
    → first + max ≤ u16_mod
    → effective_end first last max + 1 - first ≡ smaller (last + 1 - first) max
unfolding effective_end
few first last max l p o m h =
    let e : ((first + max % u16_mod) % u16_mod + 65535) % u16_mod ≡ first + max - 1 = omega arith in
    ground (arith, e)

past :
    (first last max : ℕ)
    → first ≤ last
    → last < u16_mod
    → 1 ≤ max
    → max < u16_mod
    → u16_mod < first + max
    → effective_end first last max + 1 - first ≡ 0
unfolding effective_end
past first last max l p o m h =
    let e : ((first + max % u16_mod) % u16_mod + 65535) % u16_mod ≡ first + max - 65537 =
      omega arith in
    ground (arith, e)

-- Of a range that is not empty the ports from its first on are tried, as many as the range has or
-- as the configuration allows, which is from 1 to 65535; but none at all if as many ports as the
-- configuration allows reach past the last port, 65535.
pub probed_ports_lem :
    (port_start port_end : ℕ) (config : VoipConfig)
    → port_start ≤ port_end
    → port_end < u16_mod
    → 1 ≤ config.prediction_max_probes
    → config.prediction_max_probes < u16_mod
    → probed_ports port_start port_end config ≡ (
        if leb (port_start + config.prediction_max_probes) u16_mod
        then consecutive
            (smaller (port_end + 1 - port_start) config.prediction_max_probes)
            port_start
        else [])
unfolding probed_ports consecutive
probed_ports_lem port_start port_end config l p o m =
    let max = config.prediction_max_probes in
    elim (Bool-cases (leb (port_start + max) u16_mod)) [
      | inl c ↦
          let e : effective_end port_start port_end max + 1 - port_start
              ≡ smaller (port_end + 1 - port_start) max =
            few port_start port_end max l p o m (ground arith) in
          rw c (ap (λ n. consecutive n port_start) e)
      | inr c ↦
          let e : effective_end port_start port_end max + 1 - port_start ≡ 0 =
            past port_start port_end max l p o m (ground arith) in
          rw c (ap (λ n. consecutive n port_start) e)
    ]
