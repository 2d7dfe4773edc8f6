-- ===== src/Client/NatProbe/Response.antt =====
-- The answer to a path probe as the client reads it, `parse_path_probe_response` and `decode_varint`
-- of crates/voip-client/src/nat_probe.rs. Positions are `usize`s of 64 bits, whose sums with a length
-- that was read wrap, as in a release build; no slice is longer than 2^63, so the others cannot.
pub mod Varint
pub mod Fields
pub mod Answers
pub mod Hostile
use three_pillars_voip.Base.{
  ℕ, zero, suc, ◌+◌, ◌-◌, ◌*◌, ◌/◌, ◌%◌, ◌^◌, Bool, true, false, not, ◌&&◌, List, [], ◌∷◌, String,
  length, ltb, leb, ◌==◌, if◌then◌else◌, u32_mod, u64_mod,
}
use three_pillars_voip.Base.Bytes.{take, drop}

pub record ParsedProbeResponse : Type 0 where
  pub observed_ip : String
  pub observed_port : ℕ

-- Each byte carries seven bits, the lowest first: adding them is `|=`. The bits shifted out of a
-- `u64` are lost.
unfoldable pub varint_from : (shift value i : ℕ) → List ℕ → ℕ × ℕ
varint_from shift value i [] = (value, i)
varint_from shift value i (byte ∷ bytes) =
    let value' = value + byte % 128 * 2 ^ shift % u64_mod in
    let rest = varint_from (shift + 7) value' (i + 1) bytes in
    if ltb byte 128 then (value', i + 1) else if leb 64 (shift + 7) then (value', i + 1) else rest

abbrev pub decode_varint : List ℕ → ℕ × ℕ
decode_varint bytes = varint_from 0 0 0 bytes

-- Where the loop goes from a field: to a position with an address and a port, out, or into a panic.
pub data Next : Type 0 where
  continue : (pos : ℕ) → (observed_ip : String) → (observed_port : ℕ) → Next
  stop : (observed_ip : String) → (observed_port : ℕ) → Next
  panic : Next

-- Past a varint, and past a length and as many bytes.
unfoldable pub skip_varint : List ℕ → ℕ → ℕ
skip_varint bytes pos = pos + (decode_varint (drop pos bytes)).1

unfoldable pub skip_length : List ℕ → ℕ → ℕ
skip_length bytes pos =
    let (len, len_size) = decode_varint (drop pos bytes) in (pos + len_size + len) % u64_mod

-- `running` when the fuel is spent.
pub data Outcome : Type 0 where
  returned : ParsedProbeResponse → Outcome
  panicked running : Outcome

abbrev pub proceed : (ℕ → String → ℕ → Outcome) → Next → Outcome
proceed parse (continue pos ip port) = parse pos ip port
proceed parse (stop ip port) = returned (record { observed_ip = ip; observed_port = port % 65536 })
proceed parse panic = panicked

module _ (from_utf8_lossy : List ℕ → String) where
  -- A slice that ends before it begins panics.
  unfoldable pub read_ip : List ℕ → ℕ → String → ℕ → Next
  unfolding skip_length skip_varint
  read_ip bytes pos ip port =
      let start = skip_varint bytes pos in
      let end = skip_length bytes pos in
      if leb end (length bytes)
      then if ltb end start
        then panic
        else continue end (from_utf8_lossy (take (end - start) (drop start bytes))) port
      else continue end ip port

  -- What follows a key.
  unfoldable pub field : List ℕ → ℕ → ℕ → ℕ → String → ℕ → Next
  unfolding skip_length skip_varint read_ip
  field bytes field_number wire_type pos ip port =
      if (field_number == 2) && (wire_type == 2)
      then read_ip bytes pos ip port
      else if (field_number == 3) && (wire_type == 0)
      then continue (skip_varint bytes pos) ip ((decode_varint (drop pos bytes)).0 % u32_mod)
      else if wire_type == 0
      then continue (skip_varint bytes pos) ip port
      else if wire_type == 2
      then continue (skip_length bytes pos) ip port
      else if wire_type == 1
      then continue (pos + 8) ip port
      else if wire_type == 5
      then continue (pos + 4) ip port
      else stop ip port

  unfoldable pub step : List ℕ → ℕ → String → ℕ → Next
  unfolding field
  step bytes pos ip port =
      if ltb pos (length bytes)
      then (let (key, key_len) = decode_varint (drop pos bytes) in
          field bytes (key / 8 % u32_mod) (key % 8) (pos + key_len) ip port)
      else stop ip port

  unfoldable pub parse_from : ℕ → List ℕ → ℕ → String → ℕ → Outcome
  parse_from zero bytes pos ip port = running
  parse_from (suc fuel) bytes pos ip port = proceed (parse_from fuel bytes) (step bytes pos ip port)

  abbrev pub parse_path_probe_response : ℕ → List ℕ → Outcome
  parse_path_probe_response fuel bytes = parse_from fuel bytes 0 "" 0
