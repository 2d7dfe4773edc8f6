-- ===== src/Client/Proxy/Record.antt =====
-- The generated `ProxyRecord` of proto/signaling.proto, and finding one by its URL
-- (crates/voip-client/src/proxy.rs).
use text.Mathlib.Text.{◌==◌ as str_eq}
use three_pillars_voip.Base.{ℕ, List, [], ◌∷◌, Option, none, some, String, if◌then◌else◌}

pub record ProxyRecord : Type 0 where
  pub node_id : String
  pub proxy_url : String
  pub capacity : ℕ
  pub region : String
  pub latency_hint_ms : ℕ
  pub timestamp : ℕ
  pub ttl_seconds : ℕ
  pub cert_fingerprint : String
  pub signature : List ℕ

-- `iter().find(|p| p.proxy_url == url)`.
unfoldable pub find : String → List ProxyRecord → Option ProxyRecord
find url [] = none
find url (p ∷ ps) = if str_eq p.proxy_url url then some p else find url ps

-- The records whose URL is another.
unfoldable pub others : String → List ProxyRecord → List ProxyRecord
others url [] = []
others url (p ∷ ps) = let rest = others url ps in if str_eq p.proxy_url url then rest else p ∷ rest
