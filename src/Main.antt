-- ===== src/Main.antt =====
-- local_proxy/src/main.rs: the state that `main` keeps for the servers. Main/Servers starts them.
pub mod Servers
use local_proxy_rs.Base.{ℕ, List, Option, none, some, Bytes}
use mathlib.Core.Option
use local_proxy_rs.Config.{DohConfig, Config}
use local_proxy_rs.Outbound.Stack.{Outbound, proxy_stack}

-- `ProxyState`; of the cache there is its capacity.
pub record ProxyState : Type 0 where
  pub config : Config
  pub dns_cache : ℕ
  pub proxy_stack : List Outbound

-- `TtlCache::new(65535)` where there is a server to ask, and else a cache that holds nothing.
abbrev pub cache_capacity : Option DohConfig → ℕ
cache_capacity none = 0
cache_capacity (some d) = 65535

-- The value that `PROXY` is set to, where `main` has not panicked; `ls` are the lines typed in.
unfoldable pub proxy_state : (Bytes → Bytes) → Config → List Bytes → Option ProxyState
proxy_state base64 config ls =
    Option.map
      (λ stack. record {
        config = config;
        dns_cache = cache_capacity config.doh;
        proxy_stack = stack;
      })
      (proxy_stack base64 config ls)
