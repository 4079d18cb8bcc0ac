-- ===== src/Config.antt =====
-- local_proxy/src/config.rs: the settings, as they are read from the file.
use local_proxy_rs.Base.{ℕ, List, Option, Bytes}
use local_proxy_rs.Addr.{StdSocketAddr}

pub record ProxyConfig : Type 0 where
  pub protocol : Bytes
  pub user : Option Bytes
  pub password : Option Bytes
  pub server : Bytes

pub record DohConfig : Type 0 where
  pub endpoint : Bytes
  pub fake_host : Option Bytes

pub record TproxyConfig : Type 0 where
  pub listen : List StdSocketAddr
  pub redir_type : Option Bytes

pub record Config : Type 0 where
  pub proxies : Option (List ProxyConfig)
  pub doh : Option DohConfig
  pub fragment : Option ℕ
  pub http_listen : Option (List StdSocketAddr)
  pub tproxy_listen : Option TproxyConfig
  pub dns_listen : Option (List StdSocketAddr)
