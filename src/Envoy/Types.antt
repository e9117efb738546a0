-- ===== src/Envoy/Types.antt =====
-- The types of apps/envoy/src/xds/resources.ts, and what it uses of the platform: `node:net`'s `isIP`,
-- `URL` and `Number` are the fields of `Platform`; a URL that does not parse throws.
use catalyst_router.Prelude.{
  ℕ, String, Bool, List, [], ◌∷◌, Option, none, some, ◌==◌, string_key, false,
}

pub record Url : Type 0 where
  pub hostname : String
  pub url_port : String
  pub url_protocol : String

pub record Platform : Type 0 where
  pub is_ip : String → ℕ
  pub parse_url : String → Option Url
  pub number : String → ℕ
  pub starts_with : String → String → Bool

pub data Codec : Type 0 where
  codec_auto codec_http1 codec_http2 : Codec

-- `timeout` is the seconds and the nanos.
pub record RouteAction : Type 0 where
  pub cluster : String
  pub timeout : Option (ℕ × ℕ)

pub record RouteMatch : Type 0 where
  pub prefix_match : String
  pub route : RouteAction

pub record VirtualHost : Type 0 where
  pub host_name : String
  pub host_domains : List String
  pub host_routes : List RouteMatch

pub record ConnectionManager : Type 0 where
  pub type_url : String
  pub stat_prefix : String
  pub codec_type : Option Codec
  pub upgrade_configs : Option (List String)
  pub virtual_hosts : List VirtualHost

pub record TcpProxy : Type 0 where
  pub type_url : String
  pub stat_prefix : String
  pub cluster : String

pub record Filter (C : Type 0) : Type 0 where
  pub filter_name : String
  pub typed_config : C

pub record SocketAddress : Type 0 where
  pub address : String
  pub port_value : ℕ

-- `XdsListener` and `XdsTcpProxyListener`, by the configuration of their filters.
pub record XdsListener (C : Type 0) : Type 0 where
  pub name : String
  pub socket_address : SocketAddress
  pub filter_chains : List (List (Filter C))

pub data Listener : Type 0 where
  http_listener : XdsListener ConnectionManager → Listener
  tcp_listener : XdsListener TcpProxy → Listener

abbrev first_filter : {C : Type 0} → List (List (Filter C)) → Option String
first_filter [] = none
first_filter ([] ∷ chains) = none
first_filter ((f ∷ fs) ∷ chains) = some f.filter_name

abbrev is_tcp_name : Option String → Bool
is_tcp_name none = false
is_tcp_name (some n) = n == "envoy.filters.network.tcp_proxy"

abbrev pub is_tcp_proxy_listener : Listener → Bool
is_tcp_proxy_listener (http_listener l) = is_tcp_name (first_filter l.filter_chains)
is_tcp_proxy_listener (tcp_listener l) = is_tcp_name (first_filter l.filter_chains)

pub data ClusterType : Type 0 where
  static strict_dns : ClusterType

-- `endpoints` is the endpoints' lists of load-balanced addresses.
pub record XdsCluster : Type 0 where
  pub name : String
  pub cluster_type : ClusterType
  pub connect_timeout : String
  pub lb_policy : String
  pub dns_lookup_family : Option ℕ
  pub upstream_http2 : Option Bool
  pub cluster_name : String
  pub endpoints : List (List SocketAddress)
