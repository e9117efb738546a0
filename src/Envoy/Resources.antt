-- ===== src/Envoy/Resources.antt =====
-- apps/envoy/src/xds/resources.ts, the builders. The types are in `Types`.
use Prim.Native.String.{◌++◌ as str_append}
use catalyst_router.Prelude.{
  ℕ, String, Bool, true, false, not, List, [], ◌∷◌, Option, none, some, nat_beq, if◌then◌else◌,
  ◌==◌, string_key,
}
use catalyst_router.Table.{Protocol, http, http_graphql, http_gql, http_grpc, tcp}
pub use catalyst_router.Envoy.Types.{
  Url, Platform, Codec, codec_auto, codec_http1, codec_http2, RouteAction, RouteMatch, VirtualHost,
  ConnectionManager, TcpProxy, Filter, SocketAddress, XdsListener, Listener, http_listener,
  tcp_listener, is_tcp_proxy_listener, ClusterType, static, strict_dns, XdsCluster,
}

abbrev hcm_type_url : String
hcm_type_url =
    "type.googleapis.com/envoy.extensions.filters.network.http_connection_manager.v3.HttpConnectionManager"

abbrev tcp_proxy_type_url : String
tcp_proxy_type_url = "type.googleapis.com/envoy.extensions.filters.network.tcp_proxy.v3.TcpProxy"

abbrev v4_only : ℕ
v4_only = 1

abbrev pub is_ip_address : Platform → String → Bool
is_ip_address env s = not (nat_beq (env.is_ip s) 0)

abbrev url_port_of : Platform → Url → ℕ
url_port_of env u =
    if u.url_port == ""
    then (if u.url_protocol == "https:" then 443 else 80)
    else env.number u.url_port

unfoldable pub parse_endpoint_url : Platform → String → Option SocketAddress
parse_endpoint_url env endpoint = elim (env.parse_url endpoint) [
  | none ↦ none
  | some u ↦ some (record { address = u.hostname; port_value = url_port_of env u })
]

pub record ListenerOptions : Type 0 where
  pub enable_web_socket : Bool
  pub disable_route_timeout : Bool
  pub options_codec : Option Codec

abbrev pub get_listener_options : Protocol → ListenerOptions
get_listener_options http_graphql = record {
  enable_web_socket = true;
  disable_route_timeout = true;
  options_codec = none;
}
get_listener_options http_gql = record {
  enable_web_socket = true;
  disable_route_timeout = true;
  options_codec = none;
}
get_listener_options http_grpc = record {
  enable_web_socket = false;
  disable_route_timeout = true;
  options_codec = some codec_http2;
}
get_listener_options http = record {
  enable_web_socket = false;
  disable_route_timeout = false;
  options_codec = none;
}
get_listener_options tcp = record {
  enable_web_socket = false;
  disable_route_timeout = false;
  options_codec = none;
}

abbrev pub build_http_connection_manager :
    Platform → (prefix cluster_name : String) → ListenerOptions → ConnectionManager
build_http_connection_manager env prefix cluster_name options = record {
  type_url = hcm_type_url;
  stat_prefix = prefix;
  codec_type = options.options_codec;
  upgrade_configs = if options.enable_web_socket then some ("websocket" ∷ []) else none;
  virtual_hosts =
      record {
        host_name = if env.starts_with prefix "ingress" then "local" else "remote";
        host_domains = "*" ∷ [];
        host_routes =
            record {
              prefix_match = "/";
              route = record {
                cluster = cluster_name;
                timeout = if options.disable_route_timeout then some (0, 0) else none;
              };
            }
            ∷ [];
      }
      ∷ [];
}

abbrev pub ingress_name : String → String
ingress_name channel = str_append "ingress_" channel

abbrev pub local_name : String → String
local_name channel = str_append "local_" channel

abbrev pub egress_name : (channel peer : String) → String
egress_name channel peer = str_append (str_append (str_append "egress_" channel) "_via_") peer

abbrev pub remote_name : (channel peer : String) → String
remote_name channel peer = str_append (str_append (str_append "remote_" channel) "_via_") peer

abbrev http_filters : ConnectionManager → List (List (Filter ConnectionManager))
http_filters c =
    (record { filter_name = "envoy.filters.network.http_connection_manager"; typed_config = c }
      ∷ [])
    ∷ []

abbrev tcp_filters : (prefix cluster_name : String) → List (List (Filter TcpProxy))
tcp_filters prefix cluster_name =
    (record {
      filter_name = "envoy.filters.network.tcp_proxy";
      typed_config = record {
        type_url = tcp_proxy_type_url;
        stat_prefix = prefix;
        cluster = cluster_name;
      };
    }
      ∷ [])
    ∷ []

abbrev pub build_ingress_listener :
    Platform → (channel : String) → SocketAddress → Protocol → Listener
build_ingress_listener env channel bind protocol = http_listener (record {
  name = ingress_name channel;
  socket_address = bind;
  filter_chains = http_filters (
      build_http_connection_manager env (ingress_name channel) (local_name channel)
        (get_listener_options protocol));
})

-- `opts.bindAddress ?? '0.0.0.0'`
abbrev pub egress_address : Option String → ℕ → SocketAddress
egress_address none port = record { address = "0.0.0.0"; port_value = port }
egress_address (some bind) port = record { address = bind; port_value = port }

abbrev pub build_egress_listener :
    Platform → (channel peer : String) → Option String → ℕ → Protocol → Listener
build_egress_listener env channel peer bind port protocol = http_listener (record {
  name = egress_name channel peer;
  socket_address = egress_address bind port;
  filter_chains = http_filters (
      build_http_connection_manager env (egress_name channel peer) (remote_name channel peer)
        (get_listener_options protocol));
})

abbrev pub is_tcp_protocol : Protocol → Bool
is_tcp_protocol tcp = true
is_tcp_protocol http = false
is_tcp_protocol http_graphql = false
is_tcp_protocol http_gql = false
is_tcp_protocol http_grpc = false

abbrev pub build_tcp_proxy_ingress_listener : (channel : String) → SocketAddress → Listener
build_tcp_proxy_ingress_listener channel bind = tcp_listener (record {
  name = ingress_name channel;
  socket_address = bind;
  filter_chains = tcp_filters (ingress_name channel) (local_name channel);
})

abbrev pub build_tcp_proxy_egress_listener : (channel peer : String) → Option String → ℕ → Listener
build_tcp_proxy_egress_listener channel peer bind port = tcp_listener (record {
  name = egress_name channel peer;
  socket_address = egress_address bind port;
  filter_chains = tcp_filters (egress_name channel peer) (remote_name channel peer);
})

abbrev pub requires_http2 : Protocol → Bool
requires_http2 http_grpc = true
requires_http2 http = false
requires_http2 http_graphql = false
requires_http2 http_gql = false
requires_http2 tcp = false

abbrev cluster_at : Platform → String → SocketAddress → Protocol → XdsCluster
cluster_at env cluster_name endpoint protocol = record {
  name = cluster_name;
  cluster_type = if is_ip_address env endpoint.address then static else strict_dns;
  connect_timeout = "5s";
  lb_policy = "ROUND_ROBIN";
  dns_lookup_family = if is_ip_address env endpoint.address then none else some v4_only;
  upstream_http2 = if requires_http2 protocol then some true else none;
  cluster_name = cluster_name;
  endpoints = (endpoint ∷ []) ∷ [];
}

abbrev pub build_local_cluster :
    Platform → (channel : String) → SocketAddress → Protocol → XdsCluster
build_local_cluster env channel endpoint protocol =
    cluster_at env (local_name channel) endpoint protocol

abbrev pub build_remote_cluster :
    Platform → (channel peer : String) → SocketAddress → Protocol → XdsCluster
build_remote_cluster env channel peer endpoint protocol =
    cluster_at env (remote_name channel peer) endpoint protocol
