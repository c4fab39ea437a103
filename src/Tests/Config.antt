-- ===== src/Tests/Config.antt =====
-- Tests and examples for the configuration and for service defaults.
use consul_ecs.Base.{false, none, some}
use consul_ecs.Config.Decode.{RawConsulServers}

-- TLS is turned off for HTTP only, and gRPC has its own port.
abbrev raw : RawConsulServers
raw = record {
  hosts = "consul.local";
  skip_server_watch = false;
  defaults =
      some (record { ca_cert_file = "ca.pem"; enable_tls = none; tls_server_name = "consul" });
  grpc = some (record {
    port = some 9000;
    ca_cert_file = "grpc.pem";
    enable_tls = none;
    tls_server_name = "";
  });
  http = some (record {
    port = none;
    enable_https = none;
    ca_cert_file = "";
    enable_tls = some false;
    tls_server_name = "http";
  });
}
