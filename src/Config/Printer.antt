-- ===== src/Config/Printer.antt =====
-- `endpoint_label`, which src/server.cpp, src/runtime.cpp and src/admin.cpp each declare.
use tcp_load_balancer.Base.{◌∷◌, ◌++◌}
use tcp_load_balancer.Config.{Endpoint}
use tcp_load_balancer.Text.{Bytes, to_string}

unfoldable pub endpoint_label : Endpoint → Bytes
endpoint_label endpoint = endpoint.host ++ (b':' ∷ to_string endpoint.port)
