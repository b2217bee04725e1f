-- ===== src/Proxy/Service/Origin.antt =====
-- The request that goes to an origin.
use zicade_rs.Text.{Str, text}

abbrev pub proxy_connection : Str
proxy_connection = text "proxy-connection"
