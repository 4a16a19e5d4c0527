-- ===== src/Proxy/Cors.antt =====
-- internal/transport/proxy/cors.go.
use shield_agent.Prelude.{◌||◌, List, [], ◌∷◌, Text, codes, ◌=ₜ◌, if◌then◌else◌}
use shield_agent.Proxy.Http.{HttpRequest, Effect, set_header}

abbrev pub star : Text
star = codes "*"

-- The headers for the first origin that is allowed
unfoldable pub origin_headers : Text → List Text → List Effect
unfolding ◌=ₜ◌
origin_headers origin [] = []
origin_headers origin (allowed ∷ rest) =
    let later = origin_headers origin rest in
    if allowed =ₜ star || allowed =ₜ origin
    then set_header (codes "Access-Control-Allow-Origin") allowed
      ∷ set_header (codes "Access-Control-Allow-Headers")
          (codes "Content-Type, Authorization, Mcp-Session-Id")
      ∷ set_header (codes "Access-Control-Allow-Methods") (codes "POST, GET, OPTIONS, DELETE")
      ∷ []
    else later

unfoldable pub set_cors_headers : HttpRequest → List Text → List Effect
unfolding origin_headers
set_cors_headers r allowed = origin_headers (r.header (codes "Origin")) allowed
