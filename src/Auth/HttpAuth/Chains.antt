-- ===== src/Auth/HttpAuth/Chains.antt =====
-- The chains and the authentication of internal/middleware/a2a and internal/middleware/httpapi, whose
-- code is the same but for the name of the header.
use shield_agent.Prelude.{List, [], ◌∷◌, Text, codes}
use shield_agent.Prelude.Result.{Result}
use shield_agent.Auth.KeyStore.{KeyError}
use shield_agent.Auth.HttpAuth.{Config, HttpCall}

-- `NewAuthMiddleware` of the two packages
abbrev pub a2a_config : (Text → Result KeyError Text) → Text → Config
a2a_config store mode = record {
  store = store;
  mode = mode;
  agent_id_header = codes "X-Agent-ID";
  signature_header = codes "X-A2A-Signature";
}

abbrev pub http_api_config : (Text → Result KeyError Text) → Text → Config
http_api_config store mode = record {
  store = store;
  mode = mode;
  agent_id_header = codes "X-Agent-ID";
  signature_header = codes "X-Agent-Signature";
}

-- `WrapHandler` of a middleware
abbrev pub Wrapper : Type 0 → Type 0
Wrapper R = (HttpCall → R) → HttpCall → R

-- `(*Chain).Handler`: the first item is the outermost.
unfoldable pub chain_handler : {R : Type 0} → List (Wrapper R) → (HttpCall → R) → HttpCall → R
chain_handler [] final = final
chain_handler (m ∷ items) final = m (chain_handler items final)
