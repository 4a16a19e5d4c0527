-- ===== src/Token.antt =====
-- internal/token/store.go. The tables are lists in the order of insertion; ids come from the random
-- generator and enter as arguments. The JSON columns are kept as the lists that they encode. A
-- latency is a floating-point number, whose type and mean are the parameter `Latencies`. A failing
-- database is modelled where the middleware handles it.
pub mod Middleware
mod Examples
use shield_agent.Prelude.{
  ℕ, zero, suc, ◌+◌, ◌*◌, Bool, true, false, not, Option, none, some, List, [], ◌∷◌, ◌++◌, Text,
  ◌=ₜ◌, equal_fold, ◌&&◌, ltb, leb, if◌then◌else◌, keep, count_if, any, map,
}
use shield_agent.Prelude.Int.{ℤ}
use shield_agent.Prelude.Result.{Result, ok, err}

pub record Token : Type 0 where
  pub id : Text
  pub name : Text
  pub token_hash : Text
  pub created_at : ℕ
  pub expires_at : Option ℕ
  pub active : Bool
  pub quota_hourly : ℤ
  pub quota_monthly : ℤ
  pub allowed_methods : List Text
  pub ip_allowlist : List Text

pub record Latencies : Type 1 where
  pub Float : Type 0
  pub zero_latency : Float
  -- `COALESCE(AVG(latency_ms), 0)`
  pub average : List Float → Float

-- A second in nanoseconds, and the two quota windows.
abbrev pub second : ℕ
second = 1_000_000_000

abbrev pub hour : ℕ
hour = 3600 * second

abbrev pub month : ℕ
month = 720 * hour

unfoldable pub is_expired : Token → ℕ → Bool
is_expired t now = elim t.expires_at [ none ↦ false | some at ↦ ltb at now ]

abbrev pub is_nil : List Text → Bool
is_nil [] = true
is_nil (_ ∷ _) = false

unfoldable pub is_method_allowed : Token → Text → Bool
unfolding equal_fold
is_method_allowed t method =
    if is_nil t.allowed_methods then true else any (λ m. equal_fold m method) t.allowed_methods

pub data StoreError : Type 0 where
  duplicate : StoreError
  not_found : Text → StoreError

-- The first row that passes a test, as `QueryRow` returns it.
abbrev pub find : (Token → Bool) → List Token → Option Token
find p [] = none
find p (t ∷ ts) = let rest = find p ts in if p t then some t else rest

abbrev pub deactivate : Text → List Token → List Token
deactivate id [] = []
deactivate id (t ∷ ts) = (if t.id =ₜ id then record t { active = false } else t) ∷ deactivate id ts

module _ (lt : Latencies) where
  pub record UsageRecord : Type 0 where
    pub token_id : Text
    pub timestamp : ℕ
    pub method : Text
    pub success : Bool
    pub latency_ms : lt.Float

  pub record UsageStats : Type 0 where
    pub total_requests : ℕ
    pub success_count : ℕ
    pub fail_count : ℕ
    pub avg_latency_ms : lt.Float
    pub hourly_usage : ℕ
    pub monthly_usage : ℕ

  pub record Store : Type 0 where
    pub tokens : List Token
    pub usage : List UsageRecord

  unfoldable pub get_by_hash : Store → Text → Option Token
  unfolding ◌=ₜ◌
  get_by_hash s hash = find (λ t. t.token_hash =ₜ hash) s.tokens

  unfoldable pub get_by_id : Store → Text → Option Token
  unfolding ◌=ₜ◌
  get_by_id s id = find (λ t. t.id =ₜ id) s.tokens

  -- `id` is the primary key and `token_hash` is unique.
  unfoldable pub create :
      Store
      → Text
      → ℕ
      → Text
      → Text
      → Option ℕ
      → ℤ
      → ℤ
      → List Text
      → List Text
      → Store × Result StoreError Text
  unfolding ◌=ₜ◌
  create s id now name token_hash expires_at quota_hourly quota_monthly methods ips =
      if any (λ t. t.id =ₜ id) s.tokens
      then (s, err duplicate)
      else if any (λ t. t.token_hash =ₜ token_hash) s.tokens
      then (s, err duplicate)
      else (
        record s {
          tokens =
              s.tokens
              ++ record {
                id = id;
                name = name;
                token_hash = token_hash;
                created_at = now;
                expires_at = expires_at;
                active = true;
                quota_hourly = quota_hourly;
                quota_monthly = quota_monthly;
                allowed_methods = methods;
                ip_allowlist = ips;
              }
                ∷ [];
        },
        ok id,
      )

  -- No row affected is the error.
  unfoldable pub revoke : Store → Text → Store × Result StoreError (Unit {0})
  unfolding ◌=ₜ◌
  revoke s id =
      if any (λ t. t.id =ₜ id) s.tokens
      then (record s { tokens = deactivate id s.tokens }, ok tt)
      else (s, err (not_found id))

  -- The transaction removes the token with its usage.
  unfoldable pub delete : Store → Text → Store
  unfolding ◌=ₜ◌
  delete s id = record {
    tokens = keep (λ t. not (t.id =ₜ id)) s.tokens;
    usage = keep (λ u. not (u.token_id =ₜ id)) s.usage;
  }

  unfoldable pub record_usage : Store → ℕ → Text → Text → Bool → lt.Float → Store
  record_usage s now token_id method success latency_ms = record s {
    usage =
        s.usage
        ++ record {
          token_id = token_id;
          timestamp = now;
          method = method;
          success = success;
          latency_ms = latency_ms;
        }
          ∷ [];
  }

  -- `token_id = ? AND timestamp >= now - window`
  abbrev pub in_window : Text → ℕ → ℕ → UsageRecord → Bool
  in_window token_id now window u = u.token_id =ₜ token_id && leb now (u.timestamp + window)

  unfoldable pub count_usage : Store → ℕ → Text → ℕ → ℕ
  unfolding ◌=ₜ◌
  count_usage s now token_id window = count_if (in_window token_id now window) s.usage

  unfoldable pub get_stats : Store → ℕ → Text → ℕ → UsageStats
  unfolding count_usage
  get_stats s now token_id since =
      let hits = keep (in_window token_id now since) s.usage in
      record {
        total_requests = count_usage s now token_id since;
        success_count = count_if (λ (u : UsageRecord). u.success) hits;
        fail_count = count_if (λ (u : UsageRecord). not u.success) hits;
        avg_latency_ms = lt.average (map (λ (u : UsageRecord). u.latency_ms) hits);
        hourly_usage = count_usage s now token_id hour;
        monthly_usage = count_usage s now token_id month;
      }
