-- ===== src/Api/RateLimiter.antt =====
-- internal/api/rate_limiter.go: a token bucket for each client, for a bounded number of clients.
-- All readings of the clock within one call are one time.
pub mod Bounds
use blindvault.Base.{
  ℕ, ◌+◌, ℤ, pos, negsuc, is_nonpositive, Bool, true, false, not, ◌&&◌, Option, none, some, List,
  [], ◌∷◌, Text, is_empty, Map, lookup, insert, erase, length, ltb, leb, nat_eq, if◌then◌else◌,
}
use blindvault.Api.HostPort.{split_host_port}

-- golang.org/x/time/rate
pub record Rate : Type 1 where
  pub Limit : Type 0
  pub Limiter : Type 0
  pub zero_limit : Limit
  -- rate.Limit(float64(n) / 60.0)
  pub per_minute : ℤ → Limit
  pub new_limiter : Limit → ℤ → Limiter
  pub allow : ℕ → Limiter → Bool × Limiter

abbrev is_zero : ℤ → Bool
is_zero (pos n) = nat_eq n 0
is_zero (negsuc n) = false

abbrev is_negative : ℤ → Bool
is_negative (pos n) = false
is_negative (negsuc n) = true

-- `len(rl.clients) >= rl.maxClients`
abbrev pub reaches : ℕ → ℤ → Bool
reaches n (pos m) = leb m n
reaches n (negsuc m) = true

-- ten minutes, in nanoseconds
abbrev pub ten_minutes : ℕ
ten_minutes = 600000000000

module _ (R : Rate) where
  -- LimitClient
  pub record LimitClient : Type 0 where
    pub client : Text
    pub limit : R.Limiter
    pub last_updated : ℕ

  -- RateLimiter; a nil map is `none`
  pub record RateLimiter : Type 0 where
    pub limit : R.Limit
    pub burst : ℤ
    pub clients : Option (Map LimitClient)
    pub max_clients : ℤ

  -- NewRateLimiter
  unfoldable pub new_rate_limiter : ℤ → ℤ → ℤ → RateLimiter
  new_rate_limiter requests_per_minute burst max_clients =
      if is_zero requests_per_minute && is_zero burst
      then record { limit = R.zero_limit; burst = pos 0; clients = none; max_clients = pos 0 }
      else record {
        limit = R.per_minute requests_per_minute;
        burst = if is_negative burst then requests_per_minute else burst;
        clients = some [];
        max_clients = max_clients;
      }

  -- the loop that looks for the oldest client, from the best found so far
  unfoldable pub oldest_key : Map LimitClient → Text → ℕ → Text
  oldest_key [] key oldest = key
  oldest_key ((k, c) ∷ rest) key oldest =
      oldest_key rest (if ltb c.last_updated oldest then k else key)
        (if ltb c.last_updated oldest then c.last_updated else oldest)

  -- the eviction in front of a new client
  unfoldable pub evict : ℕ → ℤ → Map LimitClient → Map LimitClient
  evict now max_clients clients =
      if not (is_nonpositive max_clients) && reaches (length clients) max_clients
      then (let key = oldest_key clients [] now in
          if is_empty key then clients else erase key clients)
      else clients

  -- the host part of an address, or the address itself
  unfoldable pub host_of : Text → Text
  host_of ip = elim (split_host_port ip) [ some host ↦ host | none ↦ ip ]

  -- the limiter of a client, and the map that it stands in
  unfoldable pub find_client :
      ℕ → Text → RateLimiter → Map LimitClient → LimitClient × Map LimitClient
  unfolding evict
  find_client now ip rl clients = elim (lookup ip clients) [
    | some c ↦ (c, clients)
    | none ↦ (
      record { client = ip; limit = R.new_limiter rl.limit rl.burst; last_updated = now },
      evict now rl.max_clients clients,
    )
  ]

  -- RateLimiter.Allow
  unfoldable pub allow : ℕ → Text → RateLimiter → Bool × RateLimiter
  unfolding find_client
  allow now ip rl = elim rl.clients [
    | none ↦ (true, rl)
    | some clients ↦
        let key = host_of ip in
        let (c, kept) = find_client now key rl clients in
        let (allowed, limit') = R.allow now c.limit in
        (
          allowed,
          record rl {
            clients = some (insert key (record c { limit = limit'; last_updated = now }) kept);
          },
        )
  ]

  -- the loop of Cleanup
  unfoldable pub recent : ℕ → Map LimitClient → Map LimitClient
  recent now [] = []
  recent now ((k, c) ∷ rest) =
      let kept = recent now rest in
      if ltb (c.last_updated + ten_minutes) now then kept else (k, c) ∷ kept

  -- RateLimiter.Cleanup; ranging over a nil map does nothing
  unfoldable pub cleanup : ℕ → RateLimiter → RateLimiter
  unfolding recent
  cleanup now rl = elim rl.clients [
    | none ↦ rl
    | some clients ↦ record rl { clients = some (recent now clients) }
  ]
