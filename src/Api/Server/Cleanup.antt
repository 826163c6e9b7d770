-- ===== src/Api/Server/Cleanup.antt =====
-- What the cleanups of Start (internal/api/server.go) leave of the clients of the rate limiter
-- (internal/api/rate_limiter.go).
use blindvault.Base.{
  ℕ, ◌+◌, ◌≡◌, refl, sym, ◌∙◌, ap, Bool, true, not, ◌&&◌, some, List, [], ◌∷◌, Map, ltb, arith,
  if◌then◌else◌,
}
use blindvault.Api.RateLimiter.{Rate, RateLimiter, LimitClient, ten_minutes, recent, cleanup}
use blindvault.Api.Server.Build.{clean_at}

module _ {R : Rate} where
  -- No tick comes more than ten minutes after the client was last seen.
  abbrev pub stays : List ℕ → LimitClient R → Bool
  stays [] c = true
  stays (tick ∷ ticks) c =
      let rest = stays ticks c in not (ltb (c.last_updated + ten_minutes) tick) && rest

  -- The clients that stay over all ticks.
  abbrev pub staying : List ℕ → Map (LimitClient R) → Map (LimitClient R)
  staying ticks [] = []
  staying ticks ((k, c) ∷ clients) =
      let rest = staying ticks clients in if stays ticks c then (k, c) ∷ rest else rest

  staying-nil : (clients : Map (LimitClient R)) → staying [] clients ≡ clients
  staying-nil [] = refl
  staying-nil ((k, c) ∷ clients) = ap (λ rest. (k, c) ∷ rest) (staying-nil clients)

  staying-recent :
      (tick : ℕ) (ticks : List ℕ) (clients : Map (LimitClient R))
      → staying ticks (recent R tick clients) ≡ staying (tick ∷ ticks) clients
  unfolding recent
  staying-recent tick ticks [] = refl
  staying-recent tick ticks ((k, c) ∷ clients) = ground (arith, staying-recent tick ticks clients)

  cleanup-recent :
      (tick : ℕ) (rl : RateLimiter R) (clients : Map (LimitClient R))
      → rl.clients ≡ some clients
      → cleanup R tick rl ≡ record rl { clients = some (recent R tick clients) }
  unfolding cleanup
  cleanup-recent tick rl clients h = rw h refl

  -- After any sequence of ticks, the limiter holds exactly the clients that were never idle for more
  -- than ten minutes at a tick, each with its bucket as it was, and nothing else has changed.
  pub clean_at-staying :
      (ticks : List ℕ) (rl : RateLimiter R) (clients : Map (LimitClient R))
      → rl.clients ≡ some clients
      → clean_at ticks rl ≡ record rl { clients = some (staying ticks clients) }
  unfolding clean_at
  clean_at-staying [] rl clients h =
      ap (λ held. record rl { clients = held }) (h ∙ ap some (sym (staying-nil clients)))
  clean_at-staying (tick ∷ ticks) rl clients h =
      ap (clean_at ticks) (cleanup-recent tick rl clients h)
      ∙ clean_at-staying ticks (record rl { clients = some (recent R tick clients) })
          (recent R tick clients) refl
      ∙ ap (λ held. record rl { clients = some held }) (staying-recent tick ticks clients)
