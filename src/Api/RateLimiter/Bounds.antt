-- ===== src/Api/RateLimiter/Bounds.antt =====
-- The rate limiter tracks a bounded number of clients and keeps them apart
-- (internal/api/rate_limiter.go).
use blindvault.Base.{
  ℕ, ◌+◌, ◌≤◌, ◌<◌, ◌≡◌, refl, ◌≢◌, ◌⊎◌, inl, inr, ℤ, pos, true, false, none, some, [], ◌∷◌, Text,
  is_empty, Map, lookup, insert, erase, length, All, lookup-insert, length-insert_old,
  length-insert-le, length-erase_old, Option-cases, Bool-cases, ltb, leb, arith,
}
use blindvault.Api.RateLimiter.{
  Rate, LimitClient, RateLimiter, new_rate_limiter, oldest_key, evict, host_of, find_client, allow,
}

module _ (R : Rate) where
  -- A client whose key is not empty and that was last served before now.
  abbrev IsTimely : ℕ → Text × LimitClient R → Type 0
  IsTimely now e = (is_empty e.0 ≡ false) × (e.1.last_updated < now)

  -- The key is one of the clients, and is not empty.
  abbrev IsClient : Map (LimitClient R) → Text → Type 0
  IsClient clients key = (lookup key clients ≢ none) × (is_empty key ≡ false)

  oldest_key-IsClient :
      (clients : Map (LimitClient R)) (key : Text) (oldest now : ℕ)
      → All (IsTimely now) clients
      → oldest ≤ now
      → (is_empty key ≡ false)
      → is_empty (oldest_key R clients key oldest) ≡ false
  unfolding oldest_key
  oldest_key-IsClient [] key oldest now h le ne = ne
  oldest_key-IsClient ((k, c) ∷ rest) key oldest now h le ne =
      elim (Bool-cases (ltb c.last_updated oldest)) [
        | inl e ↦
            rw (e, oldest_key)
              (oldest_key-IsClient rest k c.last_updated now h.1 (omega arith) h.0.0)
        | inr e ↦ rw (e, oldest_key) (oldest_key-IsClient rest key oldest now h.1 le ne)
      ]

  -- The search ends at the key that it began with, or at a key of the map.
  oldest_key-lookup :
      (clients : Map (LimitClient R)) (key : Text) (oldest : ℕ)
      → (oldest_key R clients key oldest ≡ key)
        ⊎ (lookup (oldest_key R clients key oldest) clients ≢ none)
  unfolding oldest_key lookup
  oldest_key-lookup [] key oldest = inl refl
  oldest_key-lookup ((k, c) ∷ rest) key oldest = elim (Bool-cases (ltb c.last_updated oldest)) [
    | inl e ↦ ground (arith, oldest_key-lookup rest k c.last_updated)
    | inr e ↦ ground (arith, oldest_key-lookup rest key oldest)
  ]

  oldest_nonempty :
      (now : ℕ) (k : Text) (c : LimitClient R) (rest : Map (LimitClient R))
      → All (IsTimely now) ((k, c) ∷ rest)
      → is_empty (oldest_key R ((k, c) ∷ rest) [] now) ≡ false
  unfolding oldest_key
  oldest_nonempty now k c rest h =
      let before : ltb c.last_updated now ≡ true = ground arith in
      rw (before, oldest_key)
        (oldest_key-IsClient rest k c.last_updated now h.1 (omega arith) h.0.0)

  oldest_found :
      (now : ℕ) (clients : Map (LimitClient R))
      → is_empty (oldest_key R clients [] now) ≡ false
      → lookup (oldest_key R clients [] now) clients ≢ none
  oldest_found now clients ne = elim (oldest_key-lookup clients [] now) [
    | inl e ↦ absurd (ground arith)
    | inr found ↦ found
  ]

  evict_room :
      (now m : ℕ) (clients : Map (LimitClient R))
      → 0 < m
      → All (IsTimely now) clients
      → length clients ≤ m
      → length (evict R now (pos m) clients) < m
  unfolding evict
  evict_room now m [] hm h le = ground arith
  evict_room now m ((k, c) ∷ rest) hm h le =
      let ne = oldest_nonempty now k c rest h in
      let key : Text = oldest_key R ((k, c) ∷ rest) [] now in
      let shorter : length (erase key ((k, c) ∷ rest)) + 1 ≤ length ((k, c) ∷ rest) =
        length-erase_old key ((k, c) ∷ rest) (oldest_found now ((k, c) ∷ rest) ne) in
      elim (Bool-cases (leb m (length ((k, c) ∷ rest)))) [
        | inl full ↦ rw (ne, evict) (ground arith)
        | inr room ↦ ground arith
      ]

  -- the map after a served request
  abbrev served : ℕ → Text → RateLimiter R → Map (LimitClient R) → Map (LimitClient R)
  served now ip rl clients =
      let (c, kept) = find_client R now (host_of R ip) rl clients in
      let (allowed, limit') = R.allow now c.limit in
      insert (host_of R ip) (record c { limit = limit'; last_updated = now }) kept

  clients-allow :
      (now : ℕ) (ip : Text) (rl : RateLimiter R) (clients : Map (LimitClient R))
      → rl.clients ≡ some clients
      → (allow R now ip rl).1.clients ≡ some (served now ip rl clients)
  unfolding allow
  clients-allow now ip rl clients held = ground arith

  length-served :
      (now m : ℕ) (ip : Text) (rl : RateLimiter R) (clients : Map (LimitClient R))
      → rl.max_clients ≡ pos m
      → 0 < m
      → All (IsTimely now) clients
      → length clients ≤ m
      → length (served now ip rl clients) ≤ m
  unfolding find_client
  length-served now m ip rl clients max hm h le =
      elim (Option-cases (lookup (host_of R ip) clients)) [
        | inl new ↦
            rw (new, find_client)
              (rw max (
                let kept = evict R now (pos m) clients in
                omega (
                  arith,
                  evict_room now m clients hm h le,
                  length-insert-le (host_of R ip) _ kept,
                )))
        | inr (c, old) ↦
            rw (old, find_client)
              (let known : lookup (host_of R ip) clients ≢ none = λ e. cc in
                omega (arith, length-insert_old (host_of R ip) _ clients known))
      ]

  lookup-served :
      (now m : ℕ) (ip other : Text) (rl : RateLimiter R) (clients : Map (LimitClient R))
      → rl.max_clients ≡ pos m
      → length clients < m
      → host_of R ip ≢ other
      → lookup other (served now ip rl clients) ≡ lookup other clients
  unfolding find_client evict
  lookup-served now m ip other rl clients max room differ = simp lookup-insert (ground arith)

  -- Serving one more client never tracks more clients than the maximum, if the tracked clients have
  -- keys that are not empty and were last served before now.
  pub allow_bound :
      (now m : ℕ) (ip : Text) (rl : RateLimiter R) (clients : Map (LimitClient R))
      → rl.clients ≡ some clients
      → rl.max_clients ≡ pos m
      → 0 < m
      → All (IsTimely now) clients
      → length clients ≤ m
      → (after : Map (LimitClient R)) × ((allow R now ip rl).1.clients ≡ some after)
        × (length after ≤ m)
  unfolding allow find_client
  allow_bound now m ip rl clients held max hm h le = (
    served now ip rl clients,
    clients-allow now ip rl clients held,
    length-served now m ip rl clients max hm h le,
  )

  -- A limiter made for no requests and no burst lets everything pass, for ever.
  pub allow_disabled :
      (now : ℕ) (ip : Text) (max : ℤ)
      → allow R now ip (new_rate_limiter R (pos 0) (pos 0) max)
        ≡ (true, new_rate_limiter R (pos 0) (pos 0) max)
  unfolding allow new_rate_limiter
  allow_disabled now ip max = refl

  -- While there is room, serving one client leaves the bucket of every other client alone.
  pub allow_frame :
      (now m : ℕ) (ip other : Text) (rl : RateLimiter R) (clients : Map (LimitClient R))
      → rl.clients ≡ some clients
      → rl.max_clients ≡ pos m
      → length clients < m
      → host_of R ip ≢ other
      → (after : Map (LimitClient R)) × ((allow R now ip rl).1.clients ≡ some after)
        × (lookup other after ≡ lookup other clients)
  unfolding allow find_client
  allow_frame now m ip other rl clients held max room differ = (
    served now ip rl clients,
    clients-allow now ip rl clients held,
    lookup-served now m ip other rl clients max room differ,
  )
