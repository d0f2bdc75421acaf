-- ===== src/Services/Weather/Honesty.antt =====
-- A reading says where it came from: the contract of the weather service.
use lang_graph_uas.Prelude.{ℕ, zero, suc, ◌≡◌, ◌⊎◌, true, false, List, Option, none, some, String}
use lang_graph_uas.Float.{Float}
use lang_graph_uas.Schemas.Responses.{
  WeatherReading, WeatherSource, live, cached_fresh, cached_stale, fallback, error, fixture,
}
use lang_graph_uas.Services.Weather.{
  Json, WeatherCache, CacheKey, Exchange, Requested, received, unreachable, unusable, crashed,
  Instants, Service, Outcome, ok, payload_error, uncaught, http_error, deadline, not_json,
  malformed, answered, age_s, degraded_reading, parse_current,
}

module _ {F J : Type 0} ⦃f : Float F⦄ (json : Json F J) where
  open f use {lit, is_finite}

  -- All that a parsed reading claims.
  pub record IsObserved (r : WeatherReading F) (now : ℕ) : Type 0 where
    pub source : r.source ≡ live
    pub stamp : r.fetched_at ≡ some now
    pub temperature : is_finite r.temperature_c ≡ true
    pub wind : is_finite r.wind_speed_mps ≡ true
    pub gust : (is_finite r.wind_gust_mps ≡ true) ⊎ (r.wind_gust_mps ≡ lit 0 1)
    pub direction : is_finite r.wind_direction ≡ true
    pub humidity : is_finite r.humidity_percent ≡ true

  -- The request asked so many times in vain, and then came to an exchange.
  abbrev pub Decided : (ℕ → Exchange J) → ℕ → ℕ → Exchange J → Type 0
  Decided exchanges more zero x = exchanges 0 ≡ x
  Decided exchanges zero (suc k) x = ⊥
  Decided exchanges (suc more) (suc k) x =
      (exchanges 0 ≡ http_error) × Decided (λ i. exchanges (suc i)) more k x

  -- Every exchange that the request may have failed.
  abbrev pub AllFailed : (ℕ → Exchange J) → ℕ → Type 0
  AllFailed exchanges zero = exchanges 0 ≡ http_error
  AllFailed exchanges (suc more) =
      (exchanges 0 ≡ http_error) × AllFailed (λ i. exchanges (suc i)) more

  -- The request came to an object that parses so.
  abbrev pub Parses : (ℕ → Exchange J) → ℕ → ℕ → Outcome (WeatherReading F) → Type 0
  Parses exchanges more now o =
      (k : ℕ) × (current : List (String × J)) × Decided exchanges more k (answered current)
      × (parse_current json current now ≡ o)

  abbrev pub Meets : (ℕ → Exchange J) → ℕ → Exchange J → Type 0
  Meets exchanges more x = (k : ℕ) × Decided exchanges more k x

  -- What a request that ends so has met, within the attempts that it may make: what it came to after
  -- nothing but HTTP errors.
  abbrev pub Ended : (ℕ → Exchange J) → ℕ → ℕ → Requested F → Type 0
  Ended exchanges more now (received r) = Parses exchanges more now (ok r) × IsObserved r now
  Ended exchanges more now unreachable = AllFailed exchanges more ⊎ Meets exchanges more deadline
  Ended exchanges more now unusable =
      Meets exchanges more not_json ⊎ Parses exchanges more now payload_error
  Ended exchanges more now crashed =
      Meets exchanges more malformed ⊎ Parses exchanges more now uncaught

module _ {F J C : Type 0} ⦃f : Float F⦄ (json : Json F J) (cache : WeatherCache F C)
    (service : Service F) where
  open f use {le, lt, lit}

  -- What each label says of a reading, of the cache it was served from, and of the request that failed.
  abbrev pub Honest :
      Option (WeatherReading F) → Instants → Requested F → WeatherReading F → WeatherSource → Type 0
  Honest cached t q r live = (q ≡ received r) × IsObserved json r t.at_parse
  Honest cached t q r cached_fresh =
      (c : WeatherReading F) × (cached ≡ some c)
      × (r ≡ record c { source = cached_fresh })
      × (le (age_s c.fetched_at t.at_fresh_test) service.cache_ttl_s ≡ true)
  Honest cached t q r cached_stale =
      (c : WeatherReading F) × (cached ≡ some c)
      × (r ≡ record c { source = cached_stale; conditions = r.conditions })
      × (le (age_s c.fetched_at t.at_fresh_test) service.cache_ttl_s ≡ false)
      × (lt service.stale_max_age_s (age_s c.fetched_at t.at_stale_test) ≡ false)
      × ((q ≡ unreachable) ⊎ (q ≡ unusable))
  Honest cached t q r fallback =
      (q ≡ unreachable) × (r ≡ degraded_reading fallback "Live feed unreachable")
  Honest cached t q r error =
      (q ≡ unusable) × (r ≡ degraded_reading error "Live feed returned unusable data")
  Honest cached t q r fixture = ⊥

  abbrev pub Served :
      C
      → CacheKey F
      → Option (WeatherReading F)
      → Instants
      → Requested F
      → Option (WeatherReading F × C)
      → Type 0
  Served c key cached t q none = q ≡ crashed
  Served c key cached t q (some (r, c')) =
      Honest cached t q r r.source
      × ((c' ≡ c) ⊎ ((c' ≡ cache.store c key r t.at_store) × (r.source ≡ live)))

  -- The answer of a fetch, as `Served` says it of what its cache holds and of how a request ends.
  abbrev pub Answered :
      C → CacheKey F → Instants → (ℕ → Exchange J) → Option (WeatherReading F × C) → Type 0
  Answered c key t exchanges answer =
      (q : Requested F) × Ended json exchanges service.more_attempts t.at_parse q
      × Served c key (cache.load c key) t q answer
