-- ===== src/Services/Weather.antt =====
-- backend/suas/services/weather.py: the weather service, its cache, and the parsing of a payload.
pub mod Cache
pub mod Honesty
use lang_graph_uas.Prelude.{
  ℕ, zero, suc, Bool, ◌&&◌, not, List, [], ◌∷◌, Option, none, some, String, concat, lookup, keep_if,
  if◌then◌else◌,
}
use lang_graph_uas.Float.{Float}
use lang_graph_uas.Schemas.Responses.{
  WeatherReading, WeatherSource, live, cached_fresh, cached_stale, fallback, error, fixture,
}

-- What `float(x)` comes to: a figure, a `TypeError` or `ValueError`, or the `OverflowError` of an integer
-- that no float is near.
pub data Converted (F : Type 0) : Type 0 where
  figure : F → Converted F
  not_a_number overflow : Converted F

-- The values of a provider's JSON, of a type `J`: is it `null`, and what does `float` make of it.
pub record Json (F J : Type 0) : Type 0 where
  pub is_null : J → Bool
  pub as_float : J → Converted F

-- What parsing comes to: a value, a `WeatherPayloadError`, or an exception that nothing catches.
pub data Outcome (A : Type 0) : Type 0 where
  ok : A → Outcome A
  payload_error uncaught : Outcome A

infixl 5 ◌>>=◌
abbrev ◌>>=◌ : {A B : Type 0} → Outcome A → (A → Outcome B) → Outcome B
ok a >>= k = k a
payload_error >>= k = payload_error
uncaught >>= k = uncaught

-- Where live readings are kept, in the order load, store; the last argument of a store is the time of
-- the sweep.
abbrev pub CacheKey : Type 0 → Type 0
CacheKey F = F × F

pub record WeatherCache (F C : Type 0) : Type 0 where
  pub load : C → CacheKey F → Option (WeatherReading F)
  pub store : C → CacheKey F → WeatherReading F → ℕ → C

-- One GET: it fails, the deadline passes meanwhile, or it answers: with no JSON, with JSON that is
-- not an object or whose `current` is a number other than 0, or with an object. An object whose
-- `current` is a list or a text ends as one without it does.
pub data Exchange (J : Type 0) : Type 0 where
  http_error deadline not_json malformed : Exchange J
  answered : List (String × J) → Exchange J

-- How a request ends: with a reading, in a `TimeoutError` or `HTTPError`, or in a
-- `WeatherPayloadError`, or in the `AttributeError`, `TypeError` or `OverflowError` of `body.get`, `in`
-- or `float`, which nothing catches.
pub data Requested (F : Type 0) : Type 0 where
  received : WeatherReading F → Requested F
  unreachable unusable crashed : Requested F

module _ {F : Type 0} ⦃f : Float F⦄ where
  open f use {lit, le, lt, round, is_finite, inf, total_seconds}

  unfoldable pub degraded_reading : WeatherSource → String → WeatherReading F
  degraded_reading source conditions = record {
    temperature_c = lit 150 1;
    wind_speed_mps = lit 0 1;
    wind_gust_mps = lit 0 1;
    wind_direction = lit 0 1;
    humidity_percent = lit 500 1;
    conditions = conditions;
    source = source;
    fetched_at = none;
  }

  -- `_age_s`, of a time or of none.
  unfoldable pub age_s : Option ℕ → ℕ → F
  age_s none now = inf
  age_s (some fetched_at) now = total_seconds now fetched_at

  -- `_cache_key`.
  unfoldable pub cache_key : F → F → CacheKey F
  cache_key latitude longitude = (round latitude 2, round longitude 2)

  abbrev pub degrade : Option (WeatherReading F) → WeatherSource → String → WeatherReading F
  degrade none source conditions = degraded_reading source conditions
  degrade (some cached) source conditions = record cached {
    source = cached_stale;
    conditions = concat (conditions ∷ "; using a cached reading" ∷ []);
  }

module _ {F J : Type 0} ⦃f : Float F⦄ (json : Json F J) where
  open f use {lit, is_finite}

  abbrev finite : Converted F → Outcome F
  finite not_a_number = payload_error
  finite overflow = uncaught
  finite (figure x) = if is_finite x then ok x else payload_error

  abbrev numeric : Option J → Outcome F
  numeric none = payload_error
  numeric (some v) = if json.is_null v then payload_error else finite (json.as_float v)

  pub coerce : List (String × J) → String → Outcome F
  coerce current field = numeric (lookup field current)

  -- The gusts are optional: absent or null they are the default.
  abbrev gust_of : Option J → Outcome F
  gust_of none = ok (lit 0 1)
  gust_of (some v) = if json.is_null v then ok (lit 0 1) else finite (json.as_float v)

  -- `now` is the time that the reading is stamped with.
  unfoldable pub parse_current : List (String × J) → ℕ → Outcome (WeatherReading F)
  unfolding coerce
  parse_current [] now = payload_error
  parse_current (entry ∷ entries) now = do
    let current = entry ∷ entries
    temperature ← coerce current "temperature_2m"
    wind ← coerce current "wind_speed_10m"
    direction ← coerce current "wind_direction_10m"
    humidity ← coerce current "relative_humidity_2m"
    gust ← gust_of (lookup "wind_gusts_10m" current)
    ok (record {
      temperature_c = temperature;
      wind_speed_mps = wind;
      wind_gust_mps = gust;
      wind_direction = direction;
      humidity_percent = humidity;
      conditions = "Live meteorological feed";
      source = live;
      fetched_at = some now;
    })

  abbrev pub parsed : Outcome (WeatherReading F) → Requested F
  parsed (ok reading) = received reading
  parsed payload_error = unusable
  parsed uncaught = crashed

  -- One attempt, and what follows an HTTP error, which is the only thing that is tried again.
  abbrev pub attempt : Requested F → ℕ → Exchange J → Requested F
  attempt rest now http_error = rest
  attempt rest now deadline = unreachable
  attempt rest now not_json = unusable
  attempt rest now malformed = crashed
  attempt rest now (answered current) = parsed (parse_current current now)

  -- `_request`: the attempts that may follow the present one, the exchanges still to come, and the
  -- time of parsing. The last error is raised again.
  unfoldable pub request : ℕ → (ℕ → Exchange J) → ℕ → Requested F
  request zero exchanges now = attempt unreachable now (exchanges 0)
  request (suc more) exchanges now =
      attempt (request more (λ k. exchanges (suc k)) now) now (exchanges 0)

-- The times at which one fetch reads the clock: for the TTL, for the stale maximum, on parsing, and on
-- storing.
pub record Instants : Type 0 where
  pub at_fresh_test : ℕ
  pub at_stale_test : ℕ
  pub at_parse : ℕ
  pub at_store : ℕ

-- The configuration of a `WeatherService`; the first attempt is not counted in `more_attempts`.
pub record Service (F : Type 0) : Type 0 where
  pub more_attempts : ℕ
  pub cache_ttl_s : F
  pub stale_max_age_s : F

module _ {F J C : Type 0} ⦃f : Float F⦄ (json : Json F J) (cache : WeatherCache F C)
    (service : Service F) where
  open f use {le, lt}

  abbrev pub is_fresh : WeatherReading F → Instants → Bool
  is_fresh cached t = le (age_s cached.fetched_at t.at_fresh_test) service.cache_ttl_s

  -- What a cached reading is worth in an outage: too old counts as missing.
  abbrev pub usable : Option (WeatherReading F) → Instants → Option (WeatherReading F)
  usable none t = none
  usable (some cached) t =
      if lt service.stale_max_age_s (age_s cached.fetched_at t.at_stale_test)
      then none
      else some cached

  -- `none` is an exception that leaves `fetch`.
  abbrev pub conclude :
      C
      → CacheKey F
      → Option (WeatherReading F)
      → Instants
      → Requested F
      → Option (WeatherReading F × C)
  conclude c key cached t unreachable = some (degrade cached fallback "Live feed unreachable", c)
  conclude c key cached t unusable =
      some (degrade cached error "Live feed returned unusable data", c)
  conclude c key cached t (received reading) = some (reading, cache.store c key reading t.at_store)
  conclude c key cached t crashed = none

  abbrev pub refetch :
      C
      → CacheKey F
      → Option (WeatherReading F)
      → Instants
      → (ℕ → Exchange J)
      → Option (WeatherReading F × C)
  refetch c key cached t exchanges =
      conclude c key (usable cached t) t (request json service.more_attempts exchanges t.at_parse)

  abbrev pub fetch_with :
      C
      → CacheKey F
      → Option (WeatherReading F)
      → Instants
      → (ℕ → Exchange J)
      → Option (WeatherReading F × C)
  fetch_with c key none t exchanges = refetch c key none t exchanges
  fetch_with c key (some cached) t exchanges =
      if is_fresh cached t
      then some (record cached { source = cached_fresh }, c)
      else refetch c key (some cached) t exchanges

  unfoldable pub fetch : C → F → F → Instants → (ℕ → Exchange J) → Option (WeatherReading F × C)
  fetch c latitude longitude t exchanges =
      let key = cache_key latitude longitude in fetch_with c key (cache.load c key) t exchanges

module _ {F : Type 0} ⦃f : Float F⦄ where
  -- `FixtureWeather.fetch`.
  pub fetch_fixture : F → F → WeatherReading F
  fetch_fixture latitude longitude =
      degraded_reading fixture "demo fixture: calm, clear (not observed weather)"

-- The readings of a `MemoryWeatherCache`.
abbrev pub Readings : Type 0 → Type 0
Readings F = List (CacheKey F × WeatherReading F)

module _ {F : Type 0} ⦃f : Float F⦄ where
  open f use {le}

  -- Equality of keys, which is that of floats.
  abbrev pub same_cell : CacheKey F → CacheKey F → Bool
  same_cell (a, b) (c, d) = le a c && le c a && le b d && le d b

  unfoldable pub find : Readings F → CacheKey F → Option (WeatherReading F)
  find [] key = none
  find ((cell, kept) ∷ rest) key = if same_cell cell key then some kept else find rest key

  unfoldable pub put : Readings F → CacheKey F → WeatherReading F → Readings F
  put [] key reading = (key, reading) ∷ []
  put ((cell, kept) ∷ rest) key reading =
      if same_cell cell key then (cell, reading) ∷ rest else (cell, kept) ∷ put rest key reading

  unfoldable pub store : F → Readings F → CacheKey F → WeatherReading F → ℕ → Readings F
  store max_age_s readings key reading now =
      keep_if (λ entry. le (age_s entry.1.fetched_at now) max_age_s) (put readings key reading)

  abbrev pub memory_weather_cache : F → WeatherCache F (Readings F)
  memory_weather_cache max_age_s = record { load = find; store = store max_age_s }
