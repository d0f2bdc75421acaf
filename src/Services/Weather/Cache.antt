-- ===== src/Services/Weather/Cache.antt =====
-- The cache of one process: what a store keeps, and what it drops.
use lang_graph_uas.Prelude.{ℕ, ◌≡◌, Bool, true, [], ◌∷◌, some, arith, keep_if}
use lang_graph_uas.Float.{Float}
use lang_graph_uas.Schemas.Responses.{WeatherReading}
use lang_graph_uas.Services.Weather.{CacheKey, Readings, same_cell, find, put, store, age_s}

module _ {F : Type 0} ⦃f : Float F⦄ where
  open f use {le}

  abbrev pub is_kept : F → ℕ → CacheKey F × WeatherReading F → Bool
  is_kept max_age_s now entry = le (age_s entry.1.fetched_at now) max_age_s

  find-put :
      (readings : Readings F) (key : CacheKey F) (r : WeatherReading F)
      → same_cell key key ≡ true
      → find (put readings key r) key ≡ some r
  unfolding find put
  find-put [] key r e = rw e
  find-put ((cell, kept) ∷ rest) key r e = ground (arith, find-put rest key r e)

  find-keep_if :
      (p : CacheKey F × WeatherReading F → Bool) (readings : Readings F) (key : CacheKey F)
      (r : WeatherReading F)
      → ((cell : CacheKey F) → p (cell, r) ≡ true)
      → find readings key ≡ some r
      → find (keep_if p readings) key ≡ some r
  unfolding find
  find-keep_if p [] key r h e = absurd (cc)
  find-keep_if p ((cell, kept) ∷ rest) key r h e =
      ground (arith, h cell, find-keep_if p rest key r h)

  -- A reading that is not past the greatest age is what its cell gives once it has been stored, where
  -- the key equals itself, which a NaN does not.
  find-store :
      (max_age_s : F) (readings : Readings F) (key : CacheKey F) (r : WeatherReading F) (now : ℕ)
      → same_cell key key ≡ true
      → le (age_s r.fetched_at now) max_age_s ≡ true
      → find (store max_age_s readings key r now) key ≡ some r
  unfolding store
  find-store max_age_s readings key r now e young =
      find-keep_if (is_kept max_age_s now) (put readings key r) key r (λ cell. young)
        (find-put readings key r e)
