-- ===== src/FlightLogs/Import/Rows.antt =====
-- What an import makes of the rows of a file.
use Prim.Native.Nat
use lang_graph_uas.Prelude.{
  ℕ, suc, true, ◌&&◌, List, [], ◌∷◌, Option, none, some, String, length, ltb, sort-perm,
  sort-IsSorted, length-sort, IsSorted, All, All-perm, Bool-cases, and_lem, inl, inr, arith, ◌≡◌,
  refl, subst, ◌≤◌, holds,
}
use lang_graph_uas.Float.{Float}
use lang_graph_uas.FlightLogs.Samples.{FlightLogSample, has_power_figure}
use lang_graph_uas.FlightLogs.Import.{
  Texts, CsvRow, CsvFile, ParsedLog, total_rows, Parsed, parsed, refused, figures_sound, validated,
  with_required, build_row, sorted_row, read_rows, is_earlier, collected, with_header,
  parse_flight_log, max_rows, max_bytes, sample_from,
}

module _ {F : Type 0} ⦃f : Float F⦄ (texts : Texts F) where
  -- A sample has a power figure, and none of its figures is below zero.
  abbrev pub IsValid : FlightLogSample F → Type 0
  IsValid s = (has_power_figure s ≡ true) × (figures_sound texts s ≡ true)

  abbrev AllSome : Option (FlightLogSample F) → Type 0
  AllSome none = Unit
  AllSome (some s) = IsValid s

  validated-AllSome : (s : FlightLogSample F) → AllSome (validated texts s)
  validated-AllSome s = elim (Bool-cases (figures_sound texts s && has_power_figure s)) [
    | inl e ↦ let both = and_lem _ _ e in rw e (both.1, both.0)
    | inr e ↦ rw e tt
  ]

  build_row-AllSome : (row : CsvRow) → AllSome (build_row texts row)
  unfolding build_row
  build_row-AllSome row = at_required (texts.to_time _) _
    where
      at_required : (time : Option ℕ) (alt : Option F) → AllSome (with_required texts time alt row)
      at_required none alt = tt
      at_required (some time) none = tt
      at_required (some time) (some alt) = validated-AllSome (sample_from texts time alt row)

  -- The rows of a file in two parts, the valid samples and a number of others.
  abbrev IsSplit : ℕ → List (FlightLogSample F) × ℕ → Type 0
  IsSplit n (samples, rejected) = (Nat.◌+◌ (length samples) rejected ≡ n) × All IsValid samples

  read_rows-IsSplit : (rows : List CsvRow) → IsSplit (length rows) (read_rows texts rows)
  unfolding read_rows
  read_rows-IsSplit [] = (refl, tt)
  read_rows-IsSplit (row ∷ rows) =
      at_row (build_row texts row) (read_rows texts rows) (build_row-AllSome row)
        (read_rows-IsSplit rows)
    where
      at_row :
          (s : Option (FlightLogSample F)) (rest : List (FlightLogSample F) × ℕ)
          → AllSome s
          → IsSplit (length rows) rest
          → IsSplit (suc (length rows)) (sorted_row texts s rest)
      at_row none (samples, rejected) h r = (omega (arith, r.0), r.1)
      at_row (some s) (samples, rejected) h r = (omega (arith, r.0), (h, r.1))

  -- What a log that is accepted promises of the file's rows.
  pub record IsImport (rows : List CsvRow) (log : ParsedLog F) : Type 0 where
    pub all_counted : total_rows log ≡ length rows
    pub few : length rows ≤ max_rows
    pub some_valid : 1 ≤ length log.samples
    pub all_valid : All IsValid log.samples
    pub in_order : IsSorted (is_earlier texts) log.samples

  abbrev WhenParsed : List CsvRow → Parsed F → Type 0
  WhenParsed rows (parsed log) = IsImport rows log
  WhenParsed rows (refused e) = Unit

  collected-WhenParsed :
      (content : String) (rows : List CsvRow) (r : List (FlightLogSample F) × ℕ)
      → length rows ≤ max_rows
      → IsSplit (length rows) r
      → WhenParsed rows (collected texts content r)
  unfolding total_rows
  collected-WhenParsed content rows ([], rejected) h split = tt
  collected-WhenParsed content rows (s ∷ samples, rejected) h split =
      let earlier = is_earlier texts in
      record {
        all_counted = omega (arith, split.0, length-sort earlier (s ∷ samples));
        few = h;
        some_valid = omega (arith, length-sort earlier (s ∷ samples));
        all_valid = All-perm IsValid (sort-perm earlier (s ∷ samples)) split.1;
        in_order = sort-IsSorted earlier (λ a b e. ground arith) (s ∷ samples);
      }

  with_header-WhenParsed :
      (content : String) (names : Option (List String)) (rows : List CsvRow)
      → WhenParsed rows (with_header texts content names rows)
  with_header-WhenParsed content none rows = tt
  with_header-WhenParsed content (some names) rows =
      elim (Bool-cases (holds "timestamp" names && holds "alt_m" names)) [
        | inl e ↦ elim (Bool-cases (ltb max_rows (length rows))) [
          | inl many ↦ rw (e, many) tt
          | inr few ↦
              rw (e, few)
                (collected-WhenParsed content rows (read_rows texts rows) (ground arith)
                  (read_rows-IsSplit rows))
        ]
        | inr e ↦ rw e tt
      ]

  -- A log that is accepted counts every row of its file, as a sample or as rejected; there are at most
  -- 100000 rows and at least one sample; every sample has a power figure and no figure below zero; and the
  -- samples stand in the order of their times.
  pub parse_flight_log-IsImport :
      (content : String) (csv : CsvFile) (log : ParsedLog F)
      → parse_flight_log texts content csv ≡ parsed log
      → IsImport csv.rows log
  unfolding parse_flight_log
  parse_flight_log-IsImport content csv log e =
      elim (Bool-cases (ltb max_bytes (texts.size content))) [
        | inl large ↦ let e' = rw large at e in absurd (cc)
        | inr small ↦
            subst (WhenParsed csv.rows) (rw small at e)
              (with_header-WhenParsed content csv.fieldnames csv.rows)
      ]
