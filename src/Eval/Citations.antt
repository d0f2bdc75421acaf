-- ===== src/Eval/Citations.antt =====
-- backend/suas/eval/citation_checks.py: whether a quoted span stands in the chunk that it cites.
use lang_graph_uas.Prelude.{
  ℕ, suc, Bool, true, false, ◌&&◌, ◌||◌, List, [], ◌∷◌, ◌++◌, Option, none, some, String, length,
  leb, ◌==◌, lookup, has_key, holds, is_empty, str_eq, if◌then◌else◌, Bool-cases, and_lem, inl, inr,
  arith, ◌≡◌, refl, ap, ◌↔◌,
}
use lang_graph_uas.Float.{Float, zero_f}
use lang_graph_uas.Graph.State.{Patterns}
use lang_graph_uas.Graph.Seal.{unsupported_numerics}
use lang_graph_uas.Rag.Words.{Word, codes}

pub record CitedSpan : Type 0 where
  pub chunk_id : String
  pub quote : String

-- The characters at which `str.split` splits.
abbrev pub is_space : ℕ → Bool
is_space c =
    (leb 9 c && leb c 13)
    || (leb 28 c && leb c 32)
    || c == 133
    || c == 160
    || c == 5760
    || (leb 8192 c && leb c 8202)
    || c == 8232
    || c == 8233
    || c == 8239
    || c == 8287
    || c == 12288

-- `" ".join(text.split())`. `due` says that something stands before and a space is to follow it.
unfoldable pub collapse : Bool → Bool → Word → Word
collapse started due [] = []
collapse started due (c ∷ cs) = elim (is_space c) [
  | true ↦ collapse started started cs
  | false ↦ if due then 32 ∷ c ∷ collapse true false cs else c ∷ collapse true false cs
]

-- `unicodedata.normalize("NFKC", text)` is a parameter.
unfoldable pub normalise_whitespace : (String → String) → String → Word
unfolding collapse
normalise_whitespace nfkc text = collapse false false (codes (nfkc text))

-- `quote in text` of texts.
abbrev pub starts_with : Word → Word → Bool
starts_with [] text = true
starts_with (q ∷ qs) [] = false
starts_with (q ∷ qs) (c ∷ cs) = q == c && starts_with qs cs

abbrev pub stands_in : Word → Word → Bool
stands_in quote [] = is_empty quote
stands_in quote (c ∷ cs) = starts_with quote (c ∷ cs) || stands_in quote cs

unfoldable pub quote_verbatim : (String → String) → CitedSpan → String → Bool
quote_verbatim nfkc span chunk_text =
    stands_in (normalise_whitespace nfkc span.quote) (normalise_whitespace nfkc chunk_text)

unfoldable pub citation_resolves : CitedSpan → List (String × String) → Bool
citation_resolves span chunks_by_id = has_key span.chunk_id chunks_by_id

abbrev equal_if : Option String → String → Bool
equal_if none config = false
equal_if (some owner) config = str_eq owner config

unfoldable pub citation_belongs_to_config : CitedSpan → List (String × String) → String → Bool
citation_belongs_to_config span config_by_chunk config =
    equal_if (lookup span.chunk_id config_by_chunk) config

unfoldable pub url_allowlisted : String → List String → Bool
url_allowlisted url document_urls = holds url document_urls

module _ {F : Type 0} ⦃f : Float F⦄ (patterns : Patterns F) where
  unfoldable pub sealed_contamination : String → String → List String
  sealed_contamination prose supporting_text = unsupported_numerics patterns prose supporting_text

  unfoldable pub bad_briefs : List (String × String) → ℕ
  bad_briefs [] = 0
  bad_briefs ((prose, supporting) ∷ briefs) =
      let rest = bad_briefs briefs in
      if is_empty (sealed_contamination prose supporting) then rest else suc rest

  unfoldable pub unsupported_numeric_rate : List (String × String) → F
  unfolding bad_briefs
  unsupported_numeric_rate briefs =
      if is_empty briefs
      then zero_f
      else f.◌/◌ (f.lit (bad_briefs briefs) 0) (f.lit (length briefs) 0)

starts_with-split :
    (quote text : Word) → starts_with quote text ≡ true → (rest : Word) × (text ≡ quote ++ rest)
starts_with-split [] text h = (text, refl)
starts_with-split (q ∷ qs) [] h = absurd (cc)
starts_with-split (q ∷ qs) (c ∷ cs) h =
    let both = and_lem (q == c) (starts_with qs cs) h in
    let tail = starts_with-split qs cs both.1 in
    let same : q ≡ c = ground arith in (tail.0, rw (same, tail.1) refl)

starts_with-append : (quote rest : Word) → starts_with quote (quote ++ rest) ≡ true
starts_with-append [] rest = refl
starts_with-append (q ∷ qs) rest = ground (arith, starts_with-append qs rest)

stands_in-split :
    (quote text : Word)
    → stands_in quote text ≡ true
    → (before : Word) × ((after : Word) × (text ≡ before ++ (quote ++ after)))
stands_in-split [] [] h = ([], ([], refl))
stands_in-split (q ∷ qs) [] h = absurd (cc)
stands_in-split quote (c ∷ cs) h = elim (Bool-cases (starts_with quote (c ∷ cs))) [
  | inl e ↦ let s = starts_with-split quote (c ∷ cs) e in ([], s)
  | inr e ↦ let s = stands_in-split quote cs (rw e at h) in (c ∷ s.0, (s.1.0, ap (◌∷◌ c) s.1.1))
]

stands_in-append : (quote before after : Word) → stands_in quote (before ++ (quote ++ after)) ≡ true
stands_in-append [] [] [] = refl
stands_in-append [] [] (c ∷ cs) = refl
stands_in-append (q ∷ qs) [] after = rw (starts_with-append (q ∷ qs) after) refl
stands_in-append quote (c ∷ before) after =
    or_last (starts_with quote (c ∷ (before ++ (quote ++ after))))
      (stands_in-append quote before after)
  where
    or_last : (a : Bool) {b : Bool} → b ≡ true → (a || b) ≡ true
    or_last a h = ground arith

-- A quote is verbatim exactly when the normalised text of the chunk is some text, the normalised quote,
-- and some more text.
pub quote_verbatim_iff :
    (nfkc : String → String) (span : CitedSpan) (chunk_text : String)
    → (quote_verbatim nfkc span chunk_text ≡ true) ↔ (
        (before : Word) × ((after : Word) × (normalise_whitespace nfkc chunk_text
            ≡ before ++ (normalise_whitespace nfkc span.quote ++ after))))
unfolding quote_verbatim
quote_verbatim_iff nfkc span chunk_text = (
  λ h. stands_in-split _ _ h,
  λ s. rw s.1.1 (stands_in-append (normalise_whitespace nfkc span.quote) s.0 s.1.0),
)
