-- ===== src/Rag/Screening.antt =====
-- backend/suas/rag/screening.py: the examination of a text before it may enter the corpus.
use Prim.Native.Char.{code}
use Prim.Native.String.{String}
use lang_graph_uas.Prelude.{
  ℕ, zero, suc, Bool, not, ◌&&◌, ◌||◌, Option, leb, ◌==◌, if◌then◌else◌, is_some, take_chars,
  count_chars, ◌≡◌, refl, ◌≤◌, arith,
}

-- The characters of `INVISIBLE`.
abbrev pub is_invisible : ℕ → Bool
is_invisible c =
    (leb 8203 c && leb c 8207)
    || (leb 8234 c && leb c 8238)
    || (leb 8288 c && leb c 8292)
    || c == 65279

-- `INVISIBLE.sub("", text)`.
unfoldable pub strip_invisible : String → String
strip_invisible String.[] = String.[]
strip_invisible (String.◌∷◌ c s) =
    let rest = strip_invisible s in if is_invisible (code c) then rest else String.◌∷◌ c rest

abbrev pub max_chunk_chars : ℕ
max_chunk_chars = 4000

-- What the module takes from the standard library, with the patterns it gives: NFKC, the removal of
-- tags and of links, `str.strip`, and the first match of `IMPERATIVE`.
pub record Screener : Type 0 where
  pub nfkc : String → String
  pub without_html : String → String
  pub without_links : String → String
  pub strip : String → String
  pub imperative : String → Option String

-- A chunk is quarantined for the pattern that caught it.
pub record ScreenResult : Type 0 where
  pub text : String
  pub caught : Option String

abbrev pub is_clean : ScreenResult → Bool
is_clean r = not (is_some r.caught)

module _ (screener : Screener) where
  open screener use {nfkc, without_html, without_links, strip, imperative}

  unfoldable pub normalise : String → String
  unfolding strip_invisible
  normalise text = strip (without_links (without_html (nfkc (strip_invisible text))))

  unfoldable pub screen_chunk : String → ScreenResult
  unfolding normalise take_chars
  screen_chunk text =
      let cleaned = take_chars max_chunk_chars (normalise text) in
      record { text = cleaned; caught = imperative cleaned }

  count_chars-take_chars : (n : ℕ) (s : String) → count_chars (take_chars n s) ≤ n
  unfolding count_chars take_chars
  count_chars-take_chars zero s = omega arith
  count_chars-take_chars (suc n) String.[] = omega arith
  count_chars-take_chars (suc n) (String.◌∷◌ c s) = omega (arith, count_chars-take_chars n s)

  -- A screened text has at most 4000 characters, and it is clean exactly when the tripwire does not catch
  -- the text that is stored.
  pub screen_chunk_lem :
      (text : String)
      → (count_chars (screen_chunk text).text ≤ max_chunk_chars)
        × ((screen_chunk text).caught ≡ imperative (screen_chunk text).text)
  unfolding screen_chunk
  screen_chunk_lem text = (count_chars-take_chars max_chunk_chars (normalise text), refl)
