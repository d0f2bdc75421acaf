-- ===== src/Rag/Words.antt =====
-- backend/suas/rag/retrieve.py: the words of a text, and the words that can carry evidence.
use Prim.Native.Char.{code}
use Prim.Native.String.{String}
use lang_graph_uas.Prelude.{
  ℕ, Bool, true, false, not, ◌&&◌, ◌||◌, List, [], ◌∷◌, ◌++◌, map, any, keep_if, is_empty, leb,
  ◌==◌, if◌then◌else◌,
}
use Prim.Native.Nat.{◌+◌}

-- A word is the list of the code points of its characters.
abbrev pub Word : Type 0
Word = List ℕ

abbrev pub codes : String → Word
codes String.[] = []
codes (String.◌∷◌ c s) = code c ∷ codes s

abbrev pub same_word : Word → Word → Bool
same_word [] [] = true
same_word (x ∷ xs) (y ∷ ys) = x == y && same_word xs ys
same_word _ _ = false

abbrev pub has_word : Word → List Word → Bool
has_word w ws = any (λ other. same_word other w) ws

-- `str.lower` as far as the pattern can tell. Apart from the capitals A to Z, only two characters of
-- Unicode have a letter or a digit of the pattern in their lower case: the Kelvin sign, which gives
-- `k`, and the dotted capital I, which gives `i` and a combining dot.
abbrev lower : ℕ → List ℕ
lower c =
    if leb b'A' c && leb c b'Z'
    then (c + 32) ∷ []
    else if c == 8490
    then b'k' ∷ []
    else if c == 304
    then b'i' ∷ 775 ∷ []
    else c ∷ []

abbrev pub lowered : Word → Word
lowered [] = []
lowered (c ∷ cs) = lower c ++ lowered cs

-- `[a-z0-9]`.
abbrev pub is_word_char : ℕ → Bool
is_word_char c = (leb b'a' c && leb c b'z') || (leb b'0' c && leb c b'9')

-- A run that has ended is a word, unless it is empty.
abbrev ended : Word → List Word → List Word
ended run words = if is_empty run then words else run ∷ words

-- The longest runs of such characters, `run` being the one under way.
unfoldable pub runs : Word → Word → List Word
runs run [] = ended run []
runs run (c ∷ cs) = elim (is_word_char c) [
  | true ↦ runs (run ++ (c ∷ [])) cs
  | false ↦ ended run (runs [] cs)
]

unfoldable pub find_words : String → List Word
unfolding runs
find_words text = runs [] (lowered (codes text))

-- A set is a list in which no word stands twice.
unfoldable pub set_of : List Word → List Word
set_of [] = []
set_of (w ∷ ws) = let rest = set_of ws in if has_word w rest then rest else w ∷ rest

abbrev pub intersection : List Word → List Word → List Word
intersection xs ys = keep_if (λ w. has_word w ys) xs

abbrev pub filler : List Word
filler = map codes (
    "a" ∷ "an" ∷ "and" ∷ "are" ∷ "at" ∷ "be" ∷ "before" ∷ "can" ∷ "does" ∷ "do" ∷ "for" ∷ "from"
    ∷ "has" ∷ "have" ∷ "how" ∷ "i" ∷ "in" ∷ "is" ∷ "it" ∷ "its" ∷ "many" ∷ "much" ∷ "must" ∷ "of"
    ∷ "on" ∷ "or" ∷ "should" ∷ "that" ∷ "the" ∷ "this" ∷ "to" ∷ "was" ∷ "what" ∷ "when" ∷ "where"
    ∷ "which" ∷ "will" ∷ "with" ∷ "did" ∷ [])

abbrev pub qualifier : List Word
qualifier = map codes (
    "maximum" ∷ "minimum" ∷ "max" ∷ "min" ∷ "highest" ∷ "lowest" ∷ "operating" ∷ "rate" ∷ "rated"
    ∷ "published" ∷ "limit" ∷ "limits" ∷ "total" ∷ "standard" ∷ "aircraft" ∷ "airframe" ∷ "this"
    ∷ "handle" ∷ "hold" ∷ [])

unfoldable pub content_terms : String → List Word
unfolding find_words set_of
content_terms text = set_of (keep_if (λ w. not (has_word w filler)) (find_words text))

unfoldable pub subject_terms : String → List Word
unfolding content_terms
subject_terms text = keep_if (λ w. not (has_word w qualifier)) (content_terms text)

abbrev is_not_empty : List Word → Bool
is_not_empty ws = not (is_empty ws)

unfoldable pub shares_content : String → String → Bool
unfolding subject_terms content_terms
shares_content query text =
    let query_subjects = subject_terms query in
    if is_empty query_subjects
    then is_not_empty (intersection (content_terms query) (content_terms text))
    else is_not_empty (intersection query_subjects (subject_terms text))
