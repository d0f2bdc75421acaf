-- ===== src/Rag/Embedding.antt =====
-- backend/suas/rag/embedding.py and rag/provider.py: the providers of vectors, and which is taken.
pub mod Served
use lang_graph_uas.Prelude.{
  ℕ, zero, suc, Bool, true, false, not, ◌&&◌, List, [], ◌∷◌, map, Option, none, some, String,
  length, is_empty, is_blank, str_eq, ◌==◌, concat, if◌then◌else◌,
}
use Prim.Native.Nat.{◌%◌}
use lang_graph_uas.Float.{Float, zero_f}
use lang_graph_uas.Rag.Words.{Word, find_words}
use lang_graph_uas.Rag.Retrieve.{EmbeddingProvider, products, is_zero}

-- What `body.get("dimension", ...)` and `int` make of the body of an answer.
pub data Reported : Type 0 where
  absent : Reported
  number : ℕ → Reported
  below_zero : Reported
  unreadable : Reported

-- What a call of the service comes to: an error of HTTP or of JSON, a body that is no object, or an
-- object with what stands under `embeddings`, which is `none` where that is no list.
pub data Reply (V : Type 0) : Type 0 where
  failed : Reply V
  no_object : Reply V
  object : Option (List V) → Reported → Reply V

-- The result of an `embed`: the vectors, an `EmbeddingError`, or another exception.
pub data Embedded (F : Type 0) : Type 0 where
  vectors : List (List F) → Embedded F
  embedding_error : Embedded F
  raised : Embedded F

module _ {F : Type 0} where
  abbrev pub vectors_of : Embedded F → Option (List (List F))
  vectors_of (vectors vs) = some vs
  vectors_of embedding_error = none
  vectors_of raised = none

module _ {F : Type 0} ⦃f : Float F⦄ where
  open f use {lit, ◌+◌, ◌*◌, ◌/◌, sqrt, sum}

  infixl 65 ◌+◌
  infixl 70 ◌/◌
  abbrev pub zeros : ℕ → List F
  zeros zero = []
  zeros (suc n) = zero_f ∷ zeros n

  -- `vector[bucket] += 1.0`.
  abbrev pub add_one : ℕ → List F → List F
  add_one n [] = []
  add_one zero (x ∷ xs) = (x + lit 10 1) ∷ xs
  add_one (suc n) (x ∷ xs) = x ∷ add_one n xs

  -- `hash` is the number of the first four bytes of the SHA-256 of a word.
  module _ (hash : Word → ℕ) (dimension : ℕ) where
    abbrev pub counted : List Word → List F → List F
    counted [] vector = vector
    counted (token ∷ tokens) vector = counted tokens (add_one (hash token % dimension) vector)

    abbrev pub normalised : List F → List F
    normalised vector =
        let magnitude = sqrt (sum (products vector vector)) in
        if is_zero magnitude then vector else map (λ value. value / magnitude) vector

    unfoldable pub project : String → List F
    project text = normalised (counted (find_words text) (zeros dimension))

  -- A `HashingEmbedder`. `numeral` is the text of a number. The width is not 0, which is a division by 0
  -- at the first word: the configuration admits 8 to 4096.
  abbrev pub hashing_embedder : (Word → ℕ) → (ℕ → String) → ℕ → EmbeddingProvider F
  hashing_embedder hash numeral dimension = record {
    model_id = concat ("hashing-v1-" ∷ numeral dimension ∷ []);
    dimension = dimension;
    embed = λ texts. some (map (project hash dimension) texts);
  }

  abbrev pub both : Option (List F) → Option (List (List F)) → Option (List (List F))
  both none rest = none
  both (some vector) none = none
  both (some vector) (some rest) = some (vector ∷ rest)

  -- `[[float(value) for value in vector] for vector in vectors]`, where `floats` reads one vector.
  abbrev pub read_all : {V : Type 0} → (V → Option (List F)) → List V → Option (List (List F))
  read_all floats [] = some []
  read_all floats (v ∷ vs) = both (floats v) (read_all floats vs)

  abbrev pub or_raised : Option (List (List F)) → Embedded F
  or_raised none = raised
  or_raised (some vs) = vectors vs

  module _ {V : Type 0} (floats : V → Option (List F)) (dimension : ℕ) where
    abbrev pub of_width : List V → Reported → Embedded F
    of_width vs absent = or_raised (read_all floats vs)
    of_width vs (number reported) =
        if reported == dimension then or_raised (read_all floats vs) else embedding_error
    of_width vs below_zero = embedding_error
    of_width vs unreadable = raised

    abbrev pub of_reply : ℕ → Reply V → Embedded F
    of_reply asked failed = embedding_error
    of_reply asked no_object = raised
    of_reply asked (object none reported) = embedding_error
    of_reply asked (object (some vs) reported) =
        if length vs == asked then of_width vs reported else embedding_error

    -- The `embed` of an `HttpEmbedder`; `post` is the call of the service.
    unfoldable pub http_embed : (List String → Reply V) → List String → Embedded F
    http_embed post [] = vectors []
    http_embed post (text ∷ texts) = of_reply (length (text ∷ texts)) (post (text ∷ texts))

  abbrev pub http_embedder :
      {V : Type 0}
      → (V → Option (List F))
      → (List String → Reply V)
      → String
      → ℕ
      → EmbeddingProvider F
  http_embedder floats post model_id dimension = record {
    model_id = model_id;
    dimension = dimension;
    embed = λ texts. vectors_of (http_embed floats dimension post texts);
  }

-- The settings that `build_embedder` reads.
pub record Settings : Type 0 where
  pub embedding_provider : String
  pub embedding_url : String
  pub embedding_model_id : String
  pub embedding_dimension : ℕ

module _ {F : Type 0} ⦃f : Float F⦄ {V : Type 0} (hash : Word → ℕ) (numeral : ℕ → String)
    (floats : V → Option (List F)) (post : String → List String → Reply V) where
  -- `post` calls the service at a URL.
  unfoldable pub build_embedder : Settings → EmbeddingProvider F
  build_embedder s =
      let hashing = hashing_embedder hash numeral s.embedding_dimension in
      if str_eq s.embedding_provider "http"
      then if is_blank s.embedding_url
        then hashing
        else http_embedder floats (post s.embedding_url) s.embedding_model_id s.embedding_dimension
      else hashing
