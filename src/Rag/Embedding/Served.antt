-- ===== src/Rag/Embedding/Served.antt =====
-- backend/suas/rag/embedding.py and rag/provider.py: the vectors that the providers give.
use lang_graph_uas.Prelude.{
  ℕ, zero, suc, ◌≡◌, refl, ap, subst, ◌∙◌, ◌⊎◌, inl, inr, true, false, List, [], ◌∷◌, map, Option,
  none, some, String, length, is_some, is_blank, str_eq, All, Perm, Bool-cases, arith, ◌==◌,
}
use lang_graph_uas.Float.{Float}
use lang_graph_uas.Rag.Words.{Word, find_words}
use lang_graph_uas.Rag.Rows.{Corpus}
use lang_graph_uas.Rag.Retrieve.{Search, products, is_zero, retrieve}
use lang_graph_uas.Rag.Retrieve.Known.{DoesLoad}
use lang_graph_uas.Rag.Retrieve.Returns.{retrieve-is_some}
use lang_graph_uas.Rag.Embedding.{
  Reported, absent, number, below_zero, unreadable, Reply, failed, no_object, object, Embedded,
  vectors, embedding_error, raised, zeros, add_one, counted, normalised, project, hashing_embedder,
  both, read_all, or_raised, of_width, of_reply, http_embed, Settings, build_embedder,
}

length-map : {A B : Type 0} (g : A → B) (xs : List A) → length (map g xs) ≡ length xs
length-map g [] = refl
length-map g (x ∷ xs) = ap suc (length-map g xs)

module _ (F : Type 0) ⦃f : Float F⦄ where
  length-zeros : (n : ℕ) → length {A = F} (zeros n) ≡ n
  length-zeros zero = refl
  length-zeros (suc n) = ap suc (length-zeros n)

  length-add_one : (n : ℕ) (xs : List F) → length (add_one n xs) ≡ length xs
  length-add_one zero [] = refl
  length-add_one (suc n) [] = refl
  length-add_one zero (x ∷ xs) = refl
  length-add_one (suc n) (x ∷ xs) = ap suc (length-add_one n xs)

  length-counted :
      (hash : Word → ℕ) (dimension : ℕ) (tokens : List Word) (vector : List F)
      → length (counted hash dimension tokens vector) ≡ length vector
  length-counted hash dimension [] vector = refl
  length-counted hash dimension (token ∷ tokens) vector =
      length-counted hash dimension tokens _ ∙ length-add_one _ vector

  length-normalised :
      (hash : Word → ℕ) (dimension : ℕ) (vector : List F)
      → length (normalised hash dimension vector) ≡ length vector
  length-normalised hash dimension vector =
      elim (Bool-cases (is_zero (f.sqrt (f.sum (products vector vector))))) [
        | inl e ↦ rw e refl
        | inr e ↦ rw e (length-map _ vector)
      ]

  length-project :
      (hash : Word → ℕ) (dimension : ℕ) (text : String)
      → length {A = F} (project hash dimension text) ≡ dimension
  unfolding project
  length-project hash dimension text =
      length-normalised hash dimension (counted hash dimension (find_words text) (zeros dimension))
      ∙ length-counted hash dimension (find_words text) (zeros dimension)
      ∙ length-zeros dimension

module _ {F : Type 0} where
  -- One vector for each text, all of one width.
  abbrev IsFilled : ℕ → List String → List (List F) → Type 0
  IsFilled dimension texts vs = (length vs ≡ length texts) × All (λ v. length v ≡ dimension) vs

module _ (F : Type 0) ⦃f : Float F⦄ where
  project-IsFilled :
      (hash : Word → ℕ) (dimension : ℕ) (texts : List String)
      → IsFilled dimension texts (map (project {F = F} hash dimension) texts)
  project-IsFilled hash dimension [] = (refl, tt)
  project-IsFilled hash dimension (text ∷ texts) =
      let (same, all) = project-IsFilled hash dimension texts in
      (ap suc same, (length-project F hash dimension text, all))

module _ {F : Type 0} ⦃f : Float F⦄ {V : Type 0} (hash : Word → ℕ) (numeral : ℕ → String)
    (floats : V → Option (List F)) (post : String → List String → Reply V) (s : Settings) where
  -- No service is configured.
  abbrev IsLocal : Type 0
  IsLocal = (str_eq s.embedding_provider "http" ≡ false) ⊎ (is_blank s.embedding_url ≡ true)

  local_lem :
      IsLocal
      → build_embedder hash numeral floats post s
        ≡ hashing_embedder hash numeral s.embedding_dimension
  unfolding build_embedder
  local_lem (inl e) = rw e refl
  local_lem (inr e) = elim (Bool-cases (str_eq s.embedding_provider "http")) [
    | inl h ↦ rw (h, e) refl
    | inr h ↦ rw h refl
  ]

  -- Where no service is configured, or one with no URL, the provider that is taken embeds any texts, with
  -- a vector of the configured width for each of them.
  build_embedder_lem :
      (texts : List String)
      → IsLocal
      → (vs : List (List F)) × ((build_embedder hash numeral floats post s).embed texts ≡ some vs)
        × IsFilled s.embedding_dimension texts vs
  build_embedder_lem texts local = (
    map (project hash s.embedding_dimension) texts,
    rw (local_lem local) refl,
    project-IsFilled F hash s.embedding_dimension texts,
  )

  -- Where no service is configured, or one with no URL, a search with the provider that is taken returns,
  -- whatever the corpus holds, provided that the stored vectors load and that a set is walked through in
  -- some order of its texts.
  pub build_embedder-retrieve :
      (arrange : List String → List String) (loads : String → Option (List F)) (search : Search)
      (corpus : Corpus)
      → ((texts : List String) → Perm (arrange texts) texts)
      → All (DoesLoad loads) corpus.chunks
      → IsLocal
      → is_some (retrieve arrange loads (build_embedder hash numeral floats post s) search corpus)
        ≡ true
  build_embedder-retrieve arrange loads search corpus rearranges h local =
      let embeds : (build_embedder hash numeral floats post s).embed (search.query ∷ [])
          ≡ some (project hash s.embedding_dimension search.query ∷ []) =
        ap (λ e. e.embed (search.query ∷ [])) (local_lem local) in
      retrieve-is_some arrange rearranges loads (build_embedder hash numeral floats post s) search
        corpus h embeds

module _ {F : Type 0} ⦃f : Float F⦄ {V : Type 0} (floats : V → Option (List F)) (dimension : ℕ)
    (post : List String → Reply V) where
  -- The vectors that a call gives are as many as it was asked for.
  abbrev IsCounted : ℕ → Embedded F → Type 0
  IsCounted asked (vectors vs) = length vs ≡ asked
  IsCounted asked embedding_error = Unit
  IsCounted asked raised = Unit

  both-IsCounted :
      (n : ℕ) (o : Option (List F)) (rest : Option (List (List F)))
      → IsCounted n (or_raised rest)
      → IsCounted (suc n) (or_raised (both o rest))
  both-IsCounted n none rest h = tt
  both-IsCounted n (some x) none h = tt
  both-IsCounted n (some x) (some xs) h = ap suc h

  read_all-IsCounted : (vs : List V) → IsCounted (length vs) (or_raised (read_all floats vs))
  read_all-IsCounted [] = refl
  read_all-IsCounted (v ∷ vs) =
      both-IsCounted (length vs) (floats v) (read_all floats vs) (read_all-IsCounted vs)

  of_width-IsCounted :
      (vs : List V) (reported : Reported)
      → IsCounted (length vs) (of_width floats dimension vs reported)
  of_width-IsCounted vs absent = read_all-IsCounted vs
  of_width-IsCounted vs (number n) = elim (Bool-cases (n == dimension)) [
    | inl e ↦ rw e (read_all-IsCounted vs)
    | inr e ↦ rw e tt
  ]
  of_width-IsCounted vs below_zero = tt
  of_width-IsCounted vs unreadable = tt

  of_reply-IsCounted :
      (asked : ℕ) (reply : Reply V) → IsCounted asked (of_reply floats dimension asked reply)
  of_reply-IsCounted asked failed = tt
  of_reply-IsCounted asked no_object = tt
  of_reply-IsCounted asked (object none reported) = tt
  of_reply-IsCounted asked (object (some vs) reported) = elim (Bool-cases (length vs == asked)) [
    | inl e ↦ rw e (
        subst (λ n. IsCounted n (of_width floats dimension vs reported)) (same (length vs) e)
          (of_width-IsCounted vs reported))
    | inr e ↦ rw e tt
  ]
    where
      same : (n : ℕ) → (n == asked) ≡ true → n ≡ asked
      same n e = ground arith

  -- Whatever the service answers, a call that gives vectors gives one for each text.
  http_embed-IsCounted :
      (texts : List String) → IsCounted (length texts) (http_embed floats dimension post texts)
  unfolding http_embed
  http_embed-IsCounted [] = refl
  http_embed-IsCounted (text ∷ texts) = of_reply-IsCounted _ (post (text ∷ texts))
