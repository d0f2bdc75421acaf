-- ===== src/Rag/Manifest.antt =====
-- backend/suas/rag/manifest.py: the documents that may enter the corpus.
use lang_graph_uas.Prelude.{
  Bool, true, false, ◌&&◌, List, [], ◌∷◌, Option, none, some, String, lookup, insert, str_eq, holds,
  if◌then◌else◌, All, Bool-cases, and_lem, inl, inr, ◌≡◌, refl, subst,
}
use mathlib.Core.Option.{some-injective}

abbrev pub allowed_hosts : List String
allowed_hosts =
    "bluelist.dcma.mil" ∷ "diu.mil" ∷ "docs.freeflysystems.com" ∷ "freeflysystems.com"
    ∷ "docs.inspiredflight.com" ∷ "shop.inspiredflight.com" ∷ "www.parrot.com" ∷ "parrot.com"
    ∷ "support.skydio.com" ∷ "www.skydio.com" ∷ "skydio.com" ∷ "tealdrones.com"
    ∷ "www.tealdrones.com" ∷ []

abbrev pub document_kinds : List String
document_kinds = "datasheet" ∷ "blue_list" ∷ "procedure" ∷ "eval_trap" ∷ "eval_fixture" ∷ []

abbrev pub production_forbidden_kinds : List String
production_forbidden_kinds = "eval_trap" ∷ "eval_fixture" ∷ []

pub record ManifestEntry : Type 0 where
  pub path : String
  pub sha256 : String
  pub source_url : String
  pub retrieved_at : String
  pub kind : String
  pub airframe_config_id : Option String
  pub field_path : Option String
  pub license : String

abbrev pub Manifest : Type 0
Manifest = List (String × ManifestEntry)

-- `entry.host`, by `urlparse`, is a parameter.
module _ (host : String → String) where
  abbrev pub is_listed : ManifestEntry → Bool
  is_listed entry = holds entry.kind document_kinds && holds (host entry.source_url) allowed_hosts

  -- The entries of the file that `load_manifest` has read; `none` is a `ManifestError`.
  unfoldable pub load_entries : List ManifestEntry → Manifest → Option Manifest
  load_entries [] entries = some entries
  load_entries (entry ∷ documents) entries =
      let rest = load_entries documents (insert entry.path entry entries) in
      if is_listed entry then rest else none

  -- What the loader promises of an entry.
  abbrev pub IsVouched : String × ManifestEntry → Type 0
  IsVouched (path, entry) =
      (entry.path ≡ path)
      × (holds entry.kind document_kinds ≡ true)
      × (holds (host entry.source_url) allowed_hosts ≡ true)

  insert-IsVouched :
      (path : String) (entry : ManifestEntry) (entries : Manifest)
      → IsVouched (path, entry)
      → All IsVouched entries
      → All IsVouched (insert path entry entries)
  insert-IsVouched path entry [] h all_old = (h, tt)
  insert-IsVouched path entry ((j, old) ∷ entries) h all_old = elim (Bool-cases (str_eq j path)) [
    | inl e ↦ rw e (h, all_old.1)
    | inr e ↦ rw e (all_old.0, insert-IsVouched path entry entries h all_old.1)
  ]

  -- Every entry of a manifest that loads stands under its own path, is of a known kind, and comes from an
  -- allowed host.
  pub load_entries-IsVouched :
      (documents : List ManifestEntry) (entries loaded : Manifest)
      → All IsVouched entries
      → load_entries documents entries ≡ some loaded
      → All IsVouched loaded
  unfolding load_entries
  load_entries-IsVouched [] entries loaded h e = subst (All IsVouched) (some-injective _ _ e) h
  load_entries-IsVouched (entry ∷ documents) entries loaded h e =
      elim (Bool-cases (is_listed entry)) [
        | inl listed ↦
            let both = and_lem _ _ listed in
            load_entries-IsVouched documents (insert entry.path entry entries) loaded
              (insert-IsVouched entry.path entry entries (refl, both.0, both.1) h) (rw listed at e)
        | inr unlisted ↦ let e' = rw unlisted at e in absurd (cc)
      ]

pub data Verdict : Type 0 where
  verified : Verdict
  eval_only : Verdict
  wrong_hash : Verdict

-- `digest` is the SHA-256 of the file's bytes.
unfoldable pub verify : ManifestEntry → String → Bool → Verdict
verify entry digest production =
    if production && holds entry.kind production_forbidden_kinds
    then eval_only
    else if str_eq digest entry.sha256
    then verified
    else wrong_hash

-- A file passes in production only when its kind is not for evaluation and its bytes hash to what the
-- manifest records.
pub verify-verified :
    (entry : ManifestEntry) (digest : String)
    → verify entry digest true ≡ verified
    → (holds entry.kind production_forbidden_kinds ≡ false) × (str_eq digest entry.sha256 ≡ true)
unfolding verify
verify-verified entry digest h = elim (Bool-cases (holds entry.kind production_forbidden_kinds)) [
  | inl forbidden ↦ let h' = rw forbidden at h in absurd (cc)
  | inr allowed ↦ elim (Bool-cases (str_eq digest entry.sha256)) [
    | inl same ↦ (allowed, same)
    | inr other ↦ let h' = rw (allowed, other) at h in absurd (cc)
  ]
]

-- `none` is a `ManifestError`.
unfoldable pub resolve : Manifest → String → Option ManifestEntry
resolve entries path = lookup path entries
