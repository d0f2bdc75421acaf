-- ===== src/Api/Security.antt =====
-- backend/suas/api/security.py and key_overlap.py: which operator a request comes from.
pub mod Laws
use lang_graph_uas.Prelude.{
  ℕ, Bool, true, false, ◌&&◌, List, [], ◌∷◌, Option, none, some, String, str_eq, is_blank, is_some,
  ltb, lookup, insert, or_else, if◌then◌else◌, concat,
}

-- A key that is still accepted until a time, for an operator.
pub record RetiredKey : Type 0 where
  pub operator_id : String
  pub key : String
  pub expires_at : ℕ

pub record Settings : Type 0 where
  pub auth_enabled : Bool
  pub operator_keys : List (String × String)
  pub retired_keys : List RetiredKey
  pub session_key_secret : String

-- Digests, and the text patterns of keys and addresses, as parameters: SHA-256 of a key, the key of a
-- session under a secret, the digest that names a session, the session id that a text of the form of a
-- session key holds, and the canonical address of a text.
pub record Digests : Type 0 where
  pub key_hash : String → String
  pub session_key : String → String → String
  pub session_digest : String → String
  pub session_id : String → Option String
  pub canonical : String → Option String

-- Python's loop that keeps the last match.
module _ {A : Type 0} (matches : A → Bool) where
  unfoldable pub last_match : Option A → List A → Option A
  last_match found [] = found
  last_match found (x ∷ xs) = last_match (if matches x then some x else found) xs

abbrev pub first_of : Option (String × String) → Option String
first_of none = none
first_of (some (id, key)) = some id

unfoldable pub operator_for : String → List (String × String) → Option String
operator_for presented operator_keys =
    first_of (last_match (λ entry. str_eq presented entry.1) none operator_keys)

unfoldable pub unexpired_retired_key : String → List RetiredKey → ℕ → Option RetiredKey
unexpired_retired_key presented retired now =
    last_match (λ entry. str_eq presented entry.key && ltb now entry.expires_at) none retired

-- What the request is let in as: nobody in particular, with authentication off; an operator; or not.
pub data Access : Type 0 where
  anonymous unauthorized : Access
  operator : String → Access

module _ (d : Digests) where
  -- An address that is missing is in no set.
  abbrev pub is_in : List String → Option String → Bool
  is_in trusted none = false
  is_in trusted (some address) = is_some (lookup address (pairs trusted))
    where
      pairs : List String → List (String × Bool)
      pairs [] = []
      pairs (x ∷ xs) = (x, true) ∷ pairs xs

  -- The last hop that is not a trusted proxy, if any is: its address, or none where it is no address.
  unfoldable pub last_untrusted : List String → List String → Option (Option String)
  last_untrusted trusted [] = none
  last_untrusted trusted (hop ∷ hops) =
      let after = last_untrusted trusted hops in
      elim after [
        | some address ↦ some address
        | none ↦ if is_in trusted (d.canonical hop) then none else some (d.canonical hop)
      ]

  -- `peer` is the canonical address of the connection, and `hops` what the header lists.
  unfoldable pub client_ip : Option String → List String → List String → Option String
  client_ip peer hops trusted =
      if is_in trusted peer then or_else (last_untrusted trusted hops) peer else peer

  abbrev seen_from : String → Option String → List (String × String) → List (String × String)
  seen_from key none last_seen = last_seen
  seen_from key (some ip) last_seen = insert (d.key_hash key) ip last_seen

  unfoldable pub record_key_use :
      String → Option String → List (String × String) → List (String × String)
  record_key_use key ip last_seen = seen_from key ip last_seen

  unfoldable pub last_ip : String → List (String × String) → Option String
  last_ip key last_seen = lookup (d.key_hash key) last_seen

  -- `last_ip != ip`, of two addresses that may be missing.
  abbrev pub same_ip : Option String → Option String → Bool
  same_ip (some a) (some b) = str_eq a b
  same_ip none none = true
  same_ip _ _ = false

  abbrev pub by_retired :
      String → Option String → List (String × String) → Option RetiredKey → Option String
  by_retired presented ip last_seen none = none
  by_retired presented none last_seen (some entry) = none
  by_retired presented (some ip) last_seen (some entry) =
      if same_ip (last_ip presented last_seen) (some ip) then some entry.operator_id else none

  abbrev pub by_current :
      String
      → ℕ
      → Option String
      → List RetiredKey
      → List (String × String)
      → Option String
      → Option String × List (String × String)
  by_current presented now ip retired last_seen (some id) =
      (some id, record_key_use presented ip last_seen)
  by_current presented now ip retired last_seen none =
      (by_retired presented ip last_seen (unexpired_retired_key presented retired now), last_seen)

  unfoldable pub direct_key_operator :
      String
      → Settings
      → ℕ
      → Option String
      → List (String × String)
      → Option String × List (String × String)
  direct_key_operator presented settings now ip last_seen =
      by_current presented now ip settings.retired_keys last_seen
        (operator_for presented settings.operator_keys)

  abbrev pub by_session : String → String → Option String → Option String
  by_session presented secret none = none
  by_session presented secret (some id) =
      if str_eq presented (d.session_key secret id)
      then some (concat ("session:" ∷ d.session_digest id ∷ []))
      else none

  unfoldable pub session_operator : String → String → Option String
  session_operator presented secret =
      if is_blank secret then none else by_session presented secret (d.session_id presented)

  abbrev pub let_in : Option String × List (String × String) → Access × List (String × String)
  let_in (none, last_seen) = (unauthorized, last_seen)
  let_in (some id, last_seen) = (operator id, last_seen)

  abbrev pub by_key :
      Option String
      → Settings
      → ℕ
      → Option String
      → List (String × String)
      → Option String
      → Access × List (String × String)
  by_key key settings now ip last_seen (some id) = (operator id, last_seen)
  by_key none settings now ip last_seen none = (unauthorized, last_seen)
  by_key (some key) settings now ip last_seen none =
      let_in (direct_key_operator key settings now ip last_seen)

  -- `key` is the header, and `ip` the address of the client.
  unfoldable pub require_api_key :
      Option String
      → Settings
      → ℕ
      → Option String
      → List (String × String)
      → Access × List (String × String)
  require_api_key key settings now ip last_seen =
      if settings.auth_enabled
      then by_key key settings now ip last_seen
          (session_operator (or_else key "") settings.session_key_secret)
      else (anonymous, last_seen)
