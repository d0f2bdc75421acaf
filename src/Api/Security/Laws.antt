-- ===== src/Api/Security/Laws.antt =====
-- What a request that is let in has shown.
use lang_graph_uas.Prelude.{
  ℕ, ◌≡◌, ◌<◌, refl, sym, ap, subst, inl, inr, ◌⊎◌, Bool, true, false, ◌&&◌, List, [], ◌∷◌, ◌++◌,
  Option, none, some, String, arith, str_eq, is_blank, ltb, ltb→lt, or_else, Any, Bool-cases,
  and_lem, concat, if◌then◌else◌,
}
use mathlib.Core.Option.{some-injective}
use text.Mathlib.TextEquality.{eq_iff}
use lang_graph_uas.Api.Security.{
  RetiredKey, Settings, Digests, Access, anonymous, unauthorized, operator, last_match,
  operator_for, unexpired_retired_key, record_key_use, last_ip, same_ip, by_retired, by_current,
  direct_key_operator, by_session, session_operator, by_key, require_api_key, first_of, let_in,
  is_in, last_untrusted, client_ip,
}

module _ {A : Type 0} (matches : A → Bool) where
  last_match_lem :
      (found : Option A) (xs : List A) (x : A)
      → last_match matches found xs ≡ some x
      → (found ≡ some x) ⊎ (Any (λ y. y ≡ x) xs × (matches x ≡ true))
  unfolding last_match
  last_match_lem found [] x e = inl e
  last_match_lem found (y ∷ ys) x e =
      elim (last_match_lem (if matches y then some y else found) ys x e) [
        | inr (any, m) ↦ inr (inr any, m)
        | inl h ↦ elim (Bool-cases (matches y)) [
          | inr q ↦ inl (rw q at h)
          | inl q ↦
              let is : y ≡ x = some-injective _ _ (rw q at h) in
              inr (inl is, subst (λ z. matches z ≡ true) is q)
        ]
      ]

  last_match-none :
      (xs : List A) (x : A)
      → last_match matches none xs ≡ some x
      → Any (λ y. y ≡ x) xs × (matches x ≡ true)
  last_match-none xs x e = elim (last_match_lem none xs x e) [ inl h ↦ absurd (cc) | inr h ↦ h ]

abbrev pub Seen : Type 0
Seen = List (String × String)

module _ (d : Digests) (settings : Settings) (now : ℕ) (ip : Option String) (seen : Seen) where
  -- The three ways to be an operator: with a current key, whose address is noted; with a retired key
  -- inside its window, from the address that the key was last seen from; and with the key of a session.
  abbrev pub ByCurrent : Option String → String → Seen → Type 0
  ByCurrent key id after =
      (k : String) × (key ≡ some k)
      × Any (λ entry. entry ≡ (id, k)) settings.operator_keys
      × (after ≡ record_key_use d k ip seen)

  abbrev pub ByRetired : Option String → String → Seen → Type 0
  ByRetired key id after =
      (entry : RetiredKey) × (address : String) × (key ≡ some entry.key)
      × (id ≡ entry.operator_id)
      × Any (λ other. other ≡ entry) settings.retired_keys
      × (now < entry.expires_at)
      × (ip ≡ some address)
      × (last_ip d entry.key seen ≡ some address)
      × (after ≡ seen)

  abbrev pub BySession : Option String → String → Seen → Type 0
  BySession key id after =
      (session : String) × (is_blank settings.session_key_secret ≡ false)
      × (or_else key "" ≡ d.session_key settings.session_key_secret session)
      × (id ≡ concat ("session:" ∷ d.session_digest session ∷ []))
      × (after ≡ seen)

  abbrev pub Justified : Option String → Access × Seen → Type 0
  Justified key (anonymous, after) = (settings.auth_enabled ≡ false) × (after ≡ seen)
  Justified key (unauthorized, after) = (settings.auth_enabled ≡ true) × (after ≡ seen)
  Justified key (operator id, after) =
      (settings.auth_enabled ≡ true)
      × (ByCurrent key id after ⊎ ByRetired key id after ⊎ BySession key id after)

  session_lem :
      (key : Option String) (id : String)
      → session_operator d (or_else key "") settings.session_key_secret ≡ some id
      → BySession key id seen
  unfolding session_operator
  session_lem key id e = elim (Bool-cases (is_blank settings.session_key_secret)) [
    | inl blank ↦ absurd (ground arith)
    | inr secret ↦ at_id secret (d.session_id (or_else key "")) (rw secret at e)
  ]
    where
      at_id :
          is_blank settings.session_key_secret ≡ false
          → (o : Option String)
          → by_session d (or_else key "") settings.session_key_secret o ≡ some id
          → BySession key id seen
      at_id secret none h = absurd (cc)
      at_id secret (some session) h =
          elim (Bool-cases
            (str_eq (or_else key "") (d.session_key settings.session_key_secret session))) [
              | inr q ↦ absurd (ground arith)
              | inl q ↦
                  (session, secret, (eq_iff _ _).0 q, some-injective _ _ (sym (rw q at h)), refl)
            ]

  retired_lem :
      (k id : String)
      → by_retired d k ip seen (unexpired_retired_key k settings.retired_keys now) ≡ some id
      → ByRetired (some k) id seen
  unfolding unexpired_retired_key
  retired_lem k id e = at_entry ip refl (last_match open_entry none settings.retired_keys) refl e
    where
      open_entry : RetiredKey → Bool
      open_entry entry = str_eq k entry.key && ltb now entry.expires_at

      same_lem : (o : Option String) (a : String) → same_ip d o (some a) ≡ true → o ≡ some a
      same_lem none a h = absurd (cc)
      same_lem (some b) a h = ap some ((eq_iff b a).0 h)

      at_entry :
          (address : Option String)
          → ip ≡ address
          → (o : Option RetiredKey) → last_match open_entry none settings.retired_keys ≡ o
          → by_retired d k address seen o ≡ some id
          → ByRetired (some k) id seen
      at_entry address f none g h = absurd (cc)
      at_entry none f (some entry) g h = absurd (cc)
      at_entry (some a) f (some entry) g h =
          elim (Bool-cases (same_ip d (last_ip d k seen) (some a))) [
            | inr q ↦ absurd (ground arith)
            | inl q ↦
                let (any, m) = last_match-none open_entry settings.retired_keys entry g in
                let (this, within) = and_lem (str_eq k entry.key) _ m in
                let is = (eq_iff k entry.key).0 this in
                (
                  entry,
                  a,
                  ap some is,
                  some-injective _ _ (sym (rw q at h)),
                  any,
                  ltb→lt now entry.expires_at within,
                  f,
                  subst (λ x. last_ip d x seen ≡ some a) is (same_lem (last_ip d k seen) a q),
                  refl,
                )
          ]

  current_lem :
      (k id : String)
      → operator_for k settings.operator_keys ≡ some id
      → ByCurrent (some k) id (record_key_use d k ip seen)
  unfolding operator_for
  current_lem k id e = at_entry (last_match of_key none settings.operator_keys) refl e
    where
      of_key : String × String → Bool
      of_key entry = str_eq k entry.1

      at_entry :
          (o : Option (String × String))
          → last_match of_key none settings.operator_keys ≡ o
          → first_of o ≡ some id
          → ByCurrent (some k) id (record_key_use d k ip seen)
      at_entry none g h = absurd (cc)
      at_entry (some (other, key)) g h =
          let (any, m) = last_match-none of_key settings.operator_keys (other, key) g in
          let is = (eq_iff k key).0 m in
          let named = some-injective _ _ h in
          (
            k,
            refl,
            subst (λ x. Any (λ entry. entry ≡ (id, x)) settings.operator_keys) (sym is)
                (subst (λ x. Any (λ entry. entry ≡ (x, key)) settings.operator_keys) named any),
            refl,
          )

  -- A request is let in without an operator only where authentication is off. Where it is on, it is let in
  -- as an operator only with a configured key of that operator, whose address is then noted; or with a
  -- retired key of it before it expires and from the address that the key was last seen from; or with the
  -- key that the secret gives for a session. Any other leaves no trace and is not authorized.
  pub require_api_key-Justified :
      (key : Option String) → Justified key (require_api_key d key settings now ip seen)
  unfolding require_api_key direct_key_operator
  require_api_key-Justified key = at_enabled settings.auth_enabled refl
    where
      at_retired :
          settings.auth_enabled ≡ true
          → (k : String) (o : Option String)
          → by_retired d k ip seen (unexpired_retired_key k settings.retired_keys now) ≡ o
          → Justified (some k) (let_in d (o, seen))
      at_retired on k none e = (on, refl)
      at_retired on k (some id) e = (on, inr (inl (retired_lem k id e)))

      at_current :
          settings.auth_enabled ≡ true
          → (k : String) (o : Option String) → operator_for k settings.operator_keys ≡ o
          → Justified (some k) (let_in d (by_current d k now ip settings.retired_keys seen o))
      at_current on k none e = at_retired on k _ refl
      at_current on k (some id) e = (on, inl (current_lem k id e))

      at_session :
          settings.auth_enabled ≡ true
          → (key : Option String) (o : Option String)
          → session_operator d (or_else key "") settings.session_key_secret ≡ o
          → Justified key (by_key d key settings now ip seen o)
      at_session on key (some id) e = (on, inr (inr (session_lem key id e)))
      at_session on none none e = (on, refl)
      at_session on (some k) none e = at_current on k (operator_for k settings.operator_keys) refl

      at_enabled :
          (b : Bool)
          → settings.auth_enabled ≡ b
          → Justified key (
              if b
              then by_key d key settings now ip seen
                  (session_operator d (or_else key "") settings.session_key_secret)
              else (anonymous, seen))
      at_enabled false off = (off, refl)
      at_enabled true on = at_session on key _ refl

module _ (d : Digests) where
  last_untrusted-append :
      (front : List String) (hop : String) (proxies trusted : List String)
      → is_in d trusted (d.canonical hop) ≡ false
      → (a : Option String) × (last_untrusted d trusted (hop ∷ proxies) ≡ some a)
        × (last_untrusted d trusted (front ++ (hop ∷ proxies)) ≡ some a)
  unfolding last_untrusted
  last_untrusted-append [] hop proxies trusted e =
      let (a, is) = found (last_untrusted d trusted proxies) in (a, is, is)
    where
      found :
          (o : Option (Option String))
          → (a : Option String) × ((elim o [
            | some address ↦ some address
            | none ↦ if is_in d trusted (d.canonical hop) then none else some (d.canonical hop)
          ])
              ≡ some a)
      found none = (d.canonical hop, rw e refl)
      found (some address) = (address, refl)
  last_untrusted-append (x ∷ front) hop proxies trusted e =
      let (a, first, rest) = last_untrusted-append front hop proxies trusted e in
      (a, first, rw rest refl)

  -- What a client writes to the left of a hop that is no trusted proxy has no part in its address.
  client_ip-append :
      (peer : Option String) (front : List String) (hop : String) (proxies trusted : List String)
      → is_in d trusted (d.canonical hop) ≡ false
      → client_ip d peer (front ++ (hop ∷ proxies)) trusted
        ≡ client_ip d peer (hop ∷ proxies) trusted
  unfolding client_ip
  client_ip-append peer front hop proxies trusted e =
      let (a, alone, after) = last_untrusted-append front hop proxies trusted e in
      rw (alone, after) refl
