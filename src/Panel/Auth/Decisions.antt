-- ===== src/Panel/Auth/Decisions.antt =====
-- The cache does not change who is let in.
use flint2_xray_web_console.Base.{
  Option, ◌++◌, ◌⊎◌, subst, ◌≡◌, ℕ, ◌+◌, Bool, true, false, none, some, List, [], ◌∷◌, Text,
  text_eq, text_eq_iff, ltb, ◌&&◌, length, refl, arith, All, map, Bool-cases, inl, sym, inr, ap,
  Option-cases, ◌∙◌,
}
use flint2_xray_web_console.Json.Map.{lookup, insert}
use flint2_xray_web_console.Panel.Auth.{
  AuthCache, Request, trim_expired, cache_key, hit, admit, basic_auth, answers, new_auth_cache,
  cache_ttl,
}
use flint2_xray_web_console.Base.Bytes.{text_lt, text_eq_refl}

-- the decision without a cache
abbrev pub allowed : (Text → Bool) → Text → Request → Bool
allowed matches user r = elim r.credentials [
  | none ↦ false
  | some (u, p) ↦ text_eq u user && matches p
]

abbrev pub with_hashed : Option (Text × Text) → List Text → List Text
with_hashed none l = l
with_hashed (some (u, p)) l = (u ++ (0 ∷ p)) ∷ l

-- what is hashed for requests that bring credentials
abbrev pub hashed : List Request → List Text
hashed [] = []
hashed (r ∷ rs) = with_hashed r.credentials (hashed rs)

abbrev pub Among : Text → List Text → Type 0
Among x [] = ⊥
Among x (y ∷ l) = (x ≡ y) ⊎ Among x l

-- what is hashed for the request is among the texts
abbrev Own : List Text → Request → Type 0
Own all r = (u p : Text) → r.credentials ≡ some (u, p) → Among (u ++ (0 ∷ p)) all

tail_eq : {c : ℕ} (t u : Text) → c ∷ t ≡ c ∷ u → t ≡ u
tail_eq t u e = cc

cancel : (s t u : Text) → s ++ t ≡ s ++ u → t ≡ u
cancel [] t u e = e
cancel (c ∷ s) t u e = cancel s t u (tail_eq (s ++ t) (s ++ u) e)

module _ (sha : Text → Text) where
  -- No two different texts of the list have one digest.
  abbrev pub IsCollisionFree : List Text → Type 0
  IsCollisionFree l = (x y : Text) → Among x l → Among y l → sha x ≡ sha y → x ≡ y

module _ (sha : Text → Text) (matches : Text → Bool) (user : Text) (all : List Text) where
  -- every key in the cache is the digest of one of these texts, for a password that matches
  abbrev IsSound : AuthCache → Type 0
  IsSound m =
      All
        (λ (e : Text × ℕ).
          (p : Text) × Among (user ++ (0 ∷ p)) all
          × (sha (user ++ (0 ∷ p)) ≡ e.0)
          × (matches p ≡ true))
        m

  insert-IsSound :
      (p : Text) (exp : ℕ) (m : AuthCache)
      → Among (user ++ (0 ∷ p)) all
      → matches p ≡ true
      → IsSound m
      → IsSound (insert (cache_key sha user p) exp m)
  unfolding insert cache_key
  insert-IsSound p exp [] here h s = ((p, here, refl, h), tt)
  insert-IsSound p exp ((j, e) ∷ m) here h s =
      let key = cache_key sha user p in
      elim (Bool-cases (text_eq j key)) [
        | inl same ↦ rw same ((p, here, refl, h), s.1)
        | inr other ↦ elim (Bool-cases (text_lt key j)) [
          | inl before ↦ rw (other, before) ((p, here, refl, h), s)
          | inr after ↦ rw (other, after) (s.0, insert-IsSound p exp m here h s.1)
        ]
      ]

  trim-IsSound : (now : ℕ) (m : AuthCache) → IsSound m → IsSound (trim_expired now m)
  unfolding trim_expired
  trim-IsSound now [] s = tt
  trim-IsSound now ((k, exp) ∷ m) s =
      let rest = trim-IsSound now m s.1 in
      elim (Bool-cases (ltb exp now)) [ inl gone ↦ rw gone rest | inr kept ↦ rw kept (s.0, rest) ]

  lookup-IsSound :
      (p : Text) (exp : ℕ) (m : AuthCache)
      → IsCollisionFree sha all
      → Among (user ++ (0 ∷ p)) all
      → IsSound m
      → lookup (cache_key sha user p) m ≡ some exp
      → matches p ≡ true
  unfolding lookup cache_key
  lookup-IsSound p exp [] free here s h = ground arith
  lookup-IsSound p exp ((k, e) ∷ m) free here s h =
      elim (Bool-cases (text_eq k (sha (user ++ (0 ∷ p))))) [
        | inl same ↦
            let (q, there, digest, right) = s.0 in
            let at : sha (user ++ (0 ∷ q)) ≡ sha (user ++ (0 ∷ p)) =
              digest ∙ (text_eq_iff k (sha (user ++ (0 ∷ p)))).0 same in
            let eq : q ≡ p = tail_eq q p (
              cancel user (0 ∷ q) (0 ∷ p)
                (free (user ++ (0 ∷ q)) (user ++ (0 ∷ p)) there here at)) in
            ap matches (sym eq) ∙ right
        | inr other ↦ lookup-IsSound p exp m free here s.1 (ground (arith, other))
      ]

  admit-IsSound :
      (now later : ℕ) (p : Text) (m : AuthCache)
      → Among (user ++ (0 ∷ p)) all
      → matches p ≡ true
      → IsSound m
      → IsSound (admit sha now later user p m)
  unfolding admit
  admit-IsSound now later p m here h s =
      let m' = insert (cache_key sha user p) (now + cache_ttl) m in
      let kept = insert-IsSound p (now + cache_ttl) m here h s in
      elim (Bool-cases (ltb 32 (length m'))) [
        | inl full ↦ rw full (trim-IsSound later m' kept)
        | inr few ↦ rw few kept
      ]

  hit_matches :
      (now : ℕ) (p : Text) (m : AuthCache)
      → IsCollisionFree sha all
      → Among (user ++ (0 ∷ p)) all
      → IsSound m
      → hit sha now user p m ≡ true
      → matches p ≡ true
  unfolding hit
  hit_matches now p m free here s h = elim (Option-cases (lookup (cache_key sha user p) m)) [
    | inl none_there ↦ ground (arith, none_there)
    | inr (exp, found) ↦ lookup-IsSound p exp m free here s found
  ]

  -- credentials of the user
  own_request :
      (r : Request) (p : Text) (m : AuthCache)
      → IsCollisionFree sha all
      → Among (user ++ (0 ∷ p)) all
      → IsSound m
      → r.credentials ≡ some (user, p)
      → ((basic_auth sha matches user r m).0 ≡ matches p)
        × IsSound (basic_auth sha matches user r m).1
  unfolding basic_auth
  own_request r p m free here s c = elim (Bool-cases (hit sha r.at user p m)) [
    | inl known ↦
        rw (basic_auth, c, text_eq_refl user, known)
          (sym (hit_matches r.at p m free here s known), s)
    | inr unknown ↦ elim (Bool-cases (matches p)) [
      | inl right ↦
          rw (basic_auth, c, text_eq_refl user, unknown, right)
            (refl, admit-IsSound r.later r.last p m here right s)
      | inr wrong ↦ rw (basic_auth, c, text_eq_refl user, unknown, wrong) (refl, s)
    ]
  ]

  one_request :
      (r : Request) (m : AuthCache)
      → IsCollisionFree sha all
      → Own all r
      → IsSound m
      → ((basic_auth sha matches user r m).0 ≡ allowed matches user r)
        × IsSound (basic_auth sha matches user r m).1
  unfolding basic_auth
  one_request r m free own_text s = elim (Option-cases r.credentials) [
    | inl bare ↦ rw (basic_auth, bare) (refl, s)
    | inr ((u, p), given) ↦ elim (Bool-cases (text_eq u user)) [
      | inl own ↦
          let at : u ≡ user = (text_eq_iff u user).0 own in
          let (same, sound) =
            own_request r p m free (subst (λ v. Among (v ++ (0 ∷ p)) all) at (own_text u p given)) s
              (rw (← at) given) in
          (same ∙ rw (given, own) refl, sound)
      | inr other ↦ rw (basic_auth, given, other) (refl, s)
    ]
  ]

  answers_from :
      (rs : List Request) (m : AuthCache)
      → IsCollisionFree sha all
      → All (Own all) rs
      → IsSound m
      → answers sha matches user rs m ≡ map (allowed matches user) rs
  unfolding answers
  answers_from [] m free own s = refl
  answers_from (r ∷ rs) m free own s =
      let (same, sound) = one_request r m free own.0 s in
      rw (same, answers_from rs (basic_auth sha matches user r m).1 free own.1 sound) refl

hashed_now :
    (o : Option (Text × Text)) (u p : Text) (l : List Text)
    → o ≡ some (u, p)
    → Among (u ++ (0 ∷ p)) (with_hashed o l)
hashed_now o u p l e = subst (λ o. Among (u ++ (0 ∷ p)) (with_hashed o l)) (sym e) (inl refl)

hashed_later :
    (o : Option (Text × Text)) (x : Text) (l : List Text) → Among x l → Among x (with_hashed o l)
hashed_later none x l h = h
hashed_later (some (u, p)) x l h = inr h

-- the texts of a request are hashed, those of the later ones too
includes :
    (all : List Text) (rs : List Request)
    → ((x : Text) → Among x (hashed rs) → Among x all)
    → All (Own all) rs
includes all [] inc = tt
includes all (r ∷ rs) inc = (
  λ u p e. inc (u ++ (0 ∷ p)) (hashed_now r.credentials u p (hashed rs) e),
  includes all rs (λ x h. inc x (hashed_later r.credentials x (hashed rs) h)),
)

-- Where no two different texts that are hashed for these requests have one digest: the requests
-- that BasicAuth hands on, of any sequence at any times, are exactly those with the user's name and
-- a password that the bcrypt hash accepts.
pub answers_lem :
    (sha : Text → Text) (matches : Text → Bool) (user : Text) (rs : List Request)
    → IsCollisionFree sha (hashed rs)
    → answers sha matches user rs new_auth_cache ≡ map (allowed matches user) rs
answers_lem sha matches user rs free =
    answers_from sha matches user (hashed rs) rs [] free (includes (hashed rs) rs (λ x h. h)) tt
