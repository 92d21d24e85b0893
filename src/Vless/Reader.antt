-- ===== src/Vless/Reader.antt =====
-- A reader of connection URLs: the parts of `vless://uuid@authority?query#name`, as RFC 3986 cuts
-- them.
use flint2_xray_web_console.Base.{
  sym, ◌≡◌, ℕ, ◌<◌, false, Option, none, some, [], ◌∷◌, ◌++◌, Text, codes, ◌==◌, is_nil, refl,
  arith, if◌then◌else◌, ap, ◌∙◌, Bool-cases, inl, inr,
}
use flint2_xray_web_console.Base.HostPort.{cut_last, contains_byte}
use flint2_xray_web_console.Json.Map.{Map}
use flint2_xray_web_console.Vless.{
  path_escape, query_escape, escape_path_byte, escape_query_byte, encode, pair, fragment,
  join_host_port, itoa_port,
}
use flint2_xray_web_console.Vless.Escapes.{unescape, plain, IsBytes, unescape-path_escape}
use flint2_xray_web_console.Vless.Query.{
  cut, Lacks, Lacks-append, cut-part, read_query, AreBytes, read_query-encode,
}

pub record Link : Type 0 where
  pub uuid : Text
  pub authority : Text
  pub values : Map Text
  pub name : Text

-- what follows a text in front
unfoldable pub after : Text → Text → Option Text
after [] s = some s
after (b ∷ p) [] = none
after (b ∷ p) (c ∷ s) = let rest = after p s in if c == b then rest else none

-- the user and the authority in front of a query
unfoldable pub read_front : Text → Option (Text × Text)
unfolding cut_last unescape
read_front s = elim (cut_last 64 s) [
  | none ↦ none
  | some (user, authority) ↦ elim (unescape false plain user) [
    | none ↦ none
    | some id ↦ some (id, authority)
  ]
]

abbrev pub parts : Option (Text × Text) → Option (Map Text) → Option Text → Option Link
parts none values name = none
parts (some front) none name = none
parts (some front) (some m) none = none
parts (some front) (some m) (some tag) =
    some (record { uuid = front.0; authority = front.1; values = m; name = tag })

-- what follows the scheme
unfoldable pub read_rest : Text → Option Link
unfolding read_front cut unescape
read_rest s =
    let body = (cut 35 s).0 in
    parts (read_front (cut 63 body).0) (read_query (cut 63 body).1)
      (unescape false plain (cut 35 s).1)

abbrev pub then_rest : Option Text → Option Link
then_rest none = none
then_rest (some s) = read_rest s

unfoldable pub read_link : Text → Option Link
unfolding after read_rest
read_link s = then_rest (after (codes "vless://") s)

path_byte-Lacks : (c : ℕ) → c < 256 → Lacks 35 (escape_path_byte c) × Lacks 63 (escape_path_byte c)
path_byte-Lacks c h = ground arith

path_escape-Lacks : (s : Text) → IsBytes s → Lacks 35 (path_escape s) × Lacks 63 (path_escape s)
unfolding path_escape
path_escape-Lacks [] h = (tt, tt)
path_escape-Lacks (c ∷ s) h =
    let (a, b) = path_byte-Lacks c h.0 in
    let (l, m) = path_escape-Lacks s h.1 in
    (
      Lacks-append 35 (escape_path_byte c) (path_escape s) a l,
      Lacks-append 63 (escape_path_byte c) (path_escape s) b m,
    )

query_byte-Lacks : (c : ℕ) → c < 256 → Lacks 35 (escape_query_byte c)
query_byte-Lacks c h = ground arith

query_escape-Lacks : (s : Text) → IsBytes s → Lacks 35 (query_escape s)
unfolding query_escape
query_escape-Lacks [] h = tt
query_escape-Lacks (c ∷ s) h =
    Lacks-append 35 (escape_query_byte c) (query_escape s) (query_byte-Lacks c h.0)
      (query_escape-Lacks s h.1)

pair-Lacks : (k v : Text) → IsBytes k → IsBytes v → Lacks 35 (pair k v)
pair-Lacks k v hk hv =
    Lacks-append 35 (query_escape k) (61 ∷ query_escape v) (query_escape-Lacks k hk)
      (refl, query_escape-Lacks v hv)

encode-Lacks : (m : Map Text) → AreBytes m → Lacks 35 (encode m)
unfolding encode
encode-Lacks [] h = tt
encode-Lacks ((k, v) ∷ []) h = pair-Lacks k v h.0.0 h.0.1
encode-Lacks ((k, v) ∷ e ∷ m) h =
    Lacks-append 35 (pair k v) (38 ∷ encode (e ∷ m)) (pair-Lacks k v h.0.0 h.0.1)
      (refl, encode-Lacks (e ∷ m) h.1)

cut_whole : (b : ℕ) (s : Text) → Lacks b s → cut b s ≡ (s, [])
unfolding cut
cut_whole b [] h = refl
cut_whole b (c ∷ s) h = ground (arith, cut_whole b s h.1, h.0)

cut_last-none : (b : ℕ) (s : Text) → Lacks b s → cut_last b s ≡ none
unfolding cut_last
cut_last-none b [] h = refl
cut_last-none b (c ∷ s) h = ground (arith, cut_last-none b s h.1, h.0)

cut_last-part : (b : ℕ) (p s : Text) → Lacks b s → cut_last b (p ++ (b ∷ s)) ≡ some (p, s)
unfolding cut_last
cut_last-part b [] s h = ground (arith, cut_last-none b s h)
cut_last-part b (c ∷ p) s h = ground (arith, cut_last-part b p s h)

digits-Lacks :
    (n : ℕ) → n < 65536 → Lacks 35 (itoa_port n) × Lacks 63 (itoa_port n) × Lacks 64 (itoa_port n)
unfolding itoa_port
digits-Lacks n h = ground arith

-- no `#`, `?` or `@`
abbrev pub IsHost : Text → Type 0
IsHost s = Lacks 35 s × Lacks 63 s × Lacks 64 s

authority-Lacks :
    (b : ℕ) (host port : Text)
    → (58 == b) ≡ false
    → (91 == b) ≡ false
    → (93 == b) ≡ false
    → Lacks b host
    → Lacks b port
    → Lacks b (join_host_port host port)
unfolding join_host_port
authority-Lacks b host port colon left right h k = elim (Bool-cases (contains_byte 58 host)) [
  | inl v6 ↦ rw v6 (left, Lacks-append b host (93 ∷ 58 ∷ port) h (right, (colon, k)))
  | inr plain_host ↦ rw plain_host (Lacks-append b host (58 ∷ port) h (colon, k))
]

authority-IsHost :
    (host : Text) (n : ℕ) → IsHost host → n < 65536 → IsHost (join_host_port host (itoa_port n))
authority-IsHost host n h k =
    let (a, b, c) = digits-Lacks n k in
    (
      authority-Lacks 35 host (itoa_port n) refl refl refl h.0 a,
      authority-Lacks 63 host (itoa_port n) refl refl refl h.1 b,
      authority-Lacks 64 host (itoa_port n) refl refl refl h.2 c,
    )

front_read :
    (id authority : Text)
    → IsBytes id
    → IsHost authority
    → read_front (path_escape id ++ (64 ∷ authority)) ≡ some (id, authority)
unfolding read_front
front_read id authority h k =
    rw (read_front, cut_last-part 64 (path_escape id) authority k.2, unescape-path_escape id h) refl

append-nil : (s : Text) → s ++ [] ≡ s
append-nil [] = refl
append-nil (c ∷ s) = ap (λ t. c ∷ t) (append-nil s)

-- the name behind a body without `#`
name_cut :
    (body name : Text) → Lacks 35 body → cut 35 (body ++ fragment name) ≡ (body, path_escape name)
name_cut body [] h = unfold path_escape in ap (cut 35) (append-nil body) ∙ cut_whole 35 body h
name_cut body (c ∷ s) h = cut-part 35 body (path_escape (c ∷ s)) h

after-scheme : (p s : Text) → after p (p ++ s) ≡ some s
unfolding after
after-scheme [] s = refl
after-scheme (c ∷ p) s = ground (arith, after-scheme p s)

rest_read :
    (s body name front query : Text) (id authority : Text) (m : Map Text) (tag : Text)
    → cut 35 s ≡ (body, name)
    → cut 63 body ≡ (front, query)
    → read_front front ≡ some (id, authority)
    → read_query query ≡ some m
    → unescape false plain name ≡ some tag
    → read_rest s ≡ some (record { uuid = id; authority = authority; values = m; name = tag })
unfolding read_rest
rest_read s body name front query id authority m tag a b c d e =
    let b' : cut 63 (cut 35 s).0 ≡ (front, query) = ap (λ (p : Text × Text). cut 63 p.0) a ∙ b in
    let x : read_front (cut 63 (cut 35 s).0).0 ≡ some (id, authority) =
      ap (λ (p : Text × Text). read_front p.0) b' ∙ c in
    let y : read_query (cut 63 (cut 35 s).0).1 ≡ some m =
      ap (λ (p : Text × Text). read_query p.1) b' ∙ d in
    let z : unescape false plain (cut 35 s).1 ≡ some tag =
      ap (λ (p : Text × Text). unescape false plain p.1) a ∙ e in
    λ j. parts (x j) (y j) (z j)

append_assoc : (s t u : Text) → (s ++ t) ++ u ≡ s ++ (t ++ u)
append_assoc [] t u = refl
append_assoc (c ∷ s) t u = ap (λ r. c ∷ r) (append_assoc s t u)

-- A URL made of escaped parts is read back part by part.
pub read_link-parts :
    (id host name : Text) (port : ℕ) (m : Map Text)
    → IsBytes id
    → IsBytes name
    → IsHost host
    → port < 65536
    → is_nil m ≡ false
    → AreBytes m
    → let authority = join_host_port host (itoa_port port) in
      read_link (
        codes "vless://"
        ++ (path_escape id ++ (64 ∷ (authority ++ (63 ∷ (encode m ++ fragment name))))))
      ≡ some (record { uuid = id; authority = authority; values = m; name = name })
unfolding read_link
read_link-parts id host name port m hid hname hhost hport some_value hm =
    let authority = join_host_port host (itoa_port port) in
    let front = path_escape id ++ (64 ∷ authority) in
    let body = front ++ (63 ∷ encode m) in
    let hauth = authority-IsHost host port hhost hport in
    let hesc = path_escape-Lacks id hid in
    let lacks_hash : Lacks 35 front =
      Lacks-append 35 (path_escape id) (64 ∷ authority) hesc.0 (refl, hauth.0) in
    let lacks_mark : Lacks 63 front =
      Lacks-append 63 (path_escape id) (64 ∷ authority) hesc.1 (refl, hauth.1) in
    let hbody : Lacks 35 body =
      Lacks-append 35 front (63 ∷ encode m) lacks_hash (refl, encode-Lacks m hm) in
    let whole : path_escape id ++ (64 ∷ (authority ++ (63 ∷ (encode m ++ fragment name))))
        ≡ body ++ fragment name =
      sym (
        append_assoc front (63 ∷ encode m) (fragment name)
        ∙ append_assoc (path_escape id) (64 ∷ authority) (63 ∷ (encode m ++ fragment name))) in
    ap then_rest (
      after-scheme (codes "vless://")
        (path_escape id ++ (64 ∷ (authority ++ (63 ∷ (encode m ++ fragment name))))))
    ∙ (ap read_rest whole
        ∙ rest_read (body ++ fragment name) body (path_escape name) front (encode m) id authority m
            name (name_cut body name hbody) (cut-part 63 front (encode m) lacks_mark)
            (front_read id authority hid hauth) (read_query-encode m some_value hm)
            (unescape-path_escape name hname))
