-- ===== src/Panel/Links/Live.antt =====
-- Whose links the link endpoint hands out.
use flint2_xray_web_console.Base.{
  List, [], ◌∷◌, text_eq, text_eq_iff, sym, ◌≡◌, Text, ok, some, arith, refl, inl, inr, Bool-cases,
  Option-cases, ap, ◌∙◌, is_nil, sym, ℕ, false,
}
use flint2_xray_web_console.Base.Errors.{Result-cases, Error}
use flint2_xray_web_console.Os.{Env, named, tick}
use flint2_xray_web_console.Vless.{build_url}
use flint2_xray_web_console.Xray.Model.{File, Inbound, Client, RealitySettings, StreamSettings}
use flint2_xray_web_console.Xray.Clients.{primary_inbound, settings_of, find_id}
use flint2_xray_web_console.Panel.Types.{Server, reply, url_body, status_for_err, reply_error}
use flint2_xray_web_console.Panel.Keys.{public_key}
use flint2_xray_web_console.Panel.Reality.{reality_of}
use flint2_xray_web_console.Panel.Mutate.Outcome.{config_of, read_config_live, read_config_dead}
use flint2_xray_web_console.Panel.Summary.{parse_port}
use flint2_xray_web_console.Panel.Reality.Outcome.{pointed}
use flint2_xray_web_console.Panel.Links.{
  first_of, network_of, link_params, link_from, build_link, handle_client_link,
}
use flint2_xray_web_console.Xray.Keys.{derive_public}

-- the first of the texts, or an empty one
abbrev pub IsFirst : Text → List Text → Type 0
IsFirst t [] = t ≡ []
IsFirst t (s ∷ l) = t ≡ s

first_of-IsFirst : (l : List Text) → IsFirst (first_of l) l
first_of-IsFirst [] = refl
first_of-IsFirst (s ∷ l) = refl

find_id-id : (id : Text) (l : List Client) (c : Client) → find_id id l ≡ some c → c.id ≡ id
unfolding find_id
find_id-id id [] c h = absurd (ground arith)
find_id-id id (d ∷ l) c h = elim (Bool-cases (text_eq d.id id)) [
  | inl same ↦ let at : d.id ≡ id = (text_eq_iff d.id id).0 same in ground arith
  | inr other ↦ find_id-id id l c (ground arith)
]

-- the parameters, field by field
spelled :
    (s : Server) (i : Inbound) (c : Client) (t : StreamSettings) (rs : RealitySettings)
    (id key : Text)
    → c.id ≡ id
    → i.stream_settings ≡ some t
    → link_params s i c rs key ≡ record {
      uuid = id;
      host = s.cfg.server_address;
      port = parse_port i.port;
      flow = c.flow;
      name = c.email;
      network = t.network;
      sni = first_of rs.server_names;
      fingerprint = rs.fingerprint;
      public_key = key;
      short_id = first_of rs.short_ids;
      spider_x = [];
    }
unfolding link_params
spelled s i c t rs id key same on =
    let net : network_of i ≡ t.network = ground (arith, on) in rw (same, net) refl

module _ (env : Env) where
  -- The URL is the one that BuildURL makes of a client of the first VLESS inbound with the UUID
  -- asked for, of the public address, and of the settings of the inbound, with the first server
  -- name and the first short ID, each empty if there is none, and the key that `publicKey` returns
  -- for the inbound's private key.
  pub record IsLinkOf (f : File) (id : Text) (s : Server) (u : Text) : Type 0 where
    pub i : Inbound
    pub c : Client
    pub t : StreamSettings
    pub rs : RealitySettings
    pub key : Text
    pub sni : Text
    pub short_id : Text
    pub inbound : primary_inbound f ≡ ok i
    pub client : find_id id (settings_of i).clients ≡ some c
    pub stream : i.stream_settings ≡ some t
    pub reality : t.reality_settings ≡ some rs
    pub key_of : (public_key env rs.private_key s).0 ≡ ok key
    pub first_name : IsFirst sni rs.server_names
    pub first_id : IsFirst short_id rs.short_ids
    pub url :
        build_url (record {
          uuid = id;
          host = s.cfg.server_address;
          port = parse_port i.port;
          flow = c.flow;
          name = c.email;
          network = t.network;
          sni = sni;
          fingerprint = rs.fingerprint;
          public_key = key;
          short_id = short_id;
          spider_x = [];
        })
        ≡ ok u

  public_key-cfg : (priv : Text) (s : Server) → (public_key env priv s).1.cfg ≡ s.cfg
  unfolding public_key
  public_key-cfg priv s = ground (
    arith,
    Bool-cases (is_nil s.pub_key),
    Result-cases (derive_public env s.cfg.xray_bin priv s.world).0,
  )

  same_params :
      (i : Inbound) (c : Client) (rs : RealitySettings) (key : Text) (s t : Server)
      → t.cfg ≡ s.cfg
      → build_url (link_params s i c rs key) ≡ build_url (link_params t i c rs key)
  unfolding link_params
  same_params i c rs key s t e = rw e refl

  link_ok :
      (id : Text) (f : File) (s : Server) (i : Inbound) (c : Client) (rs : RealitySettings)
      (key : Text)
      → primary_inbound f ≡ ok i
      → find_id id (settings_of i).clients ≡ some c
      → reality_of i ≡ some rs
      → (public_key env rs.private_key s).0 ≡ ok key
      → (link_from env id f s).0
        ≡ build_url (link_params (public_key env rs.private_key s).1 i c rs key)
  unfolding link_from
  link_ok id f s i c rs key p q w k = rw (link_from, p, q, w, k) refl

  from_link :
      (id : Text) (f : File) (s : Server) (u : Text)
      → (link_from env id f s).0 ≡ ok u
      → IsLinkOf f id s u
  unfolding link_from
  from_link id f s u h = elim (Result-cases (primary_inbound f)) [
    | inl (e, p) ↦ absurd (ground (arith, p))
    | inr (i, p) ↦ elim (Option-cases (find_id id (settings_of i).clients)) [
      | inl q ↦ absurd (ground (arith, p, q))
      | inr (c, q) ↦ elim (Option-cases (reality_of i)) [
        | inl w ↦ absurd (ground (arith, p, q, w))
        | inr (rs, w) ↦ elim (Result-cases (public_key env rs.private_key s).0) [
          | inl (e, k) ↦ absurd (ground (arith, p, q, w, k))
          | inr (key, k) ↦
              let (t, on, there) = pointed i rs w in
              record {
                i = i;
                c = c;
                t = t;
                rs = rs;
                key = key;
                sni = first_of rs.server_names;
                short_id = first_of rs.short_ids;
                inbound = p;
                client = q;
                stream = on;
                reality = there;
                key_of = k;
                first_name = first_of-IsFirst rs.server_names;
                first_id = first_of-IsFirst rs.short_ids;
                url =
                    ap build_url (
                      sym
                        (spelled s i c t rs id key (find_id-id id (settings_of i).clients c q) on))
                    ∙ (same_params i c rs key s (public_key env rs.private_key s).1
                          (public_key-cfg rs.private_key s)
                        ∙ (sym (link_ok id f s i c rs key p q w k) ∙ h));
              }
        ]
      ]
    ]
  ]

  url_of_reply : {u v : Text} → reply 200 (url_body u) ≡ reply 200 (url_body v) → u ≡ v
  url_of_reply e = cc

  error_apart : (n : ℕ) (e : Error) (u : Text) → reply_error n e ≡ reply 200 (url_body u) → ⊥
  error_apart n e u h = cc

  answered :
      (id : Text) (s : Server) (u : Text)
      → (handle_client_link env id s).0 ≡ reply 200 (url_body u)
      → (build_link env id s).0 ≡ ok u
  unfolding handle_client_link
  answered id s u h = elim (Result-cases (build_link env id s).0) [
    | inl (e, r) ↦ absurd (
        error_apart (status_for_err e) e u
          (sym (unfold handle_client_link in rw (handle_client_link, r) refl) ∙ h))
    | inr (v, r) ↦
        r
        ∙ ap ok
            (url_of_reply (sym (unfold handle_client_link in rw (handle_client_link, r) refl) ∙ h))
  ]

  pub build_link_live :
      (id : Text) (f : File) (s : Server)
      → is_nil id ≡ false
      → env.fails s.world.calls ≡ false
      → config_of (s.world.files (named s.conf_path)) ≡ ok f
      → build_link env id s ≡ link_from env id f (record s { world = tick s.world })
  unfolding build_link
  build_link_live id f s given live held =
      ground (arith, read_config_live env s.conf_path s.world f live held)

  read_first :
      (id : Text) (f : File) (s : Server) (u : Text)
      → config_of (s.world.files (named s.conf_path)) ≡ ok f
      → (build_link env id s).0 ≡ ok u
      → (link_from env id f (record s { world = tick s.world })).0 ≡ ok u
  unfolding build_link
  read_first id f s u held h = elim (Bool-cases (env.fails s.world.calls)) [
    | inl dead ↦
        absurd
          (ground (arith, read_config_dead env s.conf_path s.world dead, Bool-cases (is_nil id)))
    | inr live ↦
        ground (arith, read_config_live env s.conf_path s.world f live held, Bool-cases (is_nil id))
  ]

  -- Where the file holds a config: if the link endpoint answers with a URL, some client of the
  -- first VLESS inbound has the UUID asked for, and the URL is the one that BuildURL makes of this
  -- UUID, the name and flow of the first such client, the public address, the port and the network
  -- of the inbound, the first of its server names and of its short IDs, its fingerprint, and the
  -- public key that publicKey returns for its private key.
  pub client_link_live :
      (id : Text) (f : File) (s : Server) (u : Text)
      → config_of (s.world.files (named s.conf_path)) ≡ ok f
      → (handle_client_link env id s).0 ≡ reply 200 (url_body u)
      → IsLinkOf f id (record s { world = tick s.world }) u
  client_link_live id f s u held h =
      from_link id f (record s { world = tick s.world }) u
        (read_first id f s u held (answered id s u h))
