-- ===== src/Panel/Reality/Outcome.antt =====
-- PATCH /api/server/reality: what it changes, and what it leaves alone.
use flint2_xray_web_console.Base.{
  ◌≡◌, refl, some, ok, arith, inl, inr, Option-cases, ◌∙◌, sym, ap, subst, Option, none, Text,
}
use flint2_xray_web_console.Base.Errors.{Result-cases}
use flint2_xray_web_console.Xray.Model.{RealitySettings, Inbound, File, StreamSettings}
use flint2_xray_web_console.Xray.Clients.{primary_inbound, clients_of, set_primary, is_vless}
use flint2_xray_web_console.Xray.Clients.Primary.{
  primary-set_primary, primary-is_vless, clients_of-primary,
}
use flint2_xray_web_console.Base.Strings.{trim_space}
use flint2_xray_web_console.Xray.Clients.Rewritten.{Rewritten, set_primary-Rewritten}
use flint2_xray_web_console.Panel.Reality.{
  RealityPatch, patch_reality, patch_settings, reality_of, with_reality, or_keep, trimmed,
}

patched_at :
    (req : RealityPatch) (f f' : File) (u : Unit {0}) (i : Inbound)
    → primary_inbound f ≡ ok i
    → patch_reality req f ≡ ok (f', u)
    → (rs : RealitySettings) × (reality_of i ≡ some rs)
      × (f' ≡ set_primary (with_reality (patch_settings req rs) i) f)
patched_at req f f' u i p h = elim (Option-cases (reality_of i)) [
  | inl gone ↦ unfold patch_reality in absurd (ground (arith, p, gone))
  | inr (rs, found) ↦ (rs, found, unfold patch_reality in ground (arith, p, found))
]

pub with_reality-reality_of :
    (rs new : RealitySettings) (i : Inbound)
    → reality_of i ≡ some rs
    → reality_of (with_reality new i) ≡ some new
with_reality-reality_of rs new i h = ground arith

-- The settings after the patch: each field asked for has the value asked for, the destination
-- without the spaces around it; each field not asked for, and all that the panel does not patch, is
-- as it was.
pub record Repatched (req : RealityPatch) (was new : RealitySettings) : Type 0 where
  pub dest : new.dest ≡ elim req.dest [ none ↦ was.dest | some s ↦ trim_space s ]
  pub server_names :
      new.server_names ≡ elim req.server_names [ none ↦ was.server_names | some l ↦ l ]
  pub short_ids : new.short_ids ≡ elim req.short_ids [ none ↦ was.short_ids | some l ↦ l ]
  pub fingerprint : new.fingerprint ≡ elim req.fingerprint [ none ↦ was.fingerprint | some s ↦ s ]
  pub others : new ≡ record was {
    dest = new.dest;
    server_names = new.server_names;
    short_ids = new.short_ids;
    fingerprint = new.fingerprint;
  }

trimmed_dest :
    (o : Option Text) (d : Text)
    → or_keep (trimmed o) d ≡ elim o [ none ↦ d | some s ↦ trim_space s ]
trimmed_dest none d = refl
trimmed_dest (some s) d = refl

kept : {A : Type 0} (o : Option A) (a : A) → or_keep o a ≡ elim o [ none ↦ a | some b ↦ b ]
kept none a = refl
kept (some b) a = refl

repatched :
    (req : RealityPatch) (was : RealitySettings) → Repatched req was (patch_settings req was)
unfolding patch_settings
repatched req was = record {
  dest = trimmed_dest req.dest was.dest;
  server_names = kept req.server_names was.server_names;
  short_ids = kept req.short_ids was.short_ids;
  fingerprint = kept req.fingerprint was.fingerprint;
  others = refl;
}

pub pointed :
    (i : Inbound) (rs : RealitySettings)
    → reality_of i ≡ some rs
    → (t : StreamSettings) × (i.stream_settings ≡ some t) × (t.reality_settings ≡ some rs)
pointed i rs h = elim (Option-cases i.stream_settings) [
  | inl gone ↦ absurd (ground (arith, gone))
  | inr (t, at) ↦ (t, at, ground (arith, at))
]

pointee :
    (i : Inbound) (t : StreamSettings) (new : RealitySettings)
    → i.stream_settings ≡ some t
    → with_reality new i
      ≡ record i { stream_settings = some (record t { reality_settings = some new }) }
pointee i t new at =
    ap
      (λ o. record i {
        stream_settings = elim o [
          | none ↦ none
          | some t ↦ some (record t { reality_settings = some new })
        ];
      })
      at

-- A patch that applies finds Reality settings in the first VLESS inbound and puts there the
-- settings in which every field asked for has the value asked for, the destination trimmed, and
-- every other field its old one, the private key with them. Nothing else of this inbound, no other
-- inbound and nothing else of the file changes, and the clients are the same.
pub patch_reality_lem :
    (req : RealityPatch) (f f' : File) (u : Unit {0})
    → patch_reality req f ≡ ok (f', u)
    → (i : Inbound) × (t : StreamSettings) × (was : RealitySettings) × (new : RealitySettings)
      × (primary_inbound f ≡ ok i)
      × (i.stream_settings ≡ some t)
      × (t.reality_settings ≡ some was)
      × Repatched req was new
      × Rewritten f f' i
          (record i { stream_settings = some (record t { reality_settings = some new }) })
      × (clients_of f' ≡ clients_of f)
patch_reality_lem req f f' u h = elim (Result-cases (primary_inbound f)) [
  | inl (e, p) ↦ unfold patch_reality in absurd (ground (arith, p))
  | inr (i, p) ↦
      let (rs, found, at) = patched_at req f f' u i p h in
      let (t, on, there) = pointed i rs found in
      let new = patch_settings req rs in
      let i' = with_reality new i in
      let q : primary_inbound f' ≡ ok i' =
        rw at (primary-set_primary i' i f (unfold is_vless in primary-is_vless i f p) p) in
      (
        i,
        t,
        rs,
        new,
        p,
        on,
        there,
        repatched req rs,
        subst (λ j. Rewritten f f' i j) (pointee i t new on)
            (subst (λ g. Rewritten f g i i') (sym at) (set_primary-Rewritten i i' f p)),
        clients_of-primary i' f' q ∙ sym (clients_of-primary i f p),
      )
]
