-- ===== src/Xray/RoundTrip/Stream.antt =====
-- `RealitySettings` and `StreamSettings` come back from their own JSON.
use flint2_xray_web_console.Base.{
  ◌≡◌, refl, true, Option, none, some, List, [], ◌∷◌, Text, codes, ok, All, text_eq,
}
use flint2_xray_web_console.Base.Bytes.{fold_eq}
use flint2_xray_web_console.Json.{str, from-to_members}
use flint2_xray_web_console.Json.Decode.{
  field, decode_text, decode-omit_text, read_field, decode_pointer, omit_nil,
}
use flint2_xray_web_console.Json.Extra.{merge_extra, merge_entries, collect_extra, contains}
use flint2_xray_web_console.Json.Extra.Bag.{
  IsBag, distinct, unmistaken, slot, field-merge_entries, collect-merge_extra,
}
use flint2_xray_web_console.Xray.RoundTrip.Lists.{
  FitsInt, ComesBack, decode-omit_nil_int, decode-omit_list,
}
use flint2_xray_web_console.Xray.Model.{RealitySettings, StreamSettings}
use flint2_xray_web_console.Xray.Codec.{
  decode_reality, encode_reality, reality_slots, reality_known, decode_stream, encode_stream,
  stream_slots, stream_known,
}

pub record IsWellformedReality (r : RealitySettings) : Type 0 where
  pub xver_fits : FitsInt r.xver
  pub bag : IsBag reality_known r.extra

texts_come_back : (l : List Text) → All (ComesBack str decode_text) l
texts_come_back [] = tt
texts_come_back (s ∷ l) = (refl, texts_come_back l)

module _ (r : RealitySettings) (w : IsWellformedReality r) where
  reality_field :
      (name : Text)
      → contains reality_known name ≡ true
      → unmistaken name reality_known ≡ true
      → field name (merge_entries r.extra (reality_slots r)) ≡ slot name (reality_slots r)
  unfolding distinct contains text_eq
  reality_field name h u = field-merge_entries name r.extra (reality_slots r) refl h u w.bag

  reality_extra : collect_extra (merge_extra r.extra (reality_slots r)) reality_known ≡ r.extra
  unfolding distinct contains text_eq
  reality_extra = collect-merge_extra r.extra (reality_slots r) refl w.bag

  pub decode-encode_reality : decode_reality (encode_reality r) ≡ ok r
  unfolding decode_reality encode_reality merge_extra contains unmistaken fold_eq text_eq slot
  decode-encode_reality = rw (
    from-to_members,
    reality_field (codes "show") refl refl,
    reality_field (codes "dest") refl refl,
    reality_field (codes "xver") refl refl,
    reality_field (codes "serverNames") refl refl,
    reality_field (codes "privateKey") refl refl,
    reality_field (codes "shortIds") refl refl,
    reality_field (codes "fingerprint") refl refl,
    decode-omit_text r.dest,
    decode-omit_nil_int r.xver w.xver_fits,
    decode-omit_list str decode_text r.server_names (texts_come_back r.server_names),
    decode-omit_text r.private_key,
    decode-omit_list str decode_text r.short_ids (texts_come_back r.short_ids),
    decode-omit_text r.fingerprint,
    reality_extra,
  )

-- an optional part, well formed if it is there
abbrev pub Optional : {A : Type 0} → (A → Type 0) → Option A → Type 0
Optional P none = Unit
Optional P (some a) = P a

pub record IsWellformedStream (s : StreamSettings) : Type 0 where
  pub reality : Optional IsWellformedReality s.reality_settings
  pub bag : IsBag stream_known s.extra

reality_comes_back :
    (o : Option RealitySettings)
    → Optional IsWellformedReality o
    → read_field none (decode_pointer decode_reality) (omit_nil encode_reality o) ≡ ok o
reality_comes_back none h = refl
reality_comes_back (some r) h = unfold encode_reality merge_extra in rw (decode-encode_reality r h)

module _ (s : StreamSettings) (w : IsWellformedStream s) where
  stream_field :
      (name : Text)
      → contains stream_known name ≡ true
      → unmistaken name stream_known ≡ true
      → field name (merge_entries s.extra (stream_slots s)) ≡ slot name (stream_slots s)
  unfolding distinct contains text_eq
  stream_field name h u = field-merge_entries name s.extra (stream_slots s) refl h u w.bag

  stream_extra : collect_extra (merge_extra s.extra (stream_slots s)) stream_known ≡ s.extra
  unfolding distinct contains text_eq
  stream_extra = collect-merge_extra s.extra (stream_slots s) refl w.bag

  pub decode-encode_stream : decode_stream (encode_stream s) ≡ ok s
  unfolding decode_stream encode_stream merge_extra contains unmistaken fold_eq text_eq slot
  decode-encode_stream = rw (
    from-to_members,
    stream_field (codes "network") refl refl,
    stream_field (codes "security") refl refl,
    stream_field (codes "realitySettings") refl refl,
    stream_field (codes "tlsSettings") refl refl,
    decode-omit_text s.network,
    decode-omit_text s.security,
    reality_comes_back s.reality_settings w.reality,
    stream_extra,
  )
