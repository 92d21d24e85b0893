-- ===== src/Xray/RoundTrip.antt =====
-- What the panel writes to config.json it reads back unchanged: `Inbound` and `File`.
pub mod Lists
pub mod Clients
pub mod Stream
use flint2_xray_web_console.Base.{
  ◌≡◌, refl, Bool, true, false, Option, none, some, List, [], ◌∷◌, Text, codes, ok, map, All,
  text_eq,
}
use flint2_xray_web_console.Base.Bytes.{fold_eq}
use flint2_xray_web_console.Base.Errors.{◌>>=◌}
use flint2_xray_web_console.Base.Int.{ℤ, in_int64}
use flint2_xray_web_console.Json.{Json, null, str, from-to_members, to_items, arr}
use flint2_xray_web_console.Json.Decode.{
  field, decode_text, decode-omit_text, read_field, decode_pointer, decode_list, decode_raw,
  omit_nil, raw_value,
}
use flint2_xray_web_console.Json.Extra.{merge_extra, merge_entries, collect_extra, contains}
use flint2_xray_web_console.Json.Extra.Bag.{
  IsBag, distinct, unmistaken, slot, field-merge_entries, collect-merge_extra,
}
use flint2_xray_web_console.Xray.RoundTrip.Lists.{
  FitsInt, ComesBack, decode-omit_nil_int, decode-omit_list, decode-encode_list,
}
use flint2_xray_web_console.Xray.Model.{Inbound, File, Settings, StreamSettings}
use flint2_xray_web_console.Xray.RoundTrip.Clients.{IsWellformedSettings, decode-encode_settings}
use flint2_xray_web_console.Xray.RoundTrip.Stream.{
  Optional, IsWellformedStream, decode-encode_stream,
}
use flint2_xray_web_console.Xray.Codec.{
  decode_inbound, encode_inbound, inbound_slots, inbound_known, decode_file, encode_file,
  file_slots, file_known, encode_inbounds, decode_settings, encode_settings, decode_stream,
  encode_stream,
}

pub record IsWellformedInbound (i : Inbound) : Type 0 where
  pub settings : Optional IsWellformedSettings i.settings
  pub stream : Optional IsWellformedStream i.stream_settings
  pub bag : IsBag inbound_known i.extra

settings_come_back :
    (o : Option Settings)
    → Optional IsWellformedSettings o
    → read_field none (decode_pointer decode_settings) (omit_nil encode_settings o) ≡ ok o
settings_come_back none h = refl
settings_come_back (some s) h =
    unfold encode_settings merge_extra in rw (decode-encode_settings s h)

stream_comes_back :
    (o : Option StreamSettings)
    → Optional IsWellformedStream o
    → read_field none (decode_pointer decode_stream) (omit_nil encode_stream o) ≡ ok o
stream_comes_back none h = refl
stream_comes_back (some s) h = unfold encode_stream merge_extra in rw (decode-encode_stream s h)

module _ (i : Inbound) (w : IsWellformedInbound i) where
  inbound_field :
      (name : Text)
      → contains inbound_known name ≡ true
      → unmistaken name inbound_known ≡ true
      → field name (merge_entries i.extra (inbound_slots i)) ≡ slot name (inbound_slots i)
  unfolding distinct contains text_eq
  inbound_field name h u = field-merge_entries name i.extra (inbound_slots i) refl h u w.bag

  inbound_extra : collect_extra (merge_extra i.extra (inbound_slots i)) inbound_known ≡ i.extra
  unfolding distinct contains text_eq
  inbound_extra = collect-merge_extra i.extra (inbound_slots i) refl w.bag

  pub decode-encode_inbound : decode_inbound (encode_inbound i) ≡ ok i
  unfolding decode_inbound encode_inbound merge_extra contains unmistaken fold_eq text_eq slot
  decode-encode_inbound = rw (
    from-to_members,
    inbound_field (codes "listen") refl refl,
    inbound_field (codes "port") refl refl,
    inbound_field (codes "protocol") refl refl,
    inbound_field (codes "tag") refl refl,
    inbound_field (codes "settings") refl refl,
    inbound_field (codes "streamSettings") refl refl,
    inbound_field (codes "sniffing") refl refl,
    decode-omit_text i.listen,
    decode-omit_text i.protocol,
    decode-omit_text i.tag,
    settings_come_back i.settings w.settings,
    stream_comes_back i.stream_settings w.stream,
    inbound_extra,
  )

-- No outbound is lost: a list of raw messages comes back.
raw_come_back : (l : List Json) → All (ComesBack raw_value decode_raw) l
raw_come_back [] = tt
raw_come_back (v ∷ l) = (refl, raw_come_back l)

inbounds_come_back :
    (l : List Inbound) → All IsWellformedInbound l → All (ComesBack encode_inbound decode_inbound) l
inbounds_come_back [] h = tt
inbounds_come_back (i ∷ l) h = (decode-encode_inbound i h.0, inbounds_come_back l h.1)

pub record IsWellformedFile (f : File) : Type 0 where
  pub inbounds : Optional (All IsWellformedInbound) f.inbounds
  pub bag : IsBag file_known f.extra

slice_comes_back :
    (o : Option (List Inbound))
    → Optional (All IsWellformedInbound) o
    → read_field none (decode_pointer (decode_list decode_inbound)) (some (encode_inbounds o))
      ≡ ok o
slice_comes_back none h = refl
slice_comes_back (some l) h =
    rw (decode-encode_list encode_inbound decode_inbound l (inbounds_come_back l h))

module _ (f : File) (w : IsWellformedFile f) where
  file_field :
      (name : Text)
      → contains file_known name ≡ true
      → unmistaken name file_known ≡ true
      → field name (merge_entries f.extra (file_slots f)) ≡ slot name (file_slots f)
  unfolding distinct contains text_eq
  file_field name h u = field-merge_entries name f.extra (file_slots f) refl h u w.bag

  file_extra : collect_extra (merge_extra f.extra (file_slots f)) file_known ≡ f.extra
  unfolding distinct contains text_eq
  file_extra = collect-merge_extra f.extra (file_slots f) refl w.bag

  -- A well-formed config is read back from its JSON as it was, with every field that the structs do
  -- not model.
  pub decode-encode_file : decode_file (encode_file f) ≡ ok f
  unfolding decode_file encode_file merge_extra contains unmistaken fold_eq text_eq slot
  decode-encode_file = rw (
    from-to_members,
    file_field (codes "log") refl refl,
    file_field (codes "dns") refl refl,
    file_field (codes "routing") refl refl,
    file_field (codes "policy") refl refl,
    file_field (codes "api") refl refl,
    file_field (codes "stats") refl refl,
    file_field (codes "inbounds") refl refl,
    file_field (codes "outbounds") refl refl,
    slice_comes_back f.inbounds w.inbounds,
    decode-omit_list raw_value decode_raw f.outbounds (raw_come_back f.outbounds),
    file_extra,
  )
