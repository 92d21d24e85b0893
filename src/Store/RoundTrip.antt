-- ===== src/Store/RoundTrip.antt =====
-- A store file that the panel wrote lists the entries that went in.
use flint2_xray_web_console.Base.{◌≡◌, Bool, true, some, List, [], ◌∷◌, Text, ok, All, text_eq}
use flint2_xray_web_console.Base.Bytes.{fold_eq}
use flint2_xray_web_console.Json.Decode.{field}
use flint2_xray_web_console.Os.{json}
use flint2_xray_web_console.Xray.RoundTrip.Lists.{ComesBack, decode-encode_list}
use flint2_xray_web_console.Xray.RoundTrip.Clients.{IsWellformed, decode-encode_client}
use flint2_xray_web_console.Store.Format.{
  DisabledClient, decode_entry, encode_entry, stored, encode_store,
}

module _ (is_time : Text → Bool) where
  pub record IsWellformedEntry (d : DisabledClient) : Type 0 where
    pub client : IsWellformed d.client
    pub timed : is_time d.disabled_at ≡ true

  decode-encode_entry :
      (d : DisabledClient) → IsWellformedEntry d → decode_entry is_time (encode_entry d) ≡ ok d
  unfolding decode_entry encode_entry field fold_eq text_eq
  decode-encode_entry d w = rw (decode-encode_client d.client w.client, w.timed)

  entries_come_back :
      (l : List DisabledClient)
      → All IsWellformedEntry l
      → All (ComesBack encode_entry (decode_entry is_time)) l
  entries_come_back [] w = tt
  entries_come_back (d ∷ l) w = (decode-encode_entry d w.0, entries_come_back l w.1)

  -- The file that `write` makes of a list of entries is read back as that list.
  pub stored-encode_store :
      (l : List DisabledClient)
      → All IsWellformedEntry l
      → stored is_time (some (json (encode_store l))) ≡ ok l
  unfolding stored encode_store field fold_eq text_eq
  stored-encode_store l w =
      rw (decode-encode_list encode_entry (decode_entry is_time) l (entries_come_back l w))
