-- ===== src/Tests/Stats.antt =====
-- The theorems on the counters of the users at concrete inputs.
use flint2_xray_web_console.Base.{◌≡◌, ◌+◌, some, none, List, [], ◌∷◌, Text, codes, length, refl}
use flint2_xray_web_console.Base.Int.{pos}
use flint2_xray_web_console.Json.{str}
use flint2_xray_web_console.Json.Map.{lookup}
use flint2_xray_web_console.Xray.Stats.{
  Reader, StatEntry, UserStats, parse_user_stat_name, extract_online_email, by_email, coerce_int,
}
use flint2_xray_web_console.Xray.Stats.Names.{names_read}
use flint2_xray_web_console.Xray.Stats.Totals.{totals_lem}
use flint2_xray_web_console.Panel.Activity.{list_rows}
use flint2_xray_web_console.Panel.Activity.Rows.{list_rows_lem, shown_rows}
use flint2_xray_web_console.Tests.Samples.{env, world}
use flint2_xray_web_console.Base.Bytes.{text_eq}

names_read_example :
    (parse_user_stat_name (codes "user>>>al>>>traffic>>>uplink")
      ≡ some (codes "al", codes "uplink"))
    × (extract_online_email (codes "user>>>al>>>online") ≡ codes "al")
names_read_example =
    names_read (codes "al") (codes "uplink") (refl, (refl, tt))
      (refl, (refl, (refl, (refl, (refl, (refl, tt))))))

abbrev reader : Reader
reader = record { parse = λ s. none; float_to_int = λ j. pos 0 }

abbrev entry : Text → Text → StatEntry
entry name value = record { name = name; value = str value }

abbrev entries : List StatEntry
entries =
    entry (codes "user>>>al>>>traffic>>>uplink") (codes "12")
    ∷ entry (codes "inbound>>>x>>>traffic>>>uplink") (codes "9")
    ∷ entry (codes "user>>>al>>>traffic>>>downlink") (codes "7")
    ∷ entry (codes "user>>>al>>>traffic>>>uplink") (codes "15")
    ∷ []

abbrev al : UserStats
al = record { email = codes "al"; uplink = pos 15; downlink = pos 7 }

totals_lem_example : lookup (codes "al") (by_email reader entries []) ≡ some al
unfolding parse_user_stat_name coerce_int
totals_lem_example = totals_lem reader (codes "al") entries

abbrev bo : UserStats
bo = record { email = codes "bo"; uplink = pos 0; downlink = pos 0 }

list_rows_lem_example :
    let l = list_rows env [] (al ∷ bo ∷ []) [] world in
    (l.rows ≡ shown_rows env [] [] (al ∷ bo ∷ []) world) × (length l.rows + l.hidden ≡ 2)
unfolding text_eq
list_rows_lem_example = list_rows_lem env [] (al ∷ bo ∷ []) [] world ((refl, tt), (tt, tt))
