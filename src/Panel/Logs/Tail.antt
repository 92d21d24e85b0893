-- ===== src/Panel/Logs/Tail.antt =====
-- Which lines the tail of a log holds.
use Prim.Native.Nat.{zero, suc}
use flint2_xray_web_console.Base.{
  ◌≡◌, ℕ, ◌+◌, ◌-◌, ◌≤◌, Bool, true, false, List, [], ◌∷◌, ◌++◌, map, Text, length, length-append,
  if◌then◌else◌, ltb, refl, arith, suc, Bool-cases, append-nil, inl, ap, append_assoc, inr, sym,
  ◌∙◌, some, ◌⊎◌, Option-cases,
}
use flint2_xray_web_console.Base.Slices.{drop, length-drop}
use flint2_xray_web_console.Panel.Logs.{
  budget, trim_cr, keep_last, collect, scan_lines, tail_file, opened, LogFile, tail_of, handle_logs,
  checked_path, log_path, budget,
}
use flint2_xray_web_console.Base.Errors.{ok, Result-cases, Result}
use flint2_xray_web_console.Panel.Types.{Config, reply, logs_body}

drop_more : (m n k : ℕ) (l : List Text) → k ≡ n + m → drop m (drop n l) ≡ drop k l
unfolding drop
drop_more m zero k l e = let same : k ≡ m = omega (arith, e) in rw same refl
drop_more zero (suc n) k [] e = let same : k ≡ suc n = omega (arith, e) in rw same refl
drop_more (suc m) (suc n) k [] e = let same : k ≡ suc (n + suc m) = omega (arith, e) in rw same refl
drop_more m (suc n) k (x ∷ l) e =
    let same : k ≡ suc (n + m) = omega (arith, e) in rw same (drop_more m n (n + m) l refl)

drop-append_le : (n : ℕ) (l r : List Text) → n ≤ length l → drop n l ++ r ≡ drop n (l ++ r)
unfolding drop
drop-append_le zero l r h = refl
drop-append_le (suc n) [] r h = ground arith
drop-append_le (suc n) (x ∷ l) r h = drop-append_le n l r (omega arith)

keep_last_is : (n : ℕ) (l : List Text) → keep_last n l ≡ drop (length l - n) l
unfolding keep_last
keep_last_is n l = elim (Bool-cases (ltb n (length l))) [
  | inl more ↦ rw more refl
  | inr fits ↦
      let none_over : length l - n ≡ 0 = ground arith in rw (fits, none_over) (unfold drop in refl)
]

-- Cutting before something is appended changes nothing of the end.
keep_last-keep_last :
    (n : ℕ) (l r : List Text) → keep_last n (keep_last n l ++ r) ≡ keep_last n (l ++ r)
keep_last-keep_last n l r =
    let over = length l - n in
    let left : length (drop over l ++ r) ≡ (length l - over) + length r =
      rw (length-append (drop over l) r, length-drop over l) refl in
    let total : over + (((length l - over) + length r) - n) ≡ length (l ++ r) - n =
      omega (arith, length-append l r) in
    rw
      (
        keep_last_is n l,
        keep_last_is n (drop over l ++ r),
        keep_last_is n (l ++ r),
        left,
        drop-append_le over l r (omega arith),
        drop_more (((length l - over) + length r) - n) over (length (l ++ r) - n) (l ++ r)
            (sym total),
      )
      refl

keep_last_nil : (n : ℕ) → keep_last n [] ≡ []
unfolding drop
keep_last_nil n = rw (keep_last_is n []) (drop_nil (0 - n))
  where
    drop_nil : (m : ℕ) → drop {A = Text} m [] ≡ []
    drop_nil zero = refl
    drop_nil (suc m) = refl

collect_keeps :
    (max : ℕ) (acc ts : List Text)
    → collect max false (keep_last max acc) ts ≡ keep_last max (acc ++ map trim_cr ts)
unfolding collect
collect_keeps max acc [] = rw (append-nil acc) refl
collect_keeps max acc (t ∷ ts) =
    rw
      (keep_last-keep_last max acc (trim_cr t ∷ []), collect_keeps max (acc ++ (trim_cr t ∷ [])) ts)
      (ap (keep_last max) (append_assoc acc (trim_cr t ∷ []) (map trim_cr ts)))

length-keep_last : (n : ℕ) (l : List Text) → length (keep_last n l) ≤ n
length-keep_last n l = rw (keep_last_is n l) (omega (arith, length-drop (length l - n) l))

-- the lines of the window: without the first, which is cut, where the file is longer than the
-- window
abbrev pub window_lines : Text → ℕ → List Text
window_lines s window =
    let truncated = ltb window (length s) in
    let ls = scan_lines (if truncated then drop (length s - window) s else s) in
    map trim_cr (if truncated then drop 1 ls else ls)

collect_skips :
    (max : ℕ) (ts : List Text) → collect max true [] ts ≡ collect max false [] (drop 1 ts)
unfolding collect drop
collect_skips max [] = refl
collect_skips max (t ∷ ts) = refl

collect_all : (max : ℕ) (ts : List Text) → collect max false [] ts ≡ keep_last max (map trim_cr ts)
collect_all max ts =
    ap (λ acc. collect max false acc ts) (sym (keep_last_nil max)) ∙ collect_keeps max [] ts

collect_first :
    (max : ℕ) (first : Bool) (ts : List Text)
    → collect max first [] ts ≡ keep_last max (map trim_cr (if first then drop 1 ts else ts))
collect_first max false ts = collect_all max ts
collect_first max true ts = collect_skips max ts ∙ collect_all max (drop 1 ts)

-- Of a file that can be read, tailFile returns the last lines of the window at its end, at most
-- `max`, in their order and without carriage returns at their ends; the first line of the window is
-- left out where the file is longer than the window.
pub tail_file_lem :
    (s : Text) (max window : ℕ)
    → (tail_file (opened s false) max window
        ≡ ok (keep_last max (window_lines s window), ltb window (length s)))
      × (length (keep_last max (window_lines s window)) ≤ max)
unfolding tail_file
tail_file_lem s max window = (
  (let truncated = ltb window (length s) in
      ap (λ ls. ok (ls, truncated))
        (collect_first max truncated
          (scan_lines (if truncated then drop (length s - window) s else s)))),
  length-keep_last max (window_lines s window),
)

ok_first :
    {l r : List Text} {b c : Bool}
    → ◌≡◌ {A = Result (List Text × Bool)} (ok (l, b)) (ok (r, c))
    → l ≡ r
ok_first e = cc

tail_parts :
    (f : LogFile) (n window : ℕ) (ls : List Text) (truncated : Bool)
    → tail_file f n window ≡ ok (ls, truncated)
    → (length ls ≤ n)
      × (((f ≡ LogFile.missing) × (ls ≡ []))
          ⊎ ((s : Text) × (f ≡ opened s false) × (ls ≡ keep_last n (window_lines s window))))
unfolding tail_file
tail_parts LogFile.missing n window ls truncated h =
    let e : [] ≡ ls = ground arith in (rw (sym e) (omega arith), inl (refl, sym e))
tail_parts LogFile.unopened n window ls truncated h = ground arith
tail_parts LogFile.unmeasured n window ls truncated h = ground arith
tail_parts LogFile.unsought n window ls truncated h = ground arith
tail_parts (opened s true) n window ls truncated h = ground arith
tail_parts (opened s false) n window ls truncated h =
    let (whole, few) = tail_file_lem s n window in
    let e : ls ≡ keep_last n (window_lines s window) = ok_first (sym h ∙ whole) in
    (rw e few, inr (s, refl, e))

tail_of_bounded : (tail : Text) (n : ℕ) → tail_of tail ≡ some n → (1 ≤ n) × (n ≤ 5000)
unfolding tail_of
tail_of_bounded tail n h = ground arith

answered :
    (files : Text → LogFile) (cfg : Config) (which tail path : Text) (ls : List Text)
    (truncated : Bool)
    → handle_logs files cfg which tail ≡ reply 200 (logs_body path ls truncated)
    → (n : ℕ) × (tail_of tail ≡ some n)
      × (checked_path which cfg ≡ ok path)
      × (tail_file (files path) n budget ≡ ok (ls, truncated))
unfolding handle_logs
answered files cfg which tail path ls truncated h = elim (Result-cases (checked_path which cfg)) [
  | inl (e, unknown) ↦ ground arith
  | inr (p, known) ↦ elim (Option-cases (tail_of tail)) [
    | inl refused ↦ ground arith
    | inr (n, asked) ↦ elim (Result-cases (tail_file (files p) n budget)) [
      | inl (e, unread) ↦ ground arith
      | inr ((found, cut), read) ↦
          let same : (p ≡ path) × (found ≡ ls) × (cut ≡ truncated) = ground arith in
          (n, asked, known ∙ ap ok same.0, rw (← same.0, ← same.1, ← same.2) read)
    ]
  ]
]

checked_path_lem :
    (which : Text) (cfg : Config) (path : Text)
    → checked_path which cfg ≡ ok path
    → log_path which cfg ≡ some path
unfolding checked_path
checked_path_lem which cfg path h = ground (arith, Option-cases (log_path which cfg))

-- The lines of a successful answer of GET /api/logs/{which}: at most as many as the `tail`
-- parameter asks for, which is 200 where it is not given and at most 5000; they are the last lines
-- of the last 512 KiB of the log that `which` names, or there is no such file and no line.
pub handle_logs_lem :
    (files : Text → LogFile) (cfg : Config) (which tail path : Text) (ls : List Text)
    (truncated : Bool)
    → handle_logs files cfg which tail ≡ reply 200 (logs_body path ls truncated)
    → (n : ℕ) × (tail_of tail ≡ some n)
      × (1 ≤ n)
      × (n ≤ 5000)
      × (length ls ≤ n)
      × (log_path which cfg ≡ some path)
      × (((files path ≡ LogFile.missing) × (ls ≡ []))
          ⊎ ((s : Text) × (files path ≡ opened s false)
              × (ls ≡ keep_last n (window_lines s budget))))
handle_logs_lem files cfg which tail path ls truncated h =
    let (n, asked, known, read) = answered files cfg which tail path ls truncated h in
    let (low, high) = tail_of_bounded tail n asked in
    let (few, what) = tail_parts (files path) n budget ls truncated read in
    (n, asked, low, high, few, checked_path_lem which cfg path known, what)
