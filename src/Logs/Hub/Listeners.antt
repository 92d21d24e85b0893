-- ===== src/Logs/Hub/Listeners.antt =====
-- Lists of subscribers: the room in their channels, and their addresses.
use flint2_xray_web_console.Base.{
  ◌≡◌, ℕ, ◌≤◌, ◌<◌, true, List, [], ◌∷◌, Text, All, length, is_nil, arith, refl, ◌&&◌, map, not,
  length-append, ◌==◌,
}
use flint2_xray_web_console.Logs.Hub.{Subscriber, has, without, drop_sub, offer, take_line}

abbrev pub IsRoomy : ℕ → Subscriber → Type 0
IsRoomy cap s = length s.ch ≤ cap

abbrev pub IsDistinct : ℕ → List Subscriber → Type 0
IsDistinct bound [] = Unit
IsDistinct bound (s ∷ l) = (s.id < bound) × IsDistinct s.id l

pub offer-All :
    (cap : ℕ) (line : Text) (l : List Subscriber)
    → All (IsRoomy cap) l
    → All (IsRoomy cap) (map (offer cap line) l)
unfolding offer
offer-All cap line [] h = tt
offer-All cap line (s ∷ l) h =
    (ground (arith, length-append s.ch (line ∷ [])), offer-All cap line l h.1)

pub take_line-All :
    (cap id : ℕ) (l : List Subscriber)
    → All (IsRoomy cap) l
    → All (IsRoomy cap) (map (take_line id) l)
unfolding take_line
take_line-All cap id [] h = tt
take_line-All cap id (s ∷ l) h = (ground arith, take_line-All cap id l h.1)

pub drop_sub-All :
    (cap id : ℕ) (l : List Subscriber) → All (IsRoomy cap) l → All (IsRoomy cap) (drop_sub id l)
unfolding drop_sub
drop_sub-All cap id [] h = tt
drop_sub-All cap id (s ∷ l) h = let rest = drop_sub-All cap id l h.1 in ground arith

IsDistinct-le : (m n : ℕ) (l : List Subscriber) → m ≤ n → IsDistinct m l → IsDistinct n l
IsDistinct-le m n [] h d = tt
IsDistinct-le m n (s ∷ l) h d = (omega (arith, d.0), d.1)

pub map-IsDistinct :
    (f : Subscriber → Subscriber) (n : ℕ) (l : List Subscriber)
    → ((s : Subscriber) → (f s).id ≡ s.id)
    → IsDistinct n l
    → IsDistinct n (map f l)
map-IsDistinct f n [] h d = tt
map-IsDistinct f n (s ∷ l) h d = (rw (h s) d.0, rw (h s) (map-IsDistinct f s.id l h d.1))

pub drop_sub-IsDistinct :
    (id n : ℕ) (l : List Subscriber) → IsDistinct n l → IsDistinct n (drop_sub id l)
unfolding drop_sub
drop_sub-IsDistinct id n [] d = tt
drop_sub-IsDistinct id n (s ∷ l) d =
    let rest = drop_sub-IsDistinct id s.id l d.1 in
    let wide = IsDistinct-le s.id n (drop_sub id l) (omega (arith, d.0)) rest in ground arith

pub is_nil-map : (f : Subscriber → Subscriber) (l : List Subscriber) → is_nil (map f l) ≡ is_nil l
is_nil-map f [] = refl
is_nil-map f (s ∷ l) = refl

pub nil_length : (l : List Subscriber) → is_nil l ≡ (length l == 0)
nil_length [] = refl
nil_length (s ∷ l) = ground arith

pub drop_sub_nil : (id : ℕ) (l : List Subscriber) → is_nil l ≡ true → is_nil (drop_sub id l) ≡ true
unfolding drop_sub
drop_sub_nil id [] e = refl
drop_sub_nil id (s ∷ l) e = ground arith

pub has-without : (f g : ℕ) (l : List ℕ) → has f (without g l) ≡ (has f l && not (f == g))
unfolding has without
has-without f g [] = refl
has-without f g (k ∷ l) = ground (arith, has-without f g l)

pub offer-id : (cap : ℕ) (line : Text) (s : Subscriber) → (offer cap line s).id ≡ s.id
unfolding offer
offer-id cap line s = ground arith

pub take_line-id : (id : ℕ) (s : Subscriber) → (take_line id s).id ≡ s.id
unfolding take_line
take_line-id id s = ground arith
