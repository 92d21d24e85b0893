-- ===== src/Xray/Clients/Rewritten.antt =====
-- A file that is another one but for its first VLESS inbound.
use flint2_xray_web_console.Base.{
  ◌≡◌, refl, false, true, some, List, [], ◌∷◌, ◌++◌, ok, arith, All, Bool-cases, inl, inr,
  Option-cases, ap,
}
use flint2_xray_web_console.Xray.Model.{Inbound, File}
use flint2_xray_web_console.Xray.Clients.{
  is_vless, first_vless, primary_inbound, set_first_vless, set_primary,
}

-- The old inbounds are those in front, none of them VLESS, then the one to be replaced, and those
-- behind it; the new ones are the same with the new inbound in its place, and nothing else of the
-- file has changed.
pub record Rewritten (f f' : File) (i i' : Inbound) : Type 0 where
  pub front : List Inbound
  pub behind : List Inbound
  pub was : f.inbounds ≡ some (front ++ i ∷ behind)
  pub now : f'.inbounds ≡ some (front ++ i' ∷ behind)
  pub passed : All (λ j. is_vless j ≡ false) front
  pub found : is_vless i ≡ true
  pub others : f' ≡ record f { inbounds = f'.inbounds }

splits :
    (i i' : Inbound) (l : List Inbound)
    → first_vless l ≡ ok i
    → (front : List Inbound) × (behind : List Inbound) × (l ≡ front ++ i ∷ behind)
      × (set_first_vless i' l ≡ front ++ i' ∷ behind)
      × All (λ j. is_vless j ≡ false) front
      × (is_vless i ≡ true)
unfolding first_vless set_first_vless
splits i i' [] h = absurd (ground arith)
splits i i' (j ∷ l) h = elim (Bool-cases (is_vless j)) [
  | inl v ↦ ([], l, ground arith, ground arith, tt, ground arith)
  | inr n ↦
      let (front, behind, was, now, passed, found) = splits i i' l (ground arith) in
      (j ∷ front, behind, ap (λ k. j ∷ k) was, ground arith, (n, passed), found)
]

pub set_primary-Rewritten :
    (i i' : Inbound) (f : File) → primary_inbound f ≡ ok i → Rewritten f (set_primary i' f) i i'
unfolding primary_inbound set_primary
set_primary-Rewritten i i' f p = elim (Option-cases f.inbounds) [
  | inl gone ↦ absurd (unfold first_vless in ground (arith, gone))
  | inr (l, here) ↦
      let (front, behind, was, now, passed, found) =
        splits i i' l (unfold first_vless in ground (arith, here)) in
      record {
        front = front;
        behind = behind;
        was = ground (arith, here, was);
        now = ground (arith, here, now);
        passed = passed;
        found = found;
        others = refl;
      }
]
