-- ===== src/Xray/Keys/Printed.antt =====
-- The output of `xray x25519` in the formats of its versions is read back.
use flint2_xray_web_console.Base.{
  ◌≡◌, true, false, some, Option, [], ◌∷◌, ◌++◌, Text, codes, All, ◌==◌, is_nil, refl, arith, ◌∙◌,
}
use flint2_xray_web_console.Xray.Keys.{
  is_blank, blanks, literal, word, value, match_private, match_public, search, extract_private,
  extract_public,
}

-- a key as it is printed: not empty, and without blanks
abbrev pub IsKey : Text → Type 0
IsKey k = (is_nil k ≡ false) × All (λ c. is_blank c ≡ false) k

word_line : (k s : Text) → All (λ c. is_blank c ≡ false) k → word (k ++ (10 ∷ s)) ≡ k
unfolding word
word_line [] s h = refl
word_line (c ∷ k) s h = rw (h.0, word_line k s h.1) refl

-- No match can start within a line.
search_line :
    (m : Text → Option Text) (k s : Text)
    → All (λ c. is_blank c ≡ false) k
    → search m false (k ++ (10 ∷ s)) ≡ search m true s
unfolding search
search_line m [] s h = refl
search_line m (c ∷ k) s h =
    let inner : (c == 10) ≡ false = ground (arith, h.0) in rw inner (search_line m k s h.1)

value_line : (k s : Text) → IsKey k → value (some (58 ∷ 32 ∷ (k ++ (10 ∷ s)))) ≡ some k
unfolding value literal blanks
value_line [] s h = ground arith
value_line (c ∷ k) s h = rw (h.1.0, word_line (c ∷ k) s h.1) refl

-- the public key, on a line after one that holds no match
public_line :
    (k s : Text)
    → IsKey k
    → (search match_public true (codes "Public key: " ++ (k ++ (10 ∷ s))) ≡ some k)
      × (search match_public true (codes "Password (PublicKey): " ++ (k ++ (10 ∷ s))) ≡ some k)
unfolding search match_public literal blanks
public_line k s h = (rw (value_line k s h) refl, rw (value_line k s h) refl)

private_line :
    (k s : Text)
    → IsKey k
    → (search match_private true (codes "Private key: " ++ (k ++ (10 ∷ s))) ≡ some k)
      × (search match_private true (codes "PrivateKey: " ++ (k ++ (10 ∷ s))) ≡ some k)
unfolding search match_private literal blanks
private_line k s h = (rw (value_line k s h) refl, rw (value_line k s h) refl)

-- Both labels of a private key are passed over in the search for the public one.
passes :
    (k s : Text)
    → IsKey k
    → (search match_public true (codes "Private key: " ++ (k ++ (10 ∷ s)))
        ≡ search match_public true s)
      × (search match_public true (codes "PrivateKey: " ++ (k ++ (10 ∷ s)))
          ≡ search match_public true s)
unfolding search match_public literal blanks value
passes k s h = (search_line match_public k s h.1, search_line match_public k s h.1)

-- Of a private and a public key without blanks, as `xray x25519` prints them on two lines, in the
-- format of the versions before 26 or in that of 26, both are read back, whatever follows.
pub printed_read :
    (priv key rest : Text)
    → IsKey priv
    → IsKey key
    → let old =
        codes "Private key: " ++ (priv ++ (10 ∷ (codes "Public key: " ++ (key ++ (10 ∷ rest))))) in
      let new =
        codes "PrivateKey: "
        ++ (priv ++ (10 ∷ (codes "Password (PublicKey): " ++ (key ++ (10 ∷ rest))))) in
      (extract_private old ≡ some priv)
      × (extract_public old ≡ some key)
      × (extract_private new ≡ some priv)
      × (extract_public new ≡ some key)
unfolding extract_private extract_public
printed_read priv key rest hp hk =
    let old = codes "Public key: " ++ (key ++ (10 ∷ rest)) in
    let new = codes "Password (PublicKey): " ++ (key ++ (10 ∷ rest)) in
    (
      (private_line priv old hp).0,
      (passes priv old hp).0 ∙ (public_line key rest hk).0,
      (private_line priv new hp).1,
      (passes priv new hp).1 ∙ (public_line key rest hk).1,
    )
