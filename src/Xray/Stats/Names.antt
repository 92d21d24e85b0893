-- ===== src/Xray/Stats/Names.antt =====
-- Which counter names `parseUserStatName` reads.
use flint2_xray_web_console.Base.{
  ◌≡◌, false, some, [], ◌∷◌, ◌++◌, Text, codes, All, ◌==◌, refl, ◌∙◌, ap,
}
use flint2_xray_web_console.Xray.Stats.{
  split, split_from, parse_user_stat_name, extract_online_email, sep,
}
use flint2_xray_web_console.Base.Strings.{has_prefix}
use flint2_xray_web_console.Base.Bytes.{text_eq}

-- no byte of it is `>`
abbrev pub IsPlain : Text → Type 0
IsPlain s = All (λ c. (c == 62) ≡ false) s

-- a part up to a separator
split_part : (p s : Text) → IsPlain p → split_from 0 (p ++ (sep ++ s)) ≡ p ∷ split_from 0 s
unfolding split_from has_prefix
split_part [] s h = refl
split_part (c ∷ p) s h = rw (h.0, split_part p s h.1) refl

split_last : (p : Text) → IsPlain p → split_from 0 p ≡ p ∷ []
unfolding split_from has_prefix
split_last [] h = refl
split_last (c ∷ p) h = rw (h.0, split_last p h.1) refl

split_name :
    (email direction : Text)
    → IsPlain email
    → IsPlain direction
    → split (codes "user" ++ (sep ++ (email ++ (sep ++ (codes "traffic" ++ (sep ++ direction))))))
      ≡ codes "user" ∷ email ∷ codes "traffic" ∷ direction ∷ []
unfolding split
split_name email direction he hd =
    let last = codes "traffic" ++ (sep ++ direction) in
    split_part (codes "user") (email ++ (sep ++ last)) (refl, (refl, (refl, (refl, tt))))
    ∙ ap (λ ps. codes "user" ∷ ps)
        (split_part email last he
          ∙ ap (λ ps. email ∷ ps)
              (split_part (codes "traffic") direction
                  (refl, (refl, (refl, (refl, (refl, (refl, (refl, tt)))))))
                ∙ ap (λ ps. codes "traffic" ∷ ps) (split_last direction hd)))

split_online :
    (email : Text)
    → IsPlain email
    → split (codes "user" ++ (sep ++ (email ++ (sep ++ codes "online"))))
      ≡ codes "user" ∷ email ∷ codes "online" ∷ []
unfolding split
split_online email he =
    split_part (codes "user") (email ++ (sep ++ codes "online")) (refl, (refl, (refl, (refl, tt))))
    ∙ ap (λ ps. codes "user" ∷ ps)
        (split_part email (codes "online") he
          ∙ ap (λ ps. email ∷ ps)
              (split_last (codes "online") (refl, (refl, (refl, (refl, (refl, (refl, tt))))))))

read_parts :
    (name email direction : Text)
    → split name ≡ codes "user" ∷ email ∷ codes "traffic" ∷ direction ∷ []
    → parse_user_stat_name name ≡ some (email, direction)
unfolding parse_user_stat_name text_eq
read_parts name email direction e = rw (parse_user_stat_name, e) refl

online_parts :
    (name email : Text)
    → split name ≡ codes "user" ∷ email ∷ codes "online" ∷ []
    → extract_online_email name ≡ email
unfolding extract_online_email text_eq
online_parts name email e = rw (extract_online_email, e) refl

-- The name of a counter that xray keeps for a user, where neither the email nor the direction has a
-- `>`, is read as that email and that direction; the name that it gives an online user is read as
-- the email.
pub names_read :
    (email direction : Text)
    → IsPlain email
    → IsPlain direction
    → (parse_user_stat_name
          (codes "user" ++ (sep ++ (email ++ (sep ++ (codes "traffic" ++ (sep ++ direction))))))
        ≡ some (email, direction))
      × (extract_online_email (codes "user" ++ (sep ++ (email ++ (sep ++ codes "online")))) ≡ email)
names_read email direction he hd = (
  read_parts _ email direction (split_name email direction he hd),
  online_parts _ email (split_online email he),
)
