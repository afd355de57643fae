-- ===== src/Pages/Script.antt =====
-- server/src/main.rs: the end of the script that the list of applications is written into.
use wasm_rdp.Prelude.{
  ℕ, ◌≡◌, refl, ap, ◌∙◌, false, List, [], ◌∷◌, ◌++◌, map, codes, ◌==◌, starts_with, Bool-cases, inl,
  inr, All,
}
use wasm_rdp.Redirect.{trim}
use wasm_rdp.Pages.Catalogue.{replace_char, esc, item, join}
use wasm_rdp.Pages.Literal.{script_text, value_text}

-- A character that begins no tag.
abbrev pub NoTag : ℕ → Type 0
NoTag c = (c == b'<') ≡ false

abbrev pub Tagless : List ℕ × List ℕ → Type 0
Tagless (name, program) = All NoTag (trim name) × All NoTag (trim program)

All-append : (xs ys : List ℕ) → All NoTag xs → All NoTag ys → All NoTag (xs ++ ys)
All-append [] ys h k = k
All-append (x ∷ xs) ys (h, hs) k = (h, All-append xs ys hs k)

replace_char-NoTag :
    (x : ℕ) (by cs : List ℕ) → All NoTag by → All NoTag cs → All NoTag (replace_char x by cs)
unfolding replace_char
replace_char-NoTag x by [] h k = tt
replace_char-NoTag x by (c ∷ cs) h (k, ks) = elim (Bool-cases (c == x)) [
  | inl e ↦ rw e (All-append by _ h (replace_char-NoTag x by cs h ks))
  | inr e ↦ rw e (k, replace_char-NoTag x by cs h ks)
]

esc-NoTag : (s : List ℕ) → All NoTag s → All NoTag (esc s)
unfolding esc
esc-NoTag s h =
    replace_char-NoTag b'"' (codes "\\\"") _ (refl, (refl, tt))
      (replace_char-NoTag b'\\' (codes "\\\\") s (refl, (refl, tt)) h)

item-NoTag : (pair : List ℕ × List ℕ) → Tagless pair → All NoTag (item pair)
unfolding item
item-NoTag (name, program) (h, k) =
    All-append (codes "{\"name\":\"") _
      (refl, (refl, (refl, (refl, (refl, (refl, (refl, (refl, (refl, tt)))))))))
      (All-append (esc (trim name)) _ (esc-NoTag (trim name) h) (
        All-append (codes "\",\"program\":\"") _
          (
            refl,
            (
              refl,
              (
                refl,
                (refl, (refl, (refl, (refl, (refl, (refl, (refl, (refl, (refl, (refl, tt)))))))))),
              ),
            ),
          )
          (All-append (esc (trim program)) _ (esc-NoTag (trim program) k) (refl, (refl, tt)))))

join-NoTag :
    (pairs : List (List ℕ × List ℕ)) → All Tagless pairs → All NoTag (join (map item pairs))
unfolding join
join-NoTag [] h = tt
join-NoTag (pair ∷ []) (h, _) = item-NoTag pair h
join-NoTag (pair ∷ next ∷ pairs) (h, hs) =
    All-append (item pair) _ (item-NoTag pair h)
      (All-append (codes ",") _ (refl, tt) (join-NoTag (next ∷ pairs) hs))

script_text-list :
    (list page : List ℕ)
    → All NoTag list
    → script_text (list ++ (codes ";</script>" ++ page)) ≡ list ++ codes ";"
unfolding script_text starts_with
script_text-list [] page h = refl
script_text-list (c ∷ list) page (h, hs) =
    rw (script_text, starts_with, h) (ap (λ q. c ∷ q) (script_text-list list page hs))

value_text-statement : (list : List ℕ) → value_text (list ++ codes ";") ≡ list
unfolding value_text
value_text-statement [] = refl
value_text-statement (c ∷ []) = refl
value_text-statement (c ∷ d ∷ list) = ap (λ q. c ∷ q) (value_text-statement (d ∷ list))

pub value_text-page :
    (pairs : List (List ℕ × List ℕ)) (page : List ℕ)
    → All Tagless pairs
    → value_text (
        script_text
          ((codes "[" ++ (join (map item pairs) ++ codes "]")) ++ (codes ";</script>" ++ page)))
      ≡ codes "[" ++ (join (map item pairs) ++ codes "]")
value_text-page pairs page h =
    ap value_text (
      script_text-list (codes "[" ++ (join (map item pairs) ++ codes "]")) page
        (refl, All-append (join (map item pairs)) _ (join-NoTag pairs h) (refl, tt)))
    ∙ value_text-statement (codes "[" ++ (join (map item pairs) ++ codes "]"))
