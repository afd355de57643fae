-- ===== src/Pages/Written.antt =====
-- server/src/main.rs: the page reads the list of applications that is written into it.
use wasm_rdp.Prelude.{
  ℕ, zero, suc, ◌≤◌, ◌≡◌, refl, some, List, [], ◌∷◌, ◌++◌, map, codes, length, append_assoc,
  length-append, ap, ◌∙◌, All, arith,
}
use wasm_rdp.Redirect.{trim}
use wasm_rdp.Pages.Catalogue.{esc, item, join}
use wasm_rdp.Pages.Literal.{
  App, expect, read_app, with_program, read_items, read_apps, cons_app, after_bracket, NoBreak,
  read_string-esc,
}

-- A name and a program without the white space around them.
abbrev pub trimmed : List ℕ × List ℕ → App
trimmed (name, program) = (trim name, trim program)

abbrev pub Clean : List ℕ × List ℕ → Type 0
Clean (name, program) = All NoBreak (trim name) × All NoBreak (trim program)

read_app-item :
    (pair : List ℕ × List ℕ) (rest : List ℕ)
    → Clean pair
    → read_app (item pair ++ rest) ≡ some (trimmed pair, rest)
unfolding read_app item expect
read_app-item (name, program) rest (h, k) =
    rw
      (
        append_assoc (esc (trim name)),
        read_string-esc (trim name) _ h,
        append_assoc (esc (trim program)),
      )
      (ap (with_program (trim name)) (read_string-esc (trim program) (b'}' ∷ rest) k))

read_items-join :
    (fuel : ℕ) (pair : List ℕ × List ℕ) (pairs : List (List ℕ × List ℕ))
    → length (pair ∷ pairs) ≤ fuel
    → All Clean (pair ∷ pairs)
    → read_items fuel (join (map item (pair ∷ pairs)) ++ codes "]")
      ≡ some (map trimmed (pair ∷ pairs))
unfolding read_items join
read_items-join zero pair pairs h k = absurd (omega arith)
read_items-join (suc fuel) pair [] h (k, _) = rw (read_items, read_app-item pair (codes "]") k) refl
read_items-join (suc fuel) pair (next ∷ pairs) h (k, ks) =
    rw
      (
        append_assoc (item pair) (codes "," ++ join (map item (next ∷ pairs))) (codes "]"),
        read_items,
        read_app-item pair ((codes "," ++ join (map item (next ∷ pairs))) ++ codes "]") k,
      )
      (ap (cons_app (trimmed pair)) (read_items-join fuel next pairs (omega arith) ks))

item-nonempty : (pair : List ℕ × List ℕ) → 1 ≤ length (item pair)
unfolding item
item-nonempty (name, program) = omega arith

enough :
    (pair : List ℕ × List ℕ) (pairs : List (List ℕ × List ℕ))
    → length (pair ∷ pairs) ≤ length (join (map item (pair ∷ pairs)) ++ codes "]")
unfolding join
enough pair [] = omega (arith, length-append (item pair) (codes "]"), item-nonempty pair)
enough pair (next ∷ pairs) =
    rw (append_assoc (item pair) (codes "," ++ join (map item (next ∷ pairs))) (codes "]")) (
      omega (
        arith,
        length-append (item pair) ((codes "," ++ join (map item (next ∷ pairs))) ++ codes "]"),
        item-nonempty pair,
        enough next pairs,
      ))

two_or_more :
    (t : List ℕ) (a b : ℕ) (rest : List ℕ)
    → t ≡ a ∷ b ∷ rest
    → after_bracket t ≡ read_items (length t) t
two_or_more t a b rest e = rw e refl

item-starts : (pair : List ℕ × List ℕ) → (rest : List ℕ) × (item pair ≡ b'{' ∷ b'"' ∷ rest)
unfolding item
item-starts (name, program) = (_, refl)

join-starts :
    (pair : List ℕ × List ℕ) (pairs : List (List ℕ × List ℕ))
    → (rest : List ℕ) × (join (map item (pair ∷ pairs)) ++ codes "]" ≡ b'{' ∷ b'"' ∷ rest)
unfolding join
join-starts pair [] =
    let (rest, e) = item-starts pair in (rest ++ codes "]", ap (λ q. q ++ codes "]") e)
join-starts pair (next ∷ pairs) =
    let (rest, e) = item-starts pair in
    (
      (rest ++ (codes "," ++ join (map item (next ∷ pairs)))) ++ codes "]",
      ap (λ q. (q ++ (codes "," ++ join (map item (next ∷ pairs)))) ++ codes "]") e,
    )

pub read_apps-join :
    (pair : List ℕ × List ℕ) (pairs : List (List ℕ × List ℕ))
    → All Clean (pair ∷ pairs)
    → read_apps (codes "[" ++ (join (map item (pair ∷ pairs)) ++ codes "]"))
      ≡ some (map trimmed (pair ∷ pairs))
unfolding read_apps expect
read_apps-join pair pairs h =
    let (rest, e) = join-starts pair pairs in
    two_or_more (join (map item (pair ∷ pairs)) ++ codes "]") b'{' b'"' rest e
    ∙ read_items-join (length (join (map item (pair ∷ pairs)) ++ codes "]")) pair pairs
        (enough pair pairs) h
