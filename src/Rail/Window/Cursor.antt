-- ===== src/Rail/Window/Cursor.antt =====
-- A reader that stands between two parts of its buffer, and what a successful read does there.
use wasm_rdp.Prelude.{
  ℕ, ◌+◌, ◌≤◌, ◌≡◌, refl, sym, ap, Bool, true, false, Option, none, some, List, [], ◌∷◌, ◌++◌,
  append_assoc, append-nil, length, length-append, get_elem?, get_elem?-append, take-append,
  drop-append, le→leb, ge→ltb, IsU16, IsU32, le16, le32, of_le16-le16, of_le32-le32, arith,
}
use wasm_rdp.Rail.Window.Reader.{
  Reader, Get, ◌>>=◌, pure, advance, get_range, remaining, u8, u16, u32, bytes, skip, new,
}
use wasm_rdp.Rail.Window.Order.{when, optional}

unfoldable pub cursor : List ℕ → List ℕ → Reader
cursor before after = record { buf = before ++ after; pos = length before }

pub new-cursor : (payload : List ℕ) → new payload ≡ cursor [] payload
unfolding new cursor
new-cursor payload = refl

pub advance-cursor :
    (before xs after : List ℕ) (n : ℕ)
    → length xs ≡ n
    → advance (cursor before (xs ++ after)) n ≡ cursor (before ++ xs) after
unfolding cursor
advance-cursor before xs after n e =
    λ i. record { buf = sym (append_assoc before xs after) i; pos = moved i }
  where
    moved : length before + n ≡ length (before ++ xs)
    moved = omega (arith, length-append before xs)

get_range-cursor :
    (before xs after : List ℕ) (n : ℕ)
    → length xs ≡ n
    → let r = cursor before (xs ++ after) in get_range r.buf r.pos n ≡ some xs
unfolding cursor
get_range-cursor before xs after n e =
    rw (le→leb (length before + n) (length (before ++ (xs ++ after))) fits)
      (rw drop-append (rw (← e) (ap some (take-append xs after))))
  where
    fits : length before + n ≤ length (before ++ (xs ++ after))
    fits = omega (arith, length-append before (xs ++ after), length-append xs after)

get_elem?-cursor :
    (before after : List ℕ) (b : ℕ)
    → let r = cursor before (b ∷ after) in get_elem? r.buf r.pos ≡ some b
unfolding cursor
get_elem?-cursor before after b = get_elem?-append before after b

-- `m` reads `a` off the bytes `xs`, whatever surrounds them.
pub record Reads {A : Type 0} (m : Get A) (a : A) (xs : List ℕ) : Type 0 where
  pub between :
      (before after : List ℕ)
      → m (cursor before (xs ++ after)) ≡ (some a, cursor (before ++ xs) after)

pub bytes-Reads : (xs : List ℕ) (n : ℕ) → length xs ≡ n → Reads (bytes n) xs xs
unfolding bytes
bytes-Reads xs n e = record {
  between = λ before after.
      rw (get_range-cursor before xs after n e, bytes)
        (ap (λ r. (some xs, r)) (advance-cursor before xs after n e));
}

pub u8-Reads : (b : ℕ) → Reads u8 b (b ∷ [])
unfolding u8
u8-Reads b = record {
  between = λ before after.
      rw (get_elem?-cursor before after b, u8)
        (ap (λ r. (some b, r)) (advance-cursor before (b ∷ []) after 1 refl));
}

pub u16-Reads : (v : ℕ) → IsU16 v → Reads u16 v (le16 v)
unfolding u16
u16-Reads v h = record {
  between = λ before after.
      rw (get_range-cursor before (le16 v) after 2 refl, u16)
        (λ i. (some (of_le16-le16 v h i), advance-cursor before (le16 v) after 2 refl i));
}

pub u32-Reads : (v : ℕ) → IsU32 v → Reads u32 v (le32 v)
unfolding u32
u32-Reads v h = record {
  between = λ before after.
      rw (get_range-cursor before (le32 v) after 4 refl, u32)
        (λ i. (some (of_le32-le32 v h i), advance-cursor before (le32 v) after 4 refl i));
}

pub remaining-cursor : (before after : List ℕ) → remaining (cursor before after) ≡ length after
unfolding remaining cursor
remaining-cursor before after = omega (arith, length-append before after)

pub skip-Reads : (xs : List ℕ) (n : ℕ) → length xs ≡ n → Reads (skip n) tt xs
unfolding skip
skip-Reads xs n e = record {
  between = λ before after.
      rw (ge→ltb (remaining (cursor before (xs ++ after))) n (enough before after))
        (ap (λ r. (some tt, r)) (advance-cursor before xs after n e));
}
  where
    enough : (before after : List ℕ) → n ≤ remaining (cursor before (xs ++ after))
    enough before after =
        omega (arith, remaining-cursor before (xs ++ after), length-append xs after)

pub pure-Reads : {A : Type 0} (a : A) → Reads (pure a) a []
pure-Reads a = record {
  between = λ before after. ap (λ b. (some a, cursor b after)) (sym (append-nil before));
}

pub bind-Reads :
    {A B : Type 0} {m : Get A} (f : A → Get B) {a : A} {b : B} {xs ys : List ℕ}
    → Reads m a xs
    → Reads (f a) b ys
    → Reads (m >>= f) b (xs ++ ys)
bind-Reads f {xs} {ys} h k = record {
  between = λ before after. rw (append_assoc xs ys after) (
      rw (h.between before (ys ++ after))
        (rw (← append_assoc before xs ys) (k.between (before ++ xs) after)));
}

abbrev pub is_some : {A : Type 0} → Option A → Bool
is_some none = false
is_some (some _) = true

-- The bytes of a field that is present.
abbrev pub present : {A : Type 0} → (A → List ℕ) → Option A → List ℕ
present enc none = []
present enc (some a) = enc a

pub optional-Reads :
    {A : Type 0} {b : Bool} (m : Get A) (enc : A → List ℕ) (o : Option A)
    → b ≡ is_some o
    → ((a : A) → o ≡ some a → Reads m a (enc a))
    → Reads (optional b m) o (present enc o)
optional-Reads m enc none e h = rw e (pure-Reads none)
optional-Reads m enc (some a) e h =
    rw e (rw (← append-nil (enc a)) (bind-Reads _ (h a refl) (pure-Reads (some a))))

-- A field that is read over.
pub skipped-Reads :
    {A : Type 0} {b : Bool} (m : Get (Unit {0})) (enc : A → List ℕ) (o : Option A)
    → b ≡ is_some o
    → ((a : A) → o ≡ some a → Reads m tt (enc a))
    → Reads (when b m) tt (present enc o)
skipped-Reads m enc none e h = rw e (pure-Reads tt)
skipped-Reads m enc (some a) e h = rw e (h a refl)
