-- ===== src/Gfx/Annexb.antt =====
-- wasm/src/session.rs: `avc_to_annexb`, from length prefixes to start codes.
use wasm_rdp.Prelude.{
  ℕ, zero, suc, ◌+◌, ◌-◌, ◌*◌, ◌/◌, ◌%◌, ◌^◌, ◌≤◌, ◌<◌, ◌≡◌, refl, sym, min, Bool, true, false,
  ◌||◌, List, [], ◌∷◌, ◌++◌, append_assoc, length, length-append, drop, take-append, drop-append,
  get_elem?-append, All, leb, ltb, le→leb, gt→leb, lt→ltb, ◌==◌, if◌then◌else◌, bit_and, Outcome,
  returned, panicked, and_then, index, arith,
}
use wasm_rdp.Gfx.{read_slice, write_slice}

abbrev pub of_be32 : List ℕ → ℕ
of_be32 (a ∷ b ∷ c ∷ d ∷ _) = 16777216 * a + 65536 * b + 256 * c + d
of_be32 _ = 0

abbrev pub be32 : ℕ → List ℕ
be32 v = v / 16777216 % 256 ∷ v / 65536 % 256 ∷ v / 256 % 256 ∷ v % 256 ∷ []

abbrev pub start_code : List ℕ
start_code = 0 ∷ 0 ∷ 0 ∷ 1 ∷ []

-- `nal_start < out.len() && (out[nal_start] & 0x1F) == 5`
abbrev pub is_idr : ℕ → List ℕ → Outcome Bool
is_idr nal_start out =
    if ltb nal_start (length out)
    then (and_then (index out nal_start) λ b. returned (bit_and b 0x1F == 5))
    else returned false

-- The loop; each round moves `pos` by four bytes or more. `usize` has 32 bits.
unfoldable pub annexb_loop : ℕ → List ℕ → ℕ → Bool → Outcome (List ℕ × Bool)
annexb_loop zero out pos is_keyframe = panicked
annexb_loop (suc fuel) out pos is_keyframe =
    let round = and_then (read_slice pos 4 out) λ prefix.
      and_then (write_slice pos start_code out) λ out'. and_then (is_idr (pos + 4) out') λ idr.
        annexb_loop fuel out' (min (pos + 4 + of_be32 prefix) (2 ^ 32 - 1)) (is_keyframe || idr) in
    if leb (pos + 4) (length out) then round else returned (out, is_keyframe)

unfoldable pub avc_to_annexb : List ℕ → Outcome (List ℕ × Bool)
unfolding annexb_loop
avc_to_annexb bytes = annexb_loop (suc (length bytes)) bytes 0 false

-- An access unit as the server sends it, and as a decoder takes it.
unfoldable pub prefixed : List (List ℕ) → List ℕ
prefixed [] = []
prefixed (nal ∷ nals) = be32 (length nal) ++ (nal ++ prefixed nals)

unfoldable pub annexb : List (List ℕ) → List ℕ
annexb [] = []
annexb (nal ∷ nals) = start_code ++ (nal ++ annexb nals)

-- The NAL type is in the low five bits of the first byte.
unfoldable pub any_idr : List (List ℕ) → Bool
any_idr [] = false
any_idr ([] ∷ nals) = any_idr nals
any_idr ((b ∷ _) ∷ nals) = bit_and b 0x1F == 5 || any_idr nals

read_slice_here :
    (xs ys zs : List ℕ) (n : ℕ)
    → length ys ≡ n
    → read_slice (length xs) n (xs ++ (ys ++ zs)) ≡ returned ys
unfolding read_slice
read_slice_here xs ys zs n e = rw (
  le→leb (length xs + n) (length (xs ++ (ys ++ zs)))
      (omega (arith, length-append xs (ys ++ zs), length-append ys zs)),
  drop-append xs (ys ++ zs),
  ← e,
  take-append ys zs,
)

write_slice_here :
    (xs ys zs part : List ℕ)
    → length ys ≡ length part
    → write_slice (length xs) part (xs ++ (ys ++ zs)) ≡ returned (xs ++ (part ++ zs))
unfolding write_slice
write_slice_here xs ys zs part e =
    let past : drop (length xs + length part) (xs ++ (ys ++ zs)) ≡ zs =
      rw (← e, ← length-append xs ys, ← append_assoc xs ys zs) (drop-append (xs ++ ys) zs) in
    rw (
      le→leb (length xs + length part) (length (xs ++ (ys ++ zs)))
          (omega (arith, length-append xs (ys ++ zs), length-append ys zs)),
      past,
      take-append xs (ys ++ zs),
    )

of_be32-be32 : (v : ℕ) → v < 2 ^ 32 → of_be32 (be32 v) ≡ v
of_be32-be32 v h = omega arith

or_false : (b : Bool) → b ≡ b || false
or_false true = refl
or_false false = refl

or_assoc : (a b c : Bool) → (a || b) || c ≡ a || (b || c)
or_assoc true b c = refl
or_assoc false b c = refl

index_here : (xs : List ℕ) (c : ℕ) (ys : List ℕ) → index (xs ++ (c ∷ ys)) (length xs) ≡ returned c
index_here xs c ys = rw (index, get_elem?-append xs ys c)

-- The first byte behind the start code.
is_idr_here :
    (done : List ℕ) (c : ℕ) (rest : List ℕ)
    → is_idr (length done + 4) (done ++ (start_code ++ (c ∷ rest))) ≡ returned (bit_and c 0x1F == 5)
is_idr_here done c rest =
    let out = done ++ start_code in
    let at : length out ≡ length done + 4 = length-append done start_code in
    rw (
      ← append_assoc done start_code (c ∷ rest),
      ← at,
      lt→ltb (length out) (length (out ++ (c ∷ rest)))
          (omega (arith, length-append out (c ∷ rest))),
      index_here out c rest,
    )

abbrev IsNal : List ℕ → Type 0
IsNal nal = 0 < length nal

loop-annexb :
    (nals : List (List ℕ)) (done : List ℕ) (key : Bool) (fuel : ℕ)
    → All IsNal nals
    → length done + length (prefixed nals) < 2 ^ 32
    → length nals < fuel
    → annexb_loop fuel (done ++ prefixed nals) (length done) key
      ≡ returned (done ++ annexb nals, key || any_idr nals)
unfolding annexb_loop prefixed annexb any_idr
loop-annexb nals done key zero h small enough = absurd (omega arith)
loop-annexb [] done key (suc fuel) h small enough = rw (
  gt→leb (length done + 4) (length (done ++ [])) (omega (arith, length-append done [])),
  ← or_false key,
)
loop-annexb ([] ∷ nals) done key (suc fuel) h small enough = absurd (omega (arith, h.0))
loop-annexb ((c ∷ cs) ∷ nals) done key (suc fuel) h small enough =
    let nal = c ∷ cs in
    let rest = nal ++ prefixed nals in
    let prefix = be32 (length nal) in
    let sizes = length-append nal (prefixed nals) in
    let next = done ++ (start_code ++ nal) in
    let next_length : length next ≡ length done + (4 + length nal) =
      omega (arith, length-append done (start_code ++ nal)) in
    let moved : min (length done + 4 + of_be32 prefix) (2 ^ 32 - 1) ≡ length next =
      rw (of_be32-be32 (length nal) (omega (arith, sizes))) (omega (arith, sizes, next_length)) in
    let regroup : done ++ (start_code ++ rest) ≡ next ++ prefixed nals =
      sym (append_assoc done (start_code ++ nal) (prefixed nals)) in
    let regroup' : next ++ annexb nals ≡ done ++ (start_code ++ (nal ++ annexb nals)) =
      append_assoc done (start_code ++ nal) (annexb nals) in
    rw (
      le→leb (length done + 4) (length (done ++ (prefix ++ rest)))
          (omega (arith, length-append done (prefix ++ rest), length-append prefix rest)),
      read_slice_here done prefix rest 4 refl,
      write_slice_here done prefix rest start_code refl,
      is_idr_here done c (cs ++ prefixed nals),
      moved,
      regroup,
      loop-annexb nals next (key || (bit_and c 0x1F == 5)) fuel h.1
          (omega (arith, sizes, next_length)) (omega arith),
      regroup',
      or_assoc key (bit_and c 0x1F == 5) (any_idr nals),
    )

length-prefixed : (nals : List (List ℕ)) → length nals ≤ length (prefixed nals)
unfolding prefixed
length-prefixed [] = omega arith
length-prefixed (nal ∷ nals) =
    omega (arith, length-prefixed nals, length-append nal (prefixed nals))

-- An access unit of less than 4 GiB, of NALs that are not empty, each behind its length, becomes the same
-- NALs, each behind a start code; and it is reported as a key frame exactly if one of them is an IDR
-- slice. The loop ends, and nothing panics.
pub avc_to_annexb-annexb :
    (nals : List (List ℕ))
    → All (λ nal. 0 < length nal) nals
    → length (prefixed nals) < 2 ^ 32
    → avc_to_annexb (prefixed nals) ≡ returned (annexb nals, any_idr nals)
unfolding avc_to_annexb
avc_to_annexb-annexb nals h small =
    loop-annexb nals [] false (suc (length (prefixed nals))) h (omega (arith, small))
      (omega (arith, length-prefixed nals))
