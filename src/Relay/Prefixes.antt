-- ===== src/Relay/Prefixes.antt =====
-- server/src/main.rs: the messages of a WebSocket before and behind one of them, and their bytes.
use wasm_rdp.Prelude.{
  ℕ, ◌≡◌, refl, sym, ap, ◌∙◌, Bool, true, false, ◌||◌, List, [], ◌∷◌, ◌++◌, append_assoc,
  append-nil, if◌then◌else◌, Bool-cases, inl, inr,
}
use wasm_rdp.Relay.{WsMessage, binary, text, close, other}

-- The bytes of the binary messages.
unfoldable pub payload : List WsMessage → List ℕ
payload [] = []
payload (binary bytes ∷ ms) = bytes ++ payload ms
payload (text _ ∷ ms) = payload ms
payload (close ∷ ms) = payload ms
payload (other ∷ ms) = payload ms

pub payload-append : (ms ns : List WsMessage) → payload (ms ++ ns) ≡ payload ms ++ payload ns
unfolding payload
payload-append [] ns = refl
payload-append (binary bytes ∷ ms) ns = simp (payload-append ms ns, append_assoc)
payload-append (text _ ∷ ms) ns = payload-append ms ns
payload-append (close ∷ ms) ns = payload-append ms ns
payload-append (other ∷ ms) ns = payload-append ms ns

-- The second list starts with the first.
abbrev pub IsPrefix : List ℕ → List ℕ → Type 0
IsPrefix xs ys = (rest : List ℕ) × (xs ++ rest ≡ ys)

pub IsPrefix-eq : (xs ys : List ℕ) → xs ≡ ys → IsPrefix xs ys
IsPrefix-eq xs ys e = ([], append-nil xs ∙ e)

pub IsPrefix-append : (xs ys zs : List ℕ) → IsPrefix xs ys → IsPrefix xs (ys ++ zs)
IsPrefix-append xs ys zs (rest, e) =
    (rest ++ zs, sym (append_assoc xs rest zs) ∙ ap (λ t. t ++ zs) e)

module _ (p : WsMessage → Bool) where
  unfoldable pub has : List WsMessage → Bool
  has [] = false
  has (m ∷ ms) = p m || has ms

  -- The messages before the first that passes the test.
  unfoldable pub up_to : List WsMessage → List WsMessage
  up_to [] = []
  up_to (m ∷ ms) = let rest = up_to ms in if p m then [] else m ∷ rest

  -- The messages behind it.
  unfoldable pub behind : List WsMessage → List WsMessage
  behind [] = []
  behind (m ∷ ms) = let rest = behind ms in if p m then ms else rest

  pub has-append : (ms : List WsMessage) (m : WsMessage) → has (ms ++ m ∷ []) ≡ has ms || p m
  unfolding has
  has-append [] m = or_false (p m)
    where
      or_false : (b : Bool) → b || false ≡ b
      or_false true = refl
      or_false false = refl
  has-append (n ∷ ms) m = rw (has-append ms m) (assoc (p n) (has ms) (p m))
    where
      assoc : (a b c : Bool) → a || (b || c) ≡ (a || b) || c
      assoc true b c = refl
      assoc false b c = refl

  split_or : (a b : Bool) → a || b ≡ false → (a ≡ false) × (b ≡ false)
  split_or true b e = absurd (clash e)
    where
      clash : true ≡ false → ⊥
      clash e = cc
  split_or false b e = (refl, e)

  pub up_to-append_none :
      (ms : List WsMessage) (m : WsMessage)
      → has ms ≡ false
      → up_to (ms ++ m ∷ []) ≡ (if p m then ms else ms ++ m ∷ [])
  unfolding has up_to
  up_to-append_none [] m h = refl
  up_to-append_none (n ∷ ms) m h =
      let (first, later) = split_or (p n) (has ms) h in
      rw first (ap (λ t. n ∷ t) (up_to-append_none ms m later) ∙ push (p m))
    where
      push :
          (b : Bool)
          → n ∷ (if b then ms else ms ++ m ∷ []) ≡ (if b then n ∷ ms else n ∷ ms ++ m ∷ [])
      push true = refl
      push false = refl

  pub up_to_none : (ms : List WsMessage) → has ms ≡ false → up_to ms ≡ ms
  unfolding has up_to
  up_to_none [] h = refl
  up_to_none (n ∷ ms) h =
      let (first, later) = split_or (p n) (has ms) h in
      rw first (ap (λ t. n ∷ t) (up_to_none ms later))

  pub behind_none : (ms : List WsMessage) → has ms ≡ false → behind ms ≡ []
  unfolding has behind
  behind_none [] h = refl
  behind_none (n ∷ ms) h =
      let (first, later) = split_or (p n) (has ms) h in rw first (behind_none ms later)

  pub behind-append_none :
      (ms : List WsMessage) (m : WsMessage) → has ms ≡ false → behind (ms ++ m ∷ []) ≡ []
  unfolding has behind
  behind-append_none [] m h = both (p m)
    where
      both : (b : Bool) → (if◌then◌else◌ {A = List WsMessage} b [] []) ≡ []
      both true = refl
      both false = refl
  behind-append_none (n ∷ ms) m h =
      let (first, later) = split_or (p n) (has ms) h in rw first (behind-append_none ms m later)

  pub up_to-append :
      (ms : List WsMessage) (m : WsMessage) → has ms ≡ true → up_to (ms ++ m ∷ []) ≡ up_to ms
  unfolding has up_to
  up_to-append [] m h = cc
  up_to-append (n ∷ ms) m h = elim (Bool-cases (p n)) [
    | inl e ↦ rw e
    | inr e ↦ rw e (ap (λ t. n ∷ t) (up_to-append ms m (rw e at h)))
  ]

  pub behind-append :
      (ms : List WsMessage) (m : WsMessage)
      → has ms ≡ true
      → behind (ms ++ m ∷ []) ≡ behind ms ++ m ∷ []
  unfolding has behind
  behind-append [] m h = cc
  behind-append (n ∷ ms) m h = elim (Bool-cases (p n)) [
    | inl e ↦ rw e
    | inr e ↦ rw e (behind-append ms m (rw e at h))
  ]
