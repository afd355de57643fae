-- ===== src/Relay/Invariant.antt =====
-- server/src/main.rs: what holds of the relay between two steps.
use wasm_rdp.Prelude.{◌≡◌, refl, sym, ap, ◌∙◌, Bool, true, false, [], ◌++◌}
use wasm_rdp.Relay.{
  WsMessage, binary, text, close, other, Json, plain, tunneling, ended, Relay, asks_upgrade,
}
use wasm_rdp.Relay.Prefixes.{
  payload, IsPrefix, IsPrefix-eq, has, up_to, behind, up_to_none, behind_none,
}

abbrev pub is_text : WsMessage → Bool
is_text (text _) = true
is_text (binary _) = false
is_text close = false
is_text other = false

module _ (json : Json) where
  -- The bytes that went each way. What the browser sent before its request for TLS went to the target in
  -- the plain stream, what it sent behind it within TLS, and nothing else went; so back, around the
  -- relay's text.
  pub record IsTransparent (r : Relay) : Type 0 where
    pub plain_up : IsPrefix (r.target_got) (payload (up_to (asks_upgrade json) (r.browser_sent)))
    pub tls_up : IsPrefix (r.tls_got) (payload (behind (asks_upgrade json) (r.browser_sent)))
    pub plain_down : IsPrefix (payload (up_to is_text (r.browser_got))) (r.target_sent)
    pub tls_down : IsPrefix (payload (behind is_text (r.browser_got))) (r.tls_sent)

  -- Before TLS nothing is on its way between two steps.
  pub record IsPlain (r : Relay) : Type 0 where
    pub no_request : has (asks_upgrade json) (r.browser_sent) ≡ false
    pub no_text : has is_text (r.browser_got) ≡ false
    pub all_up : r.target_got ≡ payload (r.browser_sent)
    pub all_down : payload (r.browser_got) ≡ r.target_sent
    pub no_tls_got : r.tls_got ≡ []
    pub no_tls_sent : r.tls_sent ≡ []
    pub no_up : r.up ≡ []
    pub no_down : r.down ≡ []

  -- Within TLS the rest is what a task holds.
  pub record IsTunneling (r : Relay) : Type 0 where
    pub request : has (asks_upgrade json) (r.browser_sent) ≡ true
    pub ready : has is_text (r.browser_got) ≡ true
    pub before_up : r.target_got ≡ payload (up_to (asks_upgrade json) (r.browser_sent))
    pub before_down : payload (up_to is_text (r.browser_got)) ≡ r.target_sent
    pub rest_up : r.tls_got ++ r.up ≡ payload (behind (asks_upgrade json) (r.browser_sent))
    pub rest_down : payload (behind is_text (r.browser_got)) ++ r.down ≡ r.tls_sent

  pub data Invariant (r : Relay) : Type 0 where
    in_plain : r.phase ≡ plain → IsPlain r → Invariant r
    in_tunnel : r.phase ≡ tunneling → IsTunneling r → Invariant r
    at_end : r.phase ≡ ended → IsTransparent r → Invariant r

  pub plain-IsTransparent : (r : Relay) → IsPlain r → IsTransparent r
  plain-IsTransparent r p = record {
    plain_up =
        IsPrefix-eq _ _
          (p.all_up ∙ ap payload (sym (up_to_none _ (r.browser_sent) (p.no_request))));
    tls_up = IsPrefix-eq _ _ (
        p.no_tls_got
        ∙ unfold payload in ap payload (sym (behind_none _ (r.browser_sent) (p.no_request))));
    plain_down =
        IsPrefix-eq _ _ (ap payload (up_to_none _ (r.browser_got) (p.no_text)) ∙ p.all_down);
    tls_down = IsPrefix-eq _ _ (
        unfold payload in
        ap payload (behind_none _ (r.browser_got) (p.no_text)) ∙ sym (p.no_tls_sent));
  }

  pub tunneling-IsTransparent : (r : Relay) → IsTunneling r → IsTransparent r
  tunneling-IsTransparent r p = record {
    plain_up = IsPrefix-eq _ _ (p.before_up);
    tls_up = (r.up, p.rest_up);
    plain_down = IsPrefix-eq _ _ (p.before_down);
    tls_down = (r.down, p.rest_down);
  }

  pub Invariant-IsTransparent : (r : Relay) → Invariant r → IsTransparent r
  Invariant-IsTransparent r (in_plain _ p) = plain-IsTransparent r p
  Invariant-IsTransparent r (in_tunnel _ p) = tunneling-IsTransparent r p
  Invariant-IsTransparent r (at_end _ t) = t

  pub finish-Invariant : (r : Relay) → IsTransparent r → Invariant (record r { phase = ended })
  finish-Invariant r t = at_end refl (record {
    plain_up = t.plain_up;
    tls_up = t.tls_up;
    plain_down = t.plain_down;
    tls_down = t.tls_down;
  })
