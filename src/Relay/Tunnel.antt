-- ===== src/Relay/Tunnel.antt =====
-- server/src/main.rs: the steps of `run_tls_relay`.
use wasm_rdp.Prelude.{
  ℕ, ◌≡◌, refl, sym, ap, ◌∙◌, List, [], ◌∷◌, ◌++◌, append_assoc, append-nil, take, drop, take-drop,
}
use wasm_rdp.Relay.{
  WsMessage, binary, text, close, other, Received, message, broken, over, ReadResult, got, failed,
  Json, tunneling, Relay, Event, from_browser, from_target, target_takes, target_fails,
  browser_takes, browser_fails, asks_upgrade, tunnel_from_browser, tunnel_from_target, tunnel_step,
  read_from, tunnel_message, hold, deliver, if_pending,
}
use wasm_rdp.Relay.Prefixes.{
  payload, payload-append, IsPrefix-append, behind, has-append, up_to-append, behind-append,
}
use wasm_rdp.Relay.Invariant.{
  is_text, IsTransparent, IsTunneling, Invariant, in_tunnel, tunneling-IsTransparent,
  finish-Invariant,
}

module _ (json : Json) where
  -- A message of the browser within TLS, while nothing is to be written.
  took_in_tunnel :
      (r : Relay) (m : WsMessage) (bytes : List ℕ)
      → payload (m ∷ []) ≡ bytes
      → r.up ≡ []
      → IsTunneling json r
      → IsTunneling json (record r { browser_sent = r.browser_sent ++ m ∷ []; up = bytes })
  took_in_tunnel r m bytes e idle p = record {
    request = rw (has-append (asks_upgrade json) (r.browser_sent) m, p.request);
    ready = p.ready;
    before_up = rw (up_to-append (asks_upgrade json) (r.browser_sent) m (p.request)) (p.before_up);
    before_down = p.before_down;
    rest_up =
        rw
          (
            behind-append (asks_upgrade json) (r.browser_sent) m (p.request),
            payload-append (behind (asks_upgrade json) (r.browser_sent)) (m ∷ []),
            e,
          )
          (ap (λ t. t ++ bytes) (rw (idle, append-nil (r.tls_got)) at (p.rest_up)));
    rest_down = p.rest_down;
  }

  took_at_end :
      (r : Relay) (m : WsMessage)
      → IsTunneling json r
      → IsTransparent json (record r { browser_sent = r.browser_sent ++ m ∷ [] })
  took_at_end r m p =
      let t = tunneling-IsTransparent json r p in
      record {
        plain_up =
            rw (up_to-append (asks_upgrade json) (r.browser_sent) m (p.request)) (t.plain_up);
        tls_up =
            rw
              (
                behind-append (asks_upgrade json) (r.browser_sent) m (p.request),
                payload-append (behind (asks_upgrade json) (r.browser_sent)) (m ∷ []),
              )
              (IsPrefix-append _ _ (payload (m ∷ [])) (t.tls_up));
        plain_down = t.plain_down;
        tls_down = t.tls_down;
      }

  tunnel_message-Invariant :
      (m : WsMessage) (r : Relay)
      → r.phase ≡ tunneling
      → r.up ≡ []
      → IsTunneling json r
      → Invariant json
          (tunnel_message json m (record r { browser_sent = r.browser_sent ++ m ∷ [] }))
  tunnel_message-Invariant (binary bytes) r e idle p =
      in_tunnel e
        (took_in_tunnel r (binary bytes) bytes (unfold payload in append-nil bytes) idle p)
  tunnel_message-Invariant close r e idle p = finish-Invariant json _ (took_at_end r close p)
  tunnel_message-Invariant (text t) r e idle p =
      in_tunnel e (rw (← idle) at (took_in_tunnel r (text t) [] (unfold payload in refl) idle p))
  tunnel_message-Invariant other r e idle p =
      in_tunnel e (rw (← idle) at (took_in_tunnel r other [] (unfold payload in refl) idle p))

  tunnel_from_browser-Invariant :
      (m : Received) (up : List ℕ) (r : Relay)
      → r.phase ≡ tunneling
      → r.up ≡ up
      → IsTunneling json r
      → Invariant json (tunnel_from_browser json m up r)
  unfolding tunnel_from_browser
  tunnel_from_browser-Invariant (message m) [] r e idle p = tunnel_message-Invariant m r e idle p
  tunnel_from_browser-Invariant broken [] r e idle p =
      finish-Invariant json r (tunneling-IsTransparent json r p)
  tunnel_from_browser-Invariant over [] r e idle p =
      finish-Invariant json r (tunneling-IsTransparent json r p)
  tunnel_from_browser-Invariant (message m) (b ∷ up) r e _ p = in_tunnel e p
  tunnel_from_browser-Invariant broken (b ∷ up) r e _ p = in_tunnel e p
  tunnel_from_browser-Invariant over (b ∷ up) r e _ p = in_tunnel e p

  hold-Invariant :
      (bytes : List ℕ) (r : Relay)
      → r.phase ≡ tunneling
      → r.down ≡ []
      → IsTunneling json r
      → Invariant json (hold json bytes r)
  hold-Invariant [] r e idle p = finish-Invariant json r (tunneling-IsTransparent json r p)
  hold-Invariant (b ∷ bytes) r e idle p = in_tunnel e (record {
    request = p.request;
    ready = p.ready;
    before_up = p.before_up;
    before_down = p.before_down;
    rest_up = p.rest_up;
    rest_down =
        ap (λ t. t ++ b ∷ bytes)
          (rw (idle, append-nil (payload (behind is_text (r.browser_got)))) at (p.rest_down));
  })

  tunnel_from_target-Invariant :
      (n : ReadResult) (down : List ℕ) (r : Relay)
      → r.phase ≡ tunneling
      → r.down ≡ down
      → IsTunneling json r
      → Invariant json (tunnel_from_target json n down r)
  unfolding tunnel_from_target
  tunnel_from_target-Invariant failed [] r e idle p =
      finish-Invariant json r (tunneling-IsTransparent json r p)
  tunnel_from_target-Invariant (got available) [] r e idle p =
      hold-Invariant (read_from available) r e idle p
  tunnel_from_target-Invariant failed (b ∷ down) r e _ p = in_tunnel e p
  tunnel_from_target-Invariant (got available) (b ∷ down) r e _ p = in_tunnel e p

  deliver-Invariant :
      (down : List ℕ) (r : Relay)
      → r.phase ≡ tunneling
      → r.down ≡ down
      → IsTunneling json r
      → Invariant json (deliver json down r)
  unfolding payload
  deliver-Invariant [] r e _ p = in_tunnel e p
  deliver-Invariant (b ∷ down) r e pending p = in_tunnel e (record {
    request = p.request;
    ready = rw (has-append is_text (r.browser_got) (binary (b ∷ down)), p.ready);
    before_up = p.before_up;
    before_down =
        rw (up_to-append is_text (r.browser_got) (binary (b ∷ down)) (p.ready)) (p.before_down);
    rest_up = p.rest_up;
    rest_down =
        rw
          (
            behind-append is_text (r.browser_got) (binary (b ∷ down)) (p.ready),
            payload-append (behind is_text (r.browser_got)) (binary (b ∷ down) ∷ []),
            append-nil (b ∷ down),
            append-nil (payload (behind is_text (r.browser_got)) ++ b ∷ down),
          )
          (rw pending at (p.rest_down));
  })

  if_pending-Invariant :
      (pending : List ℕ) (r : Relay)
      → r.phase ≡ tunneling
      → IsTunneling json r
      → Invariant json (if_pending json pending r)
  if_pending-Invariant [] r e p = in_tunnel e p
  if_pending-Invariant (b ∷ pending) r e p =
      finish-Invariant json r (tunneling-IsTransparent json r p)

  takes-IsTunneling :
      (n : ℕ) (r : Relay)
      → IsTunneling json r
      → IsTunneling json (record r { tls_got = r.tls_got ++ take n (r.up); up = drop n (r.up) })
  takes-IsTunneling n r p = record {
    request = p.request;
    ready = p.ready;
    before_up = p.before_up;
    before_down = p.before_down;
    rest_up =
        append_assoc (r.tls_got) (take n (r.up)) (drop n (r.up))
        ∙ ap (λ t. r.tls_got ++ t) (sym (take-drop n (r.up)))
        ∙ p.rest_up;
    rest_down = p.rest_down;
  }

  pub tunnel_step-Invariant :
      (v : Event) (r : Relay)
      → r.phase ≡ tunneling
      → IsTunneling json r
      → Invariant json (tunnel_step json v r)
  unfolding tunnel_step
  tunnel_step-Invariant (from_browser m) r e p = tunnel_from_browser-Invariant m (r.up) r e refl p
  tunnel_step-Invariant (from_target n) r e p = tunnel_from_target-Invariant n (r.down) r e refl p
  tunnel_step-Invariant (target_takes n) r e p = in_tunnel e (takes-IsTunneling n r p)
  tunnel_step-Invariant target_fails r e p = if_pending-Invariant (r.up) r e p
  tunnel_step-Invariant browser_takes r e p = deliver-Invariant (r.down) r e refl p
  tunnel_step-Invariant browser_fails r e p = if_pending-Invariant (r.down) r e p
