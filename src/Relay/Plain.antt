-- ===== src/Relay/Plain.antt =====
-- server/src/main.rs: the steps of `handle_ws`, before TLS.
use wasm_rdp.Prelude.{
  ℕ, ◌≡◌, refl, sym, ap, ◌∙◌, Bool, true, false, List, [], ◌∷◌, ◌++◌, append_assoc, append-nil,
  Bool-cases, Option-cases, inl, inr, take, drop, take-drop,
}
use wasm_rdp.Relay.{
  WsMessage, binary, text, close, other, message, broken, over, got, failed, Handshake, refused,
  secured, Json, plain, tunneling, Relay, Answers, Event, from_browser, from_target, target_takes,
  target_fails, browser_takes, browser_fails, asks_upgrade, upgrade, relay_message,
  plain_from_browser, plain_from_target, plain_step, read_from, relay_bytes,
}
use wasm_rdp.Relay.Prefixes.{
  payload, payload-append, IsPrefix-eq, IsPrefix-append, has-append, up_to-append_none,
  behind-append_none,
}
use wasm_rdp.Relay.Invariant.{
  is_text, IsTransparent, IsPlain, IsTunneling, Invariant, in_plain, in_tunnel, plain-IsTransparent,
  tunneling-IsTransparent, finish-Invariant,
}

module _ (json : Json) where
  -- A message that the browser sends, other than a request for TLS.
  took_binary :
      (r : Relay) (bytes : List ℕ)
      → IsPlain json r
      → IsPlain json (record r {
        browser_sent = r.browser_sent ++ binary bytes ∷ [];
        target_got = r.target_got ++ bytes;
      })
  unfolding asks_upgrade payload
  took_binary r bytes p = record {
    no_request = rw (has-append (asks_upgrade json) (r.browser_sent) (binary bytes), p.no_request);
    no_text = p.no_text;
    all_up = rw (payload-append (r.browser_sent) (binary bytes ∷ []), p.all_up, append-nil bytes);
    all_down = p.all_down;
    no_tls_got = p.no_tls_got;
    no_tls_sent = p.no_tls_sent;
    no_up = p.no_up;
    no_down = p.no_down;
  }

  took_silent :
      (r : Relay) (m : WsMessage)
      → asks_upgrade json m ≡ false
      → payload (m ∷ []) ≡ []
      → IsPlain json r
      → IsPlain json (record r { browser_sent = r.browser_sent ++ m ∷ [] })
  took_silent r m e z p = record {
    no_request = rw (has-append (asks_upgrade json) (r.browser_sent) m, p.no_request) e;
    no_text = p.no_text;
    all_up =
        rw (payload-append (r.browser_sent) (m ∷ []), z, append-nil (payload (r.browser_sent)))
          (p.all_up);
    all_down = p.all_down;
    no_tls_got = p.no_tls_got;
    no_tls_sent = p.no_tls_sent;
    no_up = p.no_up;
    no_down = p.no_down;
  }

  part_written :
      (r : Relay) (bytes : List ℕ) (n : ℕ)
      → IsPlain json r
      → IsTransparent json (record r {
        browser_sent = r.browser_sent ++ binary bytes ∷ [];
        target_got = r.target_got ++ take n bytes;
      })
  part_written r bytes n p =
      let whole = plain-IsTransparent json _ (took_binary r bytes p) in
      record {
        plain_up =
            let (rest, e) = whole.plain_up in
            (
              drop n bytes ++ rest,
              append_assoc (r.target_got) (take n bytes) (drop n bytes ++ rest)
                  ∙ ap (λ t. r.target_got ++ t)
                      (sym (append_assoc (take n bytes) (drop n bytes) rest)
                        ∙ ap (λ t. t ++ rest) (sym (take-drop n bytes)))
                  ∙ sym (append_assoc (r.target_got) bytes rest)
                  ∙ e,
            );
        tls_up = whole.tls_up;
        plain_down = whole.plain_down;
        tls_down = whole.tls_down;
      }

  -- The request for TLS, and the answer to it.
  upgraded :
      (r : Relay) (m : WsMessage) (answer : List ℕ)
      → asks_upgrade json m ≡ true
      → IsPlain json r
      → IsTunneling json (record r {
        browser_sent = r.browser_sent ++ m ∷ [];
        browser_got = r.browser_got ++ text answer ∷ [];
        phase = tunneling;
      })
  unfolding payload
  upgraded r m answer e p = record {
    request = rw (has-append (asks_upgrade json) (r.browser_sent) m, p.no_request) e;
    ready = rw (has-append is_text (r.browser_got) (text answer), p.no_text);
    before_up =
        rw (up_to-append_none (asks_upgrade json) (r.browser_sent) m (p.no_request), e) (p.all_up);
    before_down =
        rw (up_to-append_none is_text (r.browser_got) (text answer) (p.no_text)) (p.all_down);
    rest_up = rw (
      p.no_tls_got,
      p.no_up,
      behind-append_none (asks_upgrade json) (r.browser_sent) m (p.no_request),
    );
    rest_down = rw (
      p.no_tls_sent,
      p.no_down,
      behind-append_none is_text (r.browser_got) (text answer) (p.no_text),
    );
  }

  -- The relay ends at the request, with no answer or one that says why.
  abandoned :
      (r : Relay) (m : WsMessage)
      → asks_upgrade json m ≡ true
      → IsPlain json r
      → IsTransparent json (record r { browser_sent = r.browser_sent ++ m ∷ [] })
  abandoned r m e p =
      let t = plain-IsTransparent json r p in
      record {
        plain_up = IsPrefix-eq _ _ (
            rw (up_to-append_none (asks_upgrade json) (r.browser_sent) m (p.no_request), e)
              (p.all_up));
        tls_up = IsPrefix-eq _ _ (
            unfold payload in
            rw (
              p.no_tls_got,
              behind-append_none (asks_upgrade json) (r.browser_sent) m (p.no_request),
            ));
        plain_down = t.plain_down;
        tls_down = t.tls_down;
      }

  upgrade-Invariant :
      (h : Handshake) (sends : Bool) (m : WsMessage) (r : Relay)
      → asks_upgrade json m ≡ true
      → IsPlain json r
      → Invariant json (upgrade json h sends (record r { browser_sent = r.browser_sent ++ m ∷ [] }))
  unfolding upgrade
  upgrade-Invariant (refused why) true m r e p =
      finish-Invariant json _
        (tunneling-IsTransparent json _ (upgraded r m (json.tls_error why) e p))
  upgrade-Invariant (refused why) false m r e p = finish-Invariant json _ (abandoned r m e p)
  upgrade-Invariant (secured certificate) true m r e p = in_tunnel refl (upgraded r m _ e p)
  upgrade-Invariant (secured certificate) false m r e p =
      finish-Invariant json _ (abandoned r m e p)

  relay_message-Invariant :
      (a : Answers) (m : WsMessage) (r : Relay)
      → r.phase ≡ plain
      → IsPlain json r
      → Invariant json (plain_from_browser json a (message m) r)
  unfolding plain_from_browser relay_message
  relay_message-Invariant a (binary bytes) r e p = elim (Option-cases (a.write_fails)) [
    | inl ok ↦ rw ok (in_plain e (took_binary r bytes p))
    | inr (n, fails) ↦ rw fails (finish-Invariant json _ (part_written r bytes n p))
  ]
  relay_message-Invariant a (text t) r e p = elim (Bool-cases (asks_upgrade json (text t))) [
    | inr no_request ↦
        rw no_request (in_plain e (took_silent r (text t) no_request (unfold payload in refl) p))
    | inl request ↦ rw request (upgrade-Invariant (a.handshake) (a.sends) (text t) r request p)
  ]
  relay_message-Invariant a close r e p = finish-Invariant json _ (
      plain-IsTransparent json _
        (took_silent r close (unfold asks_upgrade in refl) (unfold payload in refl) p))
  relay_message-Invariant a other r e p =
      in_plain e (took_silent r other (unfold asks_upgrade in refl) (unfold payload in refl) p)

  got_binary :
      (r : Relay) (bytes : List ℕ)
      → IsPlain json r
      → IsPlain json (record r {
        target_sent = r.target_sent ++ bytes;
        browser_got = r.browser_got ++ binary bytes ∷ [];
      })
  unfolding payload
  got_binary r bytes p = record {
    no_request = p.no_request;
    no_text = rw (has-append is_text (r.browser_got) (binary bytes), p.no_text);
    all_up = p.all_up;
    all_down =
        rw (payload-append (r.browser_got) (binary bytes ∷ []), p.all_down, append-nil bytes);
    no_tls_got = p.no_tls_got;
    no_tls_sent = p.no_tls_sent;
    no_up = p.no_up;
    no_down = p.no_down;
  }

  lost_in_plain :
      (r : Relay) (bytes : List ℕ)
      → IsPlain json r
      → IsTransparent json (record r { target_sent = r.target_sent ++ bytes })
  lost_in_plain r bytes p =
      let t = plain-IsTransparent json r p in
      record {
        plain_up = t.plain_up;
        tls_up = t.tls_up;
        plain_down = IsPrefix-append _ (r.target_sent) bytes (t.plain_down);
        tls_down = t.tls_down;
      }

  relay_bytes-Invariant :
      (sends : Bool) (bytes : List ℕ) (r : Relay)
      → r.phase ≡ plain
      → IsPlain json r
      → Invariant json (relay_bytes json sends bytes r)
  relay_bytes-Invariant sends [] r e p = finish-Invariant json r (plain-IsTransparent json r p)
  relay_bytes-Invariant true (b ∷ bytes) r e p = in_plain e (got_binary r (b ∷ bytes) p)
  relay_bytes-Invariant false (b ∷ bytes) r e p =
      finish-Invariant json _ (lost_in_plain r (b ∷ bytes) p)

  pub plain_step-Invariant :
      (a : Answers) (v : Event) (r : Relay)
      → r.phase ≡ plain
      → IsPlain json r
      → Invariant json (plain_step json a v r)
  unfolding plain_step
  plain_step-Invariant a (from_browser (message m)) r e p = relay_message-Invariant a m r e p
  plain_step-Invariant a (from_browser broken) r e p =
      unfold plain_from_browser in finish-Invariant json r (plain-IsTransparent json r p)
  plain_step-Invariant a (from_browser over) r e p =
      unfold plain_from_browser in finish-Invariant json r (plain-IsTransparent json r p)
  plain_step-Invariant a (from_target failed) r e p =
      unfold plain_from_target in finish-Invariant json r (plain-IsTransparent json r p)
  plain_step-Invariant a (from_target (got available)) r e p =
      unfold plain_from_target in relay_bytes-Invariant (a.sends) (read_from available) r e p
  plain_step-Invariant a (target_takes n) r e p = in_plain e p
  plain_step-Invariant a target_fails r e p = in_plain e p
  plain_step-Invariant a browser_takes r e p = in_plain e p
  plain_step-Invariant a browser_fails r e p = in_plain e p
