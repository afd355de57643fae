-- ===== src/Framed/Text.antt =====
-- wasm/src/framed.rs: `read_text_message` and the bytes that come before the text.
use wasm_rdp.Prelude.{
  ℕ, ◌≡◌, refl, sym, ap, ◌∙◌, List, [], ◌∷◌, ◌++◌, append_assoc, append-nil, map,
}
use wasm_rdp.Framed.{Message, bytes, text, WasmFramed, ok, text_from, read_text_message}
use wasm_rdp.Framed.Fill.{available, stream}

-- The chunks one after the other.
unfoldable pub joined : List (List ℕ) → List ℕ
joined [] = []
joined (chunk ∷ chunks) = chunk ++ joined chunks

text_from-joined :
    (chunks : List (List ℕ)) (t : List ℕ) (rest : List Message) (buf : List ℕ) (rx : ℕ)
    → text_from (map bytes chunks ++ text t ∷ rest) buf rx
      ≡ (ok t, record { ws_read = rest; buf = buf ++ joined chunks; rx_bytes = rx })
unfolding text_from joined
text_from-joined [] t rest buf rx = rw (append-nil buf)
text_from-joined (chunk ∷ chunks) t rest buf rx =
    text_from-joined chunks t rest (buf ++ chunk) rx ∙ rw (append_assoc buf chunk (joined chunks))

available-joined :
    (chunks : List (List ℕ)) (t : List ℕ) (rest : List Message)
    → available (map bytes chunks ++ text t ∷ rest) ≡ joined chunks ++ available rest
unfolding available joined
available-joined [] t rest = refl
available-joined (chunk ∷ chunks) t rest =
    ap (λ s. chunk ++ s) (available-joined chunks t rest)
    ∙ sym (append_assoc chunk (joined chunks) (available rest))

-- The first text is given, and no byte is lost: those that came before it are in the buffer, in order,
-- so the readers of bytes find the same stream after it. They are not counted in the statistics.
pub read_text_message-stream :
    (f : WasmFramed) (chunks : List (List ℕ)) (t : List ℕ) (rest : List Message)
    → f.ws_read ≡ map bytes chunks ++ text t ∷ rest
    → (g : WasmFramed) × (read_text_message f ≡ (ok t, g))
      × (g.buf ≡ f.buf ++ joined chunks)
      × (stream g ≡ stream f)
      × (g.rx_bytes ≡ f.rx_bytes)
unfolding read_text_message
read_text_message-stream f chunks t rest e = (
  record { ws_read = rest; buf = f.buf ++ joined chunks; rx_bytes = f.rx_bytes },
  rw e (text_from-joined chunks t rest (f.buf) (f.rx_bytes)),
  refl,
  rw (e, available-joined chunks t rest) (append_assoc (f.buf) (joined chunks) (available rest)),
  refl,
)
