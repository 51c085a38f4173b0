-- ===== src/Id.antt =====
-- packages/core/src/id.ts. The Rng port is an action on the world; SHA-256 is a parameter.
use Prim.Native.String.{◌∷◌, ◌++◌}
use anyhook.Base.{ℕ, zero, suc, ◌*◌, ◌/◌, ◌%◌, String, none, some}
use anyhook.Base.Exec.{Exec, pure, ◌>>=◌}
use anyhook.Base.Text.{take_chars}
use anyhook.Types.{SendEvent, Payload, ticks_per_ms}

abbrev pub alphabet : String
alphabet = "abcdefghijklmnopqrstuvwxyz0123456789"

-- s[i], empty past the end
unfoldable pub char_at : String → ℕ → String
char_at String.[] i = ""
char_at (c ∷ s) zero = c ∷ ""
char_at (c ∷ s) (suc i) = char_at s i

-- ALPHABET[Math.floor(rng.next() * ALPHABET.length) % ALPHABET.length], for the drawn number
unfoldable pub id_char : ℕ → String
unfolding char_at
id_char draw = char_at alphabet (draw * 36 / ticks_per_ms % 36)

module _ {W : Type 0} (rng : Exec W ℕ) where
  unfoldable pub id_loop : ℕ → String → Exec W String
  unfolding id_char
  id_loop zero s = pure s
  id_loop (suc rounds) s = do draw ← rng; id_loop rounds (s ++ id_char draw)

  unfoldable pub new_id : String → Exec W String
  unfolding id_loop
  new_id prefix = do s ← id_loop 20 ""; pure (prefix ++ "_" ++ s)

-- JSON.stringify(payload) inside a template: the text "undefined" where there is no payload
unfoldable pub payload_text : Payload → String
payload_text none = "undefined"
payload_text (some json) = json

module _ (sha256_hex : String → String) where
  unfoldable pub derive_idempotency_key : SendEvent → String
  unfolding payload_text
  derive_idempotency_key e =
      let canonical : String = e.tenant ++ " " ++ e.type ++ " " ++ payload_text e.payload in
      "idem_" ++ take_chars 32 (sha256_hex canonical)
