-- ===== src/Card/Ias.antt =====
-- IAS of shared/src/csp/ias.cpp: the commands to the card, without secure messaging.
pub mod Reading
pub mod Serving
pub mod Whole
pub mod Messaging
pub mod Response
pub mod Secure
pub mod Commands
pub mod Plain
pub mod Chaining
pub mod Unwrapping
mod Tests
use opencie_pkcs.Base.{
  ℕ, zero, suc, ◌+◌, ◌-◌, ◌*◌, ◌/◌, ◌%◌, ◌≡◌, Bool, true, false, List, [], ◌∷◌, ◌++◌, Option, none,
  some, ltb, ◌==◌, not, if◌then◌else◌, length, take, drop, Result, ok, throw, scard_error, crash,
}
use opencie_pkcs.Card.Io.{Ias, Io, ◌>>=◌, ◌>>◌, return, fail, still_running, guard_not}
use opencie_pkcs.Card.Token.{Reader, Answer, transmit, le_octets}

-- `cla | 0x10`
abbrev pub chained : ℕ → ℕ
chained cla = if cla / 16 % 2 == 1 then cla else cla + 16

-- `head[0] = cla`
abbrev pub with_class : ℕ → List ℕ → List ℕ
with_class cla [] = []
with_class cla (b ∷ bs) = cla ∷ bs

abbrev pub class_of : List ℕ → ℕ
class_of [] = 0
class_of (b ∷ bs) = b

-- The command with no chaining: the length of the data is left out with the data.
unfoldable pub short_command : List ℕ → List ℕ → Option ℕ → List ℕ
short_command head [] le = head ++ le_octets le
short_command head (b ∷ bs) le = head ++ ((length (b ∷ bs) % 256) ∷ ((b ∷ bs) ++ le_octets le))

module _ {C : Type 0} (reader : Reader C) where
  -- The loop of getResp, at most so often, with what came so far. GET RESPONSE with a length ends it.
  unfoldable pub get_resp_loop : ℕ → List ℕ → ℕ → Io C Answer
  unfolding transmit
  get_resp_loop zero so_far sw = still_running
  get_resp_loop (suc fuel) so_far sw =
      let again = get_resp_loop fuel in
      let get_response = transmit reader (0x00 ∷ 0xc0 ∷ 0x00 ∷ 0x00 ∷ (sw % 256) ∷ []) in
      if sw / 256 == 0x61
      then (get_response >>= λ r.
          if sw % 256 == 0 then again (so_far ++ r.0) (r.1) else return (so_far ++ r.0, r.1))
      else return (so_far, sw)

  unfoldable pub get_resp : ℕ → Answer → Io C Answer
  unfolding get_resp_loop
  get_resp fuel r = get_resp_loop fuel (r.0) (r.1)

  -- The commands of a chain, while there are more than 255 bytes of data to go.
  unfoldable pub chain_loop : ℕ → ℕ → List ℕ → List ℕ → Option ℕ → Io C Answer
  chain_loop fuel zero head rest le = still_running
  chain_loop fuel (suc rounds) head rest le =
      let again = chain_loop fuel rounds head (drop 255 rest) le in
      let part = take 255 rest in
      let last = not (ltb 255 (length rest)) in
      let cla = if last then class_of head else chained (class_of head) in
      transmit reader (with_class cla head ++ ((length part % 256) ∷ (part ++ le_octets le)))
      >>= λ r.
          (if last
            then get_resp fuel r
            else (guard_not (not (r.1 == 0x9000)) (scard_error (r.1)) >> again))

  -- SendAPDU; `fuel` is for the loop of getResp.
  unfoldable pub send_apdu : ℕ → List ℕ → List ℕ → Option ℕ → Io C Answer
  send_apdu fuel head bytes le =
      if ltb 255 (length bytes)
      then chain_loop fuel (length bytes) head bytes le
      else (transmit reader (short_command head bytes le) >>= λ r. get_resp fuel r)
