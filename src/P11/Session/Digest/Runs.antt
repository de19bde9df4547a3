-- ===== src/P11/Session/Digest/Runs.antt =====
-- A digest, from its first part to its result.
use opencie_pkcs.Base.{
  ℕ, ◌≡◌, List, ◌++◌, none, some, if◌then◌else◌, ok, throw, p11_error, length, ltb, arith, refl, ap,
  length-take, take, logged_error,
}
use mathlib.Core.List.{append_assoc}
use opencie_pkcs.Base.Map.{find, assign, find-assign}
use opencie_pkcs.P11.Buffer.{null_buffer, memory, left_part, copy_in}
use opencie_pkcs.P11.Constants.{ckr_buffer_too_small}
use opencie_pkcs.P11.Mechanism.{digest_of, gather}
use opencie_pkcs.P11.Mechanism.Blocks.{Hash, Crypto, digest_length}
use opencie_pkcs.P11.Session.Digest.{digest_update, digest_final}
use opencie_pkcs.P11.State.{Session, Mechanism, World}
use opencie_pkcs.P11.State.Monad.{◌>>◌}
use opencie_pkcs.Util.Array.{left, mid}
use opencie_pkcs.Util.Array.Writes.{copy_all}

gather-append : (m : Mechanism) (a b : List ℕ) → gather (gather m a) b ≡ gather m (a ++ b)
unfolding gather
gather-append m a b = ap (λ xs. record m { gathered = xs }) (append_assoc m.gathered a b)

module _ {E : Type 0} where
  -- On a session with an active digest whose hash has its length, DigestFinal into memory shorter
  -- than the digest throws CKR_BUFFER_TOO_SMALL and changes nothing. Into any other memory it
  -- returns the hash of what was gathered, the session has no digest afterwards, and nothing else
  -- changes.
  digest_final-memory :
      (crypto : Crypto) (h : ℕ) (v : Session) (m : Mechanism) (hash : Hash) (bytes : List ℕ)
      (w : World E)
      → find h w.sessions ≡ some v
      → v.digest ≡ some m
      → digest_of m.mt_type ≡ some hash
      → length (crypto.digest hash m.gathered) ≡ digest_length hash
      → digest_final crypto h (memory bytes) w ≡ (
          if ltb (length bytes) (digest_length hash)
          then (throw (p11_error ckr_buffer_too_small), w)
          else (
            ok (memory (crypto.digest hash m.gathered)),
            record w { sessions = assign h (record v { digest = none }) w.sessions },
          ))
  unfolding digest_final left_part copy_in left mid
  digest_final-memory crypto h v m hash bytes w a b c d = ground (
    arith,
    a,
    b,
    c,
    d,
    length-take {A = ℕ} (digest_length hash) bytes,
    copy_all (take (digest_length hash) bytes) (crypto.digest hash m.gathered),
  )

  -- On a session with an active digest, DigestFinal with a null buffer and a length of at least
  -- the digest's returns the digest's length and leaves the session as it was. With a smaller
  -- length it throws an error that is no PKCS#11 error, and the session has no digest afterwards.
  digest_final-null :
      (crypto : Crypto) (h n : ℕ) (v : Session) (m : Mechanism) (hash : Hash) (w : World E)
      → find h w.sessions ≡ some v
      → v.digest ≡ some m
      → digest_of m.mt_type ≡ some hash
      → ((digest_final crypto h (null_buffer n) w).0 ≡ (
          if ltb n (digest_length hash)
          then throw logged_error
          else ok (null_buffer (digest_length hash))))
        × (find h (digest_final crypto h (null_buffer n) w).1.sessions
            ≡ some (if ltb n (digest_length hash) then record v { digest = none } else v))
  unfolding digest_final left_part
  digest_final-null crypto h n v m hash w a b c = ground (
    arith,
    a,
    b,
    c,
    find-assign h h (record v { digest = none }) w.sessions,
    find-assign h h v (assign h (record v { digest = none }) w.sessions),
  )

  -- What DigestUpdate leaves.
  abbrev with_digest : ℕ → Session → Mechanism → World E → World E
  with_digest h v m w = record w { sessions = assign h (record v { digest = some m }) w.sessions }

  digest_update_lem :
      (h : ℕ) (a : List ℕ) (v : Session) (m : Mechanism) (w : World E)
      → find h w.sessions ≡ some v
      → v.digest ≡ some m
      → digest_update h a w ≡ (ok tt, with_digest h v (gather m a) w)
  unfolding digest_update
  digest_update_lem h a v m w e f = ground (arith, e, f)

  -- On a session with an active digest, DigestUpdate of two parts one after the other leaves the
  -- session as DigestUpdate of both at once does.
  digest_update-append :
      (h : ℕ) (a b : List ℕ) (v : Session) (m : Mechanism) (w : World E)
      → find h w.sessions ≡ some v
      → v.digest ≡ some m
      → find h ((digest_update h a >> digest_update h b) w).1.sessions
        ≡ find h (digest_update h (a ++ b) w).1.sessions
  digest_update-append h a b v m w e f =
      let v1 : Session = record v { digest = some (gather m a) } in
      let w1 : World E = with_digest h v (gather m a) w in
      let there : find h w1.sessions ≡ some v1 = ground (arith, find-assign h h v1 w.sessions) in
      rw
        (
          digest_update_lem h a v m w e f,
          digest_update_lem h (a ++ b) v m w e f,
          digest_update_lem h b v1 (gather m a) w1 there refl,
        )
        (ground (
          arith,
          gather-append m a b,
          find-assign h h (record v1 { digest = some (gather (gather m a) b) }) w1.sessions,
          find-assign h h (record v { digest = some (gather m (a ++ b)) }) w.sessions,
        ))
