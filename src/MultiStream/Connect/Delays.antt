-- ===== src/MultiStream/Connect/Delays.antt =====
-- The delays of `retryClientServerConnect`.
use network_infiniband_works.Base.{
  ℕ, zero, suc, ◌+◌, ◌*◌, ◌/◌, ◌<◌, ◌≤◌, ◌≡◌, refl, arith, min, ℤ, leb, is_zero, ◌∷◌, Bool-cases,
  inl, inr,
}
use network_infiniband_works.Platform.{Env, Trace, done, int, told, connect, sleep}
use network_infiniband_works.Sockets.{minus_one, retry_timeout}
use network_infiniband_works.Sockets.Retry.{pow2, slept}
use network_infiniband_works.MultiStream.Connect.{retry_connect, retry_client_server_connect}

module _ (e : Env) where
  retry_connect-slept :
      (left numsec : ℕ) (sockfd : ℤ) (addr : ℕ) (t : Trace)
      → retry_timeout < numsec * pow2 left
      → (fd : ℤ) × (u : Trace) × (retry_connect e (suc left) numsec sockfd addr t ≡ done fd u)
        × (slept u + min numsec 64 ≤ slept t + 64)
  unfolding retry_connect
  retry_connect-slept zero numsec sockfd addr t far = (minus_one, t, ground arith, omega arith)
  retry_connect-slept (suc left) numsec sockfd addr t far =
      let r = e.int t (connect sockfd addr) in
      let t1 = int (connect sockfd addr) r ∷ t in
      elim (Bool-cases (leb numsec retry_timeout)) [
        | inr over ↦ (minus_one, t, rw (over, retry_connect) refl, omega arith)
        | inl again ↦ elim (Bool-cases (is_zero r)) [
          | inl taken ↦ (sockfd, t1, rw (again, taken, retry_connect) refl, omega arith)
          | inr refused ↦ elim (Bool-cases (leb numsec (retry_timeout / 2))) [
            | inl wait ↦
                let (fd, u, p, q) =
                  retry_connect-slept left (numsec * 2) sockfd addr (told (sleep numsec) ∷ t1)
                    (ground arith) in
                (fd, u, rw (again, refused, wait, retry_connect) p, ground (arith, q))
            | inr last ↦
                let (fd, u, p, q) =
                  retry_connect-slept left (numsec * 2) sockfd addr t1 (ground arith) in
                (fd, u, rw (again, refused, last, retry_connect) p, ground (arith, q))
          ]
        ]
      ]

  -- `retryClientServerConnect` always returns, and sleeps for at most 63 seconds in all.
  retry_client_server_connect-slept :
      (sockfd : ℤ) (addr : ℕ) (t : Trace)
      → (fd : ℤ) × (u : Trace) × (retry_client_server_connect e sockfd addr t ≡ done fd u)
        × (slept u ≤ slept t + 63)
  unfolding retry_client_server_connect
  retry_client_server_connect-slept sockfd addr t =
      let (fd, u, p, q) = retry_connect-slept 7 1 sockfd addr t (omega arith) in
      (fd, u, p, omega (arith, q))
