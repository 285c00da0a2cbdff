-- ===== src/Iap/Calls.antt =====
-- Any sequence of calls of the functions that main/iap.h declares.
use esp32_ota_https.Prelude.{
  if◌then◌else◌, Run, done, fault, ◌>>=◌, Ensures, Ensures->>=, Returns→Ensures, ℕ, zero, suc, ◌+◌,
  ◌<◌, ◌≡◌, true, List, [], ◌∷◌, arith,
}
use esp32_ota_https.Flash.{Partition, Platform, flashed}
use esp32_ota_https.Iap.{
  IapErr, fail, null, Iap, iap_init, iap_begin, write_round, write_loop, iap_write, iap_commit,
  iap_abort,
}
use esp32_ota_https.Iap.Image.{image, IsOpen}
use esp32_ota_https.Iap.Validity.{
  IsValid, iap_init-IsValid, MallocGives, BootKnown, iap_commit-IsValid, iap_abort-IsValid,
  iap_write-IsValid,
}
use esp32_ota_https.Iap.Session.{IsBroken, Committed, final_write_succeeds, iap_commit-Committed}
use esp32_ota_https.Iap.Validity.Begin.{iap_begin-IsValid}

pub data Call : Type 0 where
  init begin commit abort : Call
  write : List ℕ → ℕ → Call

module _ (p : Platform) where
  unfoldable pub perform : Call → Iap → Run (IapErr × Iap)
  perform init s = done (iap_init s)
  perform begin s = iap_begin p s
  perform commit s = iap_commit p s
  perform abort s = iap_abort p s
  perform (write bytes len) s = iap_write p s bytes len

  -- The caller looks at no result: it goes on after an error too.
  unfoldable pub run : List Call → Iap → Run Iap
  run [] s = done s
  run (c ∷ calls) s = do (_, s') ← perform c s; run calls s'

  perform-IsValid :
      (c : Call) (s : Iap)
      → MallocGives p
      → BootKnown p
      → IsValid s
      → Ensures (λ out. IsValid out.1) (perform c s)
  unfolding perform
  perform-IsValid init s gives known v = iap_init-IsValid s v
  perform-IsValid begin s gives known v =
      Returns→Ensures (λ out. IsValid out.1) (iap_begin p s) (iap_begin-IsValid p s gives known v)
  perform-IsValid commit s gives known v =
      Returns→Ensures (λ out. IsValid out.1) (iap_commit p s) (iap_commit-IsValid p s v)
  perform-IsValid abort s gives known v =
      Returns→Ensures (λ out. IsValid out.1) (iap_abort p s) (iap_abort-IsValid p s v)
  perform-IsValid (write bytes len) s gives known v = iap_write-IsValid p s bytes len v

  -- Whatever functions are called, in whatever order, from a valid state on, if all the calls return,
  -- a block from `malloc` has the size asked for and the boot partition is known: the page buffer is
  -- allocated only while a session is open and its index lies inside it, an open session knows its
  -- partition, and every change of the boot partition came right after an `esp_ota_end` that
  -- succeeded.
  pub run-IsValid :
      (calls : List Call) (s : Iap)
      → MallocGives p
      → BootKnown p
      → IsValid s
      → Ensures IsValid (run calls s)
  unfolding run
  run-IsValid [] s gives known v = v
  run-IsValid (c ∷ calls) s gives known v =
      Ensures->>= (λ out. IsValid out.1) IsValid (perform c s) _ (perform-IsValid c s gives known v)
        (λ out h. run-IsValid calls out.1 gives known h)

  round_broken :
      (s : Iap) (bytes : List ℕ) (len : ℕ)
      → s.page_buffer ≡ null
      → write_round p s bytes len ≡ fault
  unfolding write_round
  round_broken s bytes len e = ground arith

  write_loop_broken :
      (fuel : ℕ) (s : Iap) (bytes : List ℕ) (len : ℕ)
      → 0 < fuel
      → s.page_buffer ≡ null
      → 0 < len
      → write_loop p fuel s bytes len ≡ fault
  unfolding write_loop
  write_loop_broken zero s bytes len f e h = elim f [ ]
  write_loop_broken (suc fuel) s bytes len f e h = ground (arith, round_broken s bytes len e)

  write_broken :
      (s : Iap) (bytes : List ℕ) (len : ℕ) → IsBroken s → 0 < len → iap_write p s bytes len ≡ fault
  unfolding iap_write
  write_broken s bytes len b h =
      ground (arith, write_loop_broken (len + 2) s bytes len (omega arith) b.no_buffer h)

  -- After a commit that failed, the session is still open and its page buffer is
  -- NULL: the next `iap_write` of at least one byte, which accesses it, is undefined.
  pub iap_write-iap_commit_failed :
      (target : Partition) (s s' : Iap) (bytes : List ℕ) (len : ℕ)
      → IsOpen target s
      → iap_commit p s ≡ done (fail, s')
      → 0 < len
      → (s'.session_open ≡ true) × (s'.page_buffer ≡ null) × (iap_write p s' bytes len ≡ fault)
  iap_write-iap_commit_failed target s s' bytes len o e h =
      let good = final_write_succeeds p s in
      let c : Committed target (if good then image s else flashed s.log) (fail, s') =
        rw e at (iap_commit-Committed p target s o) in
      let broken : IsBroken s' = ground (arith, c.outcome) in
      (broken.is_open, broken.no_buffer, write_broken s' bytes len broken h)
