-- ===== src/Process/Run.antt =====
-- How a block went, from how it ended.
use tai_mcp_ssh.Prelude.{◌≡◌, refl, arith}
use tai_mcp_ssh.Errors.{Exc, Result, ok, raise, pending}
use tai_mcp_ssh.Process.{Process, M, continue, ◌>>=◌, on_error, catch}

module _ {A B : Type 0} where
  -- where the first action of a block returns, the block goes on from there
  pub >>=-returns :
      (m : M A) (f : A → M B) (s : Process) (a : A) (t : Process)
      → m s ≡ (ok a, t)
      → (m >>= f) s ≡ f a t
  unfolding ◌>>=◌
  >>=-returns m f s a t e = rw e refl

  -- a block that returns has had its first action return
  pub >>=-returned :
      (m : M A) (f : A → M B) (s : Process) (b : B)
      → ((m >>= f) s).0 ≡ ok b
      → (a : A) × ((t : Process) × ((m s ≡ (ok a, t)) × ((m >>= f) s ≡ f a t)))
  unfolding ◌>>=◌
  >>=-returned m f s b h = by_result (m s).0 (m s).1 refl h
    where
      by_result :
          (r : Result A) (t : Process)
          → m s ≡ (r, t)
          → (continue r f t).0 ≡ ok b
          → (a : A) × ((u : Process) × ((m s ≡ (ok a, u)) × (continue (m s).0 f (m s).1 ≡ f a u)))
      by_result (ok a) t e h = (a, (t, (e, rw e refl)))
      by_result (raise x) t e h = absurd (ground (arith, h))
      by_result pending t e h = absurd (ground (arith, h))

module _ {A : Type 0} where
  -- a handled action that returns
  pub catch-returns :
      (m : M A) (h : Exc → M A) (s : Process) (a : A) (t : Process)
      → m s ≡ (ok a, t)
      → catch m h s ≡ (ok a, t)
  unfolding catch
  catch-returns m h s a t e = rw e refl

  -- what raises out of a handled action was raised by the handler
  pub catch-raised :
      (m : M A) (h : Exc → M A) (s : Process) (x : Exc)
      → (catch m h s).0 ≡ raise x
      → (e : Exc) × ((t : Process) × (((h e t).0 ≡ raise x) × (catch m h s ≡ h e t)))
  unfolding catch
  catch-raised m h s x g = by_result (m s).0 (m s).1 refl g
    where
      by_result :
          (r : Result A) (t : Process)
          → m s ≡ (r, t)
          → (on_error r h t).0 ≡ raise x
          → (e : Exc) × ((u : Process) × (((h e u).0 ≡ raise x)
                × (on_error (m s).0 h (m s).1 ≡ h e u)))
      by_result (ok a) t e g = absurd (ground (arith, g))
      by_result (raise y) t e g = (y, (t, (g, rw e refl)))
      by_result pending t e g = absurd (ground (arith, g))
