-- ===== src/Authority/Host/Submissions.antt =====
-- The callback of the three `execute_..._if_current` methods of `app/inventory/authority.py`.
use hubinet_ops.Prelude.{true, false, ◌≡◌, ◌≢◌, refl, Bool}
use hubinet_ops.Authority.Result.{Error, Result, ok, err}
use hubinet_ops.Authority.Tables.{Db}
use hubinet_ops.Authority.Host.{Host, after_proof}

-- The host changed only where the proof held.
pub after_proof-changed :
    {W A : Type 0} (refused : Error) (submit : Host W A) (db : Db) (w : W) (r : Result (Bool × Db))
    → (after_proof refused submit db w r).2 ≢ w
    → (new : Db) × (r ≡ ok (true, new))
after_proof-changed refused submit db w (err e) h = absurd (h refl)
after_proof-changed refused submit db w (ok (true, new)) h = (new, refl)
after_proof-changed refused submit db w (ok (false, new)) h = absurd (h refl)
