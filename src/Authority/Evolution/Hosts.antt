-- ===== src/Authority/Evolution/Hosts.antt =====
-- The transactions that call into the host, and those that refuse a stale context after they commit.
use hubinet_ops.Prelude.{String, Bool, true, false}
use hubinet_ops.Authority.Result.{Error, Result, ok, err}
use hubinet_ops.Authority.Platform.{Platform}
use hubinet_ops.Authority.Tables.{Db}
use hubinet_ops.Authority.Tx.{Tx, committed, transaction}
use hubinet_ops.Authority.Host.{
  Host, Sealed, submission, after_submit, after_proof, release, after_block, after_sealed,
  after_seal, after_guards,
}
use hubinet_ops.Authority.Snapshot.{or_stale}
use hubinet_ops.Authority.Evolution.{Evolves, Evolves-refl, Evolves-trans, After, Evolving}

module _ (p : Platform) where
  stale-After :
      (db : Db) (r : Result (Bool × Db)) → After p db r → Evolves p db (or_stale (committed db r)).1
  stale-After db (ok (true, new)) x = x
  stale-After db (ok (false, new)) x = x
  stale-After db (err e) x = Evolves-refl p db

  pub stale-Evolves :
      {m : Tx Bool} → Evolving p m → (db : Db) → Evolves p db (or_stale (transaction m db)).1
  stale-Evolves {m = m} x db = stale-After db (m db) (x.evolves db)

  submit-After :
      {W A : Type 0} (old new : Db) (r : Result A × W)
      → Evolves p old new
      → Evolves p old (after_submit old new r).1
  submit-After old new (ok a, w) x = x
  submit-After old new (err e, w) x = Evolves-refl p old

  proof-After :
      {W A : Type 0} (db : Db) (r : Result (Bool × Db)) (refused : Error) (submit : Host W A)
      (w : W)
      → After p db r
      → Evolves p db (after_proof refused submit db w r).1
  proof-After db (err e) refused submit w x = Evolves-refl p db
  proof-After db (ok (false, new)) refused submit w x = x
  proof-After db (ok (true, new)) refused submit w x = submit-After db new (submit w) x

  pub submission-Evolves :
      {W A : Type 0} {proof : Tx Bool} (refused : Error) (submit : Host W A)
      → Evolving p proof
      → (db : Db) (w : W) → Evolves p db (submission proof refused submit db w).1
  unfolding submission
  submission-Evolves {proof = proof} refused submit x db w =
      proof-After db (proof db) refused submit w (x.evolves db)

  block-After :
      {W A : Type 0} (old new : Db) (a : A) (w : W) (r : Result ((Unit {0}) × Db))
      → Evolves p old new
      → After p new r
      → Evolves p old (after_block old a w r).1
  block-After old new a w (ok r) x y = Evolves-trans p x y
  block-After old new a w (err e) x y = Evolves-refl p old

  sealed-After :
      {W A : Type 0} (b : Bool) (block : String → Tx (Unit {0})) (old new : Db) (reason : String)
      (a : A) (w : W)
      → ((reason : String) → Evolving p (block reason))
      → Evolves p old new
      → Evolves p old (after_sealed b block old new reason a w).1
  sealed-After true block old new reason a w y x =
      block-After old new a w (block reason new) x ((y reason).evolves new)
  sealed-After false block old new reason a w y x = x

  seal-After :
      {W S A : Type 0} (is_sealed : S → Bool) (block : String → Tx (Unit {0})) (old new : Db)
      (r : Result (Sealed S A) × W)
      → ((reason : String) → Evolving p (block reason))
      → Evolves p old new
      → Evolves p old (after_seal is_sealed block old new r).1
  seal-After is_sealed block old new (err e, w) y x = Evolves-refl p old
  seal-After is_sealed block old new (ok a, w) y x =
      sealed-After _ block old new a.reason a.evidence w y x

  guards-After :
      {W S A : Type 0} (is_sealed : S → Bool) (block : String → Tx (Unit {0}))
      (seal : Host W (Sealed S A)) (db : Db) (w : W) (r : Result ((Unit {0}) × Db))
      → ((reason : String) → Evolving p (block reason))
      → After p db r
      → Evolves p db (after_guards is_sealed block seal db w r).1
  guards-After is_sealed block seal db w (err e) y x = Evolves-refl p db
  guards-After is_sealed block seal db w (ok r) y x = seal-After is_sealed block db r.1 (seal w) y x

  pub release-Evolves :
      {W S A : Type 0} {guards : Tx (Unit {0})} (is_sealed : S → Bool)
      {block : String → Tx (Unit {0})} (seal : Host W (Sealed S A))
      → Evolving p guards
      → ((reason : String) → Evolving p (block reason))
      → (db : Db) (w : W) → Evolves p db (release guards is_sealed block seal db w).1
  unfolding release
  release-Evolves {guards = guards} is_sealed {block = block} seal x y db w =
      guards-After is_sealed block seal db w (guards db) y (x.evolves db)
