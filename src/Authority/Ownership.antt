-- ===== src/Authority/Ownership.antt =====
-- The strict match of one job-owned snapshot in a canonical PVE listing:
-- `_require_exactly_one_job_owned_snapshot`, `_require_current_parent_is` and the refusals of
-- `fail_package_update_snapshot` in `app/inventory/authority.py`.
pub mod Exactly
use hubinet_ops.Prelude.{
  String, Bool, true, false, not, ◌&&◌, ◌||◌, Option, none, some, List, [], ◌∷◌, ◌==◌, nat_eq,
  string_eq, if◌then◌else◌,
}
use hubinet_ops.Authority.Result.{Result, ok, err, authority_conflict, authority_invariant, ◌>>=◌}
use hubinet_ops.Authority.Identity.{SnapshotOwnership}

-- `ObservedSnapshot`; its description and time are never read here.
pub record ObservedSnapshot : Type 0 where
  pub name : String
  pub is_current_pseudo_entry : Bool
  pub incomplete : Bool
  pub parent : Option String
  pub ownership : Option SnapshotOwnership
  pub ownership_malformed : Bool

abbrev pub same_ownership : SnapshotOwnership → SnapshotOwnership → Bool
same_ownership a b =
    a.protocol == b.protocol
    && a.kind == b.kind
    && a.job_id == b.job_id
    && a.resource_id == b.resource_id
    && a.continuity_revision == b.continuity_revision
    && a.inventory_source_id == b.inventory_source_id
    && a.backend_instance_id == b.backend_instance_id

abbrev pub carries : Option SnapshotOwnership → SnapshotOwnership → Bool
carries none b = false
carries (some a) b = same_ownership a b

abbrev pub claims : String → Option SnapshotOwnership → Bool
claims job_id none = false
claims job_id (some a) = a.job_id == job_id

-- One round of the loop: whether the entry is a match, or a refusal.
unfoldable pub examine : String → String → SnapshotOwnership → ObservedSnapshot → Result Bool
examine job_id name expected s =
    if s.is_current_pseudo_entry
    then if s.name == name then err authority_conflict else ok false
    else if not (s.name == name) && not (claims job_id s.ownership)
    then if s.ownership_malformed then err authority_conflict else ok false
    else if s.ownership_malformed
    then err authority_conflict
    else if not (s.name == name)
    then err authority_conflict
    else if s.incomplete
    then err authority_conflict
    else if not (carries s.ownership expected)
    then err authority_conflict
    else ok true

unfoldable pub owned_matches :
    String → String → SnapshotOwnership → List ObservedSnapshot → Result (List ObservedSnapshot)
unfolding examine
owned_matches job_id name expected [] = ok []
owned_matches job_id name expected (s ∷ rest) = do
  matches ← examine job_id name expected s
  others ← owned_matches job_id name expected rest
  ok (if matches then s ∷ others else others)

abbrev pub exactly_one : List ObservedSnapshot → Result ObservedSnapshot
exactly_one (s ∷ []) = ok s
exactly_one _ = err authority_conflict

unfoldable pub require_exactly_one_job_owned_snapshot :
    String → Option String → List ObservedSnapshot → SnapshotOwnership → Result ObservedSnapshot
unfolding owned_matches
require_exactly_one_job_owned_snapshot job_id none observed expected = err authority_invariant
require_exactly_one_job_owned_snapshot job_id (some name) observed expected = do
  matches ← owned_matches job_id name expected observed
  exactly_one matches

-- The loop of `fail_package_update_snapshot`: no trace of the job's snapshot may be left.
unfoldable pub require_no_trace : String → String → List ObservedSnapshot → Result (Unit {0})
require_no_trace job_id name [] = ok tt
require_no_trace job_id name (s ∷ rest) =
    let others = require_no_trace job_id name rest in
    if s.is_current_pseudo_entry
    then others
    else if s.name == name
    then err authority_conflict
    else if claims job_id s.ownership || s.ownership_malformed
    then err authority_conflict
    else others

abbrev pub is_named : Option String → String → Bool
is_named none name = false
is_named (some parent) name = parent == name

-- `_require_current_parent_is`: the first pseudo-entry decides.
unfoldable pub require_current_parent_is : List ObservedSnapshot → String → Result (Unit {0})
require_current_parent_is [] name = err authority_conflict
require_current_parent_is (s ∷ rest) name =
    let others = require_current_parent_is rest name in
    if not s.is_current_pseudo_entry
    then others
    else if is_named s.parent name
    then ok tt
    else err authority_conflict
