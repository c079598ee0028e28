-- ===== src/Authority/Source.antt =====
-- The freshness of an inventory source and the currency of a committed context:
-- `app/inventory/authority.py`.
use hubinet_ops.Prelude.{
  String, Bool, true, false, ◌&&◌, Option, some, map, ◌==◌, ltb, string_eq, nat_eq, if◌then◌else◌,
}
use hubinet_ops.Authority.Result.{
  ok, authority_not_found, authority_invariant, type_error, or_raise,
}
use hubinet_ops.Authority.Tables.{Time, Context, Source, Endpoint, SourceHealth, Db}
use hubinet_ops.Authority.Tx.{Tx, ◌>>=◌, ◌>>◌, pure, lift, gets, when_null, bump_published}
use hubinet_ops.Authority.Query.{find_by, select_by, is_just, is_number, str_of, only}

unfoldable pub require_source_row : String → Tx Source
unfolding find_by
require_source_row id = do
  found ← gets (λ db. find_by (λ s. s.inventory_source_id == id) db.sources)
  lift (or_raise found authority_not_found)

-- `_require_active_endpoint_row`
unfoldable pub require_active_endpoint_row : String → Tx Endpoint
unfolding select_by
require_active_endpoint_row id = do
  rows ←
      gets
        (λ db. select_by (λ e. e.inventory_source_id == id && e.lifecycle == "active") db.endpoints)
  lift (or_raise (only rows) authority_invariant)

abbrev pub health_row : Db → String → Option SourceHealth
health_row db id = find_by (λ h. h.inventory_source_id == id) db.source_healths

-- `_committed_context_is_current`
abbrev pub committed_context_is_current : Source → Endpoint → SourceHealth → Bool
committed_context_is_current source endpoint health =
    is_number health.committed_source_config_revision source.source_config_revision
    && is_just health.committed_endpoint_id endpoint.endpoint_id
    && is_just health.committed_canonical_transport_locator endpoint.canonical_transport_locator
    && is_number health.committed_canonicalization_contract_version
        endpoint.canonicalization_contract_version
    && is_number health.committed_transport_trust_revision endpoint.transport_trust_revision

-- `_source_has_current_authority_in_transaction`
unfoldable pub source_has_current_authority : String → Tx Bool
unfolding require_source_row require_active_endpoint_row find_by
source_has_current_authority id = do
  source ← require_source_row id
  endpoint ← require_active_endpoint_row id
  row ← gets (λ db. health_row db id)
  health ← lift (or_raise row authority_invariant)
  pure (
      health.health == "healthy"
      && health.freshness == "fresh"
      && committed_context_is_current source endpoint health)

-- `_package_scan_source_context_is_current`: `int(None)` raises `TypeError`, `str(None)` does not.
unfoldable pub source_context_is_current : Context → Tx Bool
unfolding source_has_current_authority
source_context_is_current c = do
  source ← require_source_row c.inventory_source_id
  endpoint ← require_active_endpoint_row c.inventory_source_id
  row ← gets (λ db. health_row db c.inventory_source_id)
  health ← lift (or_raise row authority_invariant)
  holds ← source_has_current_authority c.inventory_source_id
  config ← lift (or_raise health.committed_source_config_revision type_error)
  contract ← lift (or_raise health.committed_canonicalization_contract_version type_error)
  trust ← lift (or_raise health.committed_transport_trust_revision type_error)
  pure (
      holds
      && c.source_config_revision == config
      && c.endpoint_id == str_of health.committed_endpoint_id
      && c.canonical_transport_locator == str_of health.committed_canonical_transport_locator
      && c.canonicalization_contract_version == contract
      && c.transport_trust_revision == trust
      && c.provider_contract_version == source.provider_contract_version
      && c.endpoint_id == endpoint.endpoint_id)

abbrev pub set_stale : String → SourceHealth → SourceHealth
set_stale reason h = record h {
  freshness = "stale";
  health_origin = "time_expiry";
  health_reason = some reason;
}

unfoldable pub update_health : String → String → Tx (Unit {0})
update_health id reason db = ok (
  tt,
  record db {
    source_healths =
        map (λ h. if h.inventory_source_id == id then set_stale reason h else h) db.source_healths;
  },
)

-- The end of `_materialize_due_expiry_in_transaction`, from the persisted interval on.
unfoldable pub expire_if_due : String → Time → SourceHealth → Tx Bool
unfolding update_health bump_published
expire_if_due id now health = do
  reference ← lift (or_raise health.freshness_reference_at authority_invariant)
  deadline ← lift (or_raise health.freshness_valid_until authority_invariant)
  if ltb now reference
      then (do
        update_health id "freshness_clock_rollback_before_reference"
        bump_published now
        pure true)
      else if ltb now deadline
      then pure false
      else (do update_health id "freshness_deadline_elapsed"; bump_published now; pure true)

-- `_materialize_due_expiry_in_transaction` as the job transitions call it.
unfoldable pub materialize_due_expiry : String → Time → Tx Bool
unfolding expire_if_due
materialize_due_expiry id now = do
  source ← require_source_row id
  row ← gets (λ db. health_row db id)
  endpoint ← require_active_endpoint_row id
  when_null row (pure false) (λ health.
      if health.freshness == "fresh" && committed_context_is_current source endpoint health
      then expire_if_due id now health
      else pure false)
