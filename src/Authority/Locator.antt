-- ===== src/Authority/Locator.antt =====
-- Whether a job or a scan still names the guest that the inventory holds: `_package_scan_context_is_current`
-- and `_post_mutation_job_context_is_current` of `app/inventory/authority.py`.
use hubinet_ops.Prelude.{
  ℕ, String, Bool, true, false, ◌&&◌, Option, none, some, ◌==◌, string_eq, nat_eq,
}
use hubinet_ops.Authority.Tables.{Context, Job, Incarnation, Binding, Node, Db}
use hubinet_ops.Authority.Query.{find_by, is_just}

-- The join of `resource_incarnations`, its open binding, and its current node.
pub record CurrentResource : Type 0 where
  pub incarnation : Incarnation
  pub binding : Option Binding
  pub node : Option Node

abbrev pub is_open : Option ℕ → Bool
is_open none = true
is_open (some _) = false

unfoldable pub current_resource : Db → String → Option CurrentResource
unfolding find_by
current_resource db resource_id =
    elim (find_by (λ r. r.resource_id == resource_id) db.incarnations) [
      | none ↦ none
      | some r ↦ some (record {
        incarnation = r;
        binding =
            find_by (λ b. b.resource_id == r.resource_id && is_open b.valid_to_run_sequence)
              db.bindings;
        node = find_by (λ n. is_just r.current_node_id n.node_id) db.nodes;
      })
    ]

-- The comparisons that both proofs of a locator make; a column that is NULL refuses.
abbrev pub locator_matches : Context → CurrentResource → Binding → Node → Bool
locator_matches c r b n =
    r.incarnation.inventory_source_id == c.inventory_source_id
    && r.incarnation.resource_type == "lxc"
    && r.incarnation.presence == "present"
    && r.incarnation.lifecycle == "active"
    && r.incarnation.vmid == c.expected_vmid
    && b.binding_id == c.expected_binding_id
    && b.locator_generation == c.expected_locator_generation
    && r.incarnation.continuity_revision == c.expected_continuity_revision
    && is_just r.incarnation.current_node_id c.expected_node_id
    && n.external_node_name == c.expected_node_name
    && n.available

unfoldable pub locator_is_current : Context → CurrentResource → Bool
locator_is_current c r = elim (r.binding) [
  | none ↦ false
  | some b ↦ elim (r.node) [ none ↦ false | some n ↦ locator_matches c r b n ]
]

-- `_post_mutation_job_context_is_current`
unfoldable pub post_mutation_context_is_current : Db → Job → Bool
unfolding current_resource locator_is_current
post_mutation_context_is_current db job = elim (current_resource db job.context.resource_id) [
  | none ↦ false
  | some r ↦ locator_is_current job.context r
]

-- `_package_scan_context_is_current`, of a job or of a scan: the guest must also be running.
unfoldable pub scan_context_is_current : Db → Context → Bool
unfolding current_resource locator_is_current
scan_context_is_current db c = elim (current_resource db c.resource_id) [
  | none ↦ false
  | some r ↦ locator_is_current c r && r.incarnation.status == "running"
]
