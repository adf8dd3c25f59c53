-- ===== src/Sync/Replay.antt =====
-- internal/sync/replay.go: the projection of rows without their audit fields, and the difference of two
-- projections. A map is an association list.
pub mod Difference
use travel_mcp.Prelude.{
  ℕ, String, Bool, true, false, not, ◌&&◌, ◌||◌, List, [], ◌∷◌, Option, none, some, ◌==◌, str_eq,
  if◌then◌else◌, keep, lookup, contains, length,
}
use travel_mcp.Prelude.Sort.{sort_by}
use travel_mcp.Planner.Choose.{text_before}
use travel_mcp.Jobs.Store.{put_text}

abbrev pub Fields : Type 0
Fields = List (String × String)

abbrev pub Projection : Type 0
Projection = List (String × Fields)

pub record CanonicalRow : Type 0 where
  pub natural_key : String
  pub fields : Fields

pub audit_fields : List String
audit_fields = "observed_at" ∷ "last_verified_at" ∷ "sync_run_id" ∷ []

-- A later row of the same key takes the place of an earlier one.
pub project : List CanonicalRow → Projection → Projection
project [] out = out
project (r ∷ rows) out =
    project rows (put_text r.natural_key (keep (λ f. not (contains audit_fields f.0)) r.fields) out)

pub canonical_projection : List CanonicalRow → Projection
canonical_projection rows = project rows []

pub record Diff : Type 0 where
  pub added : List String
  pub removed : List String
  pub changed : List String

-- Every field of the first map stands in the second with the same value.
unfoldable pub agrees : Fields → Fields → Bool
agrees [] b = true
agrees ((k, v) ∷ a) b =
    let rest = agrees a b in elim (lookup k b) [ none ↦ false | some w ↦ str_eq w v && rest ]

unfoldable pub equal_fields : Fields → Fields → Bool
equal_fields a b = length a == length b && agrees a b

unfoldable pub removed_keys : Projection → Projection → List String
removed_keys [] b = []
removed_keys ((k, av) ∷ a) b =
    let rest = removed_keys a b in elim (lookup k b) [ none ↦ k ∷ rest | some bv ↦ rest ]

unfoldable pub changed_keys : Projection → Projection → List String
changed_keys [] b = []
changed_keys ((k, av) ∷ a) b =
    let rest = changed_keys a b in
    elim (lookup k b) [ none ↦ rest | some bv ↦ if equal_fields av bv then rest else k ∷ rest ]

-- The keys of the second that the first has not are found by the same loop.
unfoldable pub diff_projections : Projection → Projection → Diff
diff_projections a b = record {
  added = sort_by text_before (removed_keys b a);
  removed = sort_by text_before (removed_keys a b);
  changed = sort_by text_before (changed_keys a b);
}

unfoldable pub is_nil : List String → Bool
is_nil [] = true
is_nil (k ∷ ks) = false

unfoldable pub is_empty : Diff → Bool
is_empty d = is_nil d.added && is_nil d.removed && is_nil d.changed
